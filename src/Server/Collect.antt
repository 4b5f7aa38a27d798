-- ===== src/Server/Collect.antt =====
-- The collectors of internal/mcpserver/collectors.go. The client of a source is `none` where the
-- map of the App has none; what it answers, for the arguments that the collector works out, is an
-- argument.
pub mod Reported
pub mod Sound
use homelab_evidence_mcp.Prelude.{
  ℕ, ◌+◌, ◌-◌, ◌≡◌, refl, ◌⊎◌, inl, inr, Bool, true, false, not, ◌||◌, ◌&&◌, List, [], ◌∷◌, ◌++◌,
  Option, none, some, Text, ascii, text_beq, nat_eq, ◌==◌, ltb, if◌then◌else◌, length, any, keep,
  map,
}
use homelab_evidence_mcp.Prelude.Int.{ℤ, pos, leb_ℤ, ltb_ℤ}
use homelab_evidence_mcp.Evidence.{Item, SourceKind, SourceOutcome, Status, Reason, Time}
use homelab_evidence_mcp.Server.Outcomes.{
  SourceError, Conditions, is_ok, is_missing_item, mark_empty, mark_truncated, mark_discarded,
  mark_snapshot_history, with_source_timeout, is_alive,
}

-- What a client answers.
abbrev pub Answered : Type 0
Answered = SourceError ⊎ List Item

abbrev pub missing_client : Text → SourceError
missing_client name = record { no_match = false; message = name ++ ascii " client missing" }

-- The items whose snapshot lies in the window, with the window written on them.
abbrev pub in_window : Time → Time → Item → Bool
in_window start end item =
    not (ltb item.observed_at start || ltb (end + 30000000000) item.observed_at)

abbrev pub with_window : Time → Time → Item → Item
with_window start end item = record item { window_start = some start; window_end = some end }

unfoldable pub filter_current_snapshots : List Item → Time → Time → List Item
filter_current_snapshots items start end =
    map (with_window start end) (keep (in_window start end) items)

abbrev pub filtered : Time → Time → Answered → Answered
filtered start end (inl e) = inl e
filtered start end (inr items) = inr (filter_current_snapshots items start end)

unfoldable pub unmatched : SourceOutcome → SourceOutcome
unmatched o = record o { reason = Reason.unmatched_binding; complete = false }

-- One item, and it says that the binding has no match.
abbrev pub is_single_missing : List Item → Bool
is_single_missing [] = false
is_single_missing (item ∷ []) = is_missing_item item
is_single_missing (item ∷ _ ∷ _) = false

-- The answer of `Transitions`.
pub record TransitionResult : Type 0 where
  pub items : List Item
  pub omitted : ℕ
  pub discarded : ℕ
  pub truncated : Bool
  pub failures : ℕ
  pub missing_identity : ℕ

module _ (to_lower : Text → Text) (sanitize_err : SourceError → Text)
    (failures_text : ℕ → Text) where
  -- The call runs: its writes to the variables of the collector happen.
  abbrev pub runs_call : Conditions → Bool
  runs_call env = is_alive env.before && env.slot

  -- A call through `withSourceTimeout`.
  abbrev pub called :
      Conditions → Text → SourceKind → Text → Option Answered → SourceOutcome × List Item
  called env name kind label none =
      with_source_timeout to_lower sanitize_err env name kind (inl (missing_client label))
  called env name kind label (some answer) =
      with_source_timeout to_lower sanitize_err env name kind answer

  -- The end of the collectors of a current state.
  unfoldable pub finish_status : SourceOutcome × List Item → SourceOutcome × List Item
  finish_status (o, items) =
      (mark_empty (if is_single_missing items then unmatched o else o), items)

  unfoldable pub collect_gatus_status :
      Conditions → Text → Option (SourceError ⊎ Item) → SourceOutcome × List Item
  unfolding finish_status
  collect_gatus_status env name client = finish_status (
      called env name SourceKind.gatus (ascii "gatus") (elim client [
        | none ↦ none
        | some (inl e) ↦ some (inl e)
        | some (inr item) ↦ some (inr (item ∷ []))
      ]))

  -- The limit that the client of the window gets.
  abbrev pub window_limit : ℤ → ℤ → ℤ
  window_limit max max_evidence_items =
      if leb_ℤ max (pos 0) || ltb_ℤ max_evidence_items max then max_evidence_items else max

  -- The end of the collector of a window of Gatus.
  unfoldable pub finish_gatus : Bool → SourceOutcome × List Item → SourceOutcome × List Item
  finish_gatus cut (o, items) = (
    mark_empty (mark_truncated false cut (if any is_missing_item items then unmatched o else o)),
    items,
  )

  unfoldable pub collect_gatus_window :
      Conditions → Text → Option (ℤ → Answered × Bool) → ℤ → ℤ → SourceOutcome × List Item
  unfolding finish_gatus
  collect_gatus_window env name client max max_evidence_items =
      let limit = window_limit max max_evidence_items in
      let answer : Option Answered = elim client [ none ↦ none | some f ↦ some (f limit).0 ] in
      let cut : Bool = elim client [ none ↦ false | some f ↦ runs_call env && (f limit).1 ] in
      finish_gatus cut (called env name SourceKind.gatus (ascii "gatus") answer)

  unfoldable pub collect_docker_status :
      Conditions → Text → Option Answered → SourceOutcome × List Item
  unfolding finish_status
  collect_docker_status env name client =
      finish_status (called env name SourceKind.docker (ascii "docker") client)

  unfoldable pub collect_beszel : Conditions → Text → Option Answered → SourceOutcome × List Item
  unfolding finish_status
  collect_beszel env name client =
      finish_status (called env name SourceKind.beszel (ascii "beszel") client)

  unfoldable pub collect_hc_status : Conditions → Text → Option Answered → SourceOutcome × List Item
  collect_hc_status env name client =
      let (o, items) = called env name SourceKind.healthchecks (ascii "healthchecks") client in
      (mark_empty o, items)

  -- The end of the collectors that only have a snapshot; `now` is the reading after the call.
  unfoldable pub finish_snapshot :
      Time → Time → SourceOutcome × List Item → SourceOutcome × List Item
  finish_snapshot now end (o, items) = (mark_empty (mark_snapshot_history now end o), items)

  abbrev pub window_answer : Time → Time → Option Answered → Option Answered
  window_answer start end none = none
  window_answer start end (some a) = some (filtered start end a)

  unfoldable pub collect_docker_window :
      Conditions → Text → Option Answered → Time → Time → Time → SourceOutcome × List Item
  unfolding finish_snapshot
  collect_docker_window env name client start end now =
      finish_snapshot now end
        (called env name SourceKind.docker (ascii "docker") (window_answer start end client))

  unfoldable pub collect_beszel_window :
      Conditions → Text → Option Answered → Time → Time → Time → SourceOutcome × List Item
  unfolding finish_snapshot
  collect_beszel_window env name client start end now =
      finish_snapshot now end
        (called env name SourceKind.beszel (ascii "beszel") (window_answer start end client))

  -- The reason that the switch leaves, for the number of items of the call.
  abbrev pub transition_reason : TransitionResult → ℕ → Reason
  transition_reason t n =
      if ltb 0 t.failures
      then Reason.partial_fetch
      else if ltb 0 t.missing_identity && n == 0
      then Reason.missing_identity
      else if ltb 0 t.omitted
      then Reason.omitted_checks
      else if t.truncated
      then Reason.truncated
      else Reason.unknown_history_coverage

  -- The error text that the switch leaves; `old` is the one before.
  abbrev pub transition_error : TransitionResult → ℕ → Text → Text
  transition_error t n old =
      if ltb 0 t.failures
      then failures_text t.failures
      else if ltb 0 t.missing_identity && n == 0
      then ascii "no selected check exposes a unique_key for history"
      else old

  -- The outcome of the history of state changes.
  unfoldable pub finish_transitions :
      TransitionResult → SourceOutcome × List Item → SourceOutcome × List Item
  finish_transitions t (o, items) =
      if is_ok o.status
      then (
        record o {
          omitted = pos t.omitted;
          discarded = pos t.discarded;
          local_truncated = t.truncated;
          truncated = t.truncated;
          complete = false;
          reason = transition_reason t (length items);
          error = transition_error t (length items) o.error;
        },
        items,
      )
      else (o, items)

  abbrev pub no_transitions : TransitionResult
  no_transitions = record {
    items = [];
    omitted = 0;
    discarded = 0;
    truncated = false;
    failures = 0;
    missing_identity = 0;
  }

  abbrev pub transition_answer : Option (SourceError ⊎ TransitionResult) → Option Answered
  transition_answer none = none
  transition_answer (some (inl e)) = some (inl e)
  transition_answer (some (inr t)) = some (inr t.items)

  abbrev pub transition_of : Option (SourceError ⊎ TransitionResult) → TransitionResult
  transition_of none = no_transitions
  transition_of (some (inl e)) = no_transitions
  transition_of (some (inr t)) = t

  -- `collectHCWindow`: with the history of transitions, or with the current failures.
  unfoldable pub collect_hc_window :
      Conditions
      → Text
      → Bool
      → Option (SourceError ⊎ TransitionResult)
      → Option Answered
      → Time
      → Time
      → SourceOutcome × List Item
  unfolding finish_transitions finish_snapshot
  collect_hc_window env name by_transitions history current end now =
      let call = called env name SourceKind.healthchecks (ascii "healthchecks") in
      if by_transitions
      then finish_transitions (transition_of history) (call (transition_answer history))
      else finish_snapshot now end (call current)

  unfoldable pub collect_hc_all_failed :
      Conditions → Text → Answered → Time → Time → SourceOutcome × List Item
  unfolding finish_snapshot
  collect_hc_all_failed env name answer end now =
      finish_snapshot now end
        (called env name SourceKind.healthchecks (ascii "healthchecks") (some answer))

  -- The client's cut and the records it could not use; none of it is known when the call did
  -- not run.
  unfoldable pub collect_loki :
      Conditions → Text → Option (Answered × Bool × ℤ) → SourceOutcome × List Item
  collect_loki env name client =
      let (o, items) =
        called env name SourceKind.loki (ascii "loki")
          (elim client [ none ↦ none | some (a, _, _) ↦ some a ]) in
      let cut : Bool = elim client [ none ↦ false | some (_, c, _) ↦ runs_call env && c ] in
      let discarded : ℤ = elim client [
        | none ↦ pos 0
        | some (_, _, d) ↦ if runs_call env then d else pos 0
      ] in
      (mark_empty (mark_discarded discarded (mark_truncated false cut o)), items)

  unfoldable pub collect_ntfy :
      Conditions → Text → Option (Answered × Bool × Bool) → SourceOutcome × List Item
  collect_ntfy env name client =
      let (o, items) =
        called env name SourceKind.ntfy (ascii "ntfy")
          (elim client [ none ↦ none | some (a, _, _) ↦ some a ]) in
      let upstream : Bool = elim client [ none ↦ false | some (_, u, _) ↦ runs_call env && u ] in
      let local_cut : Bool = elim client [ none ↦ false | some (_, _, l) ↦ runs_call env && l ] in
      (mark_empty (mark_truncated upstream local_cut o), items)
