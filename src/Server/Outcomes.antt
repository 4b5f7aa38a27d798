-- ===== src/Server/Outcomes.antt =====
-- The outcome of a source call in internal/mcpserver/collectors.go, from the call to the coverage
-- of an answer. The states of the contexts and the result of the call are arguments, and so are
-- `strings.ToLower` and the cleaning of error texts.
pub mod Coverage
pub mod Sound
use homelab_evidence_mcp.Prelude.{
  ℕ, ◌+◌, ◌-◌, ◌≡◌, refl, ◌⊎◌, inl, inr, Bool, true, false, not, ◌||◌, ◌&&◌, List, [], ◌∷◌, Option,
  none, some, Text, ascii, text_beq, nat_eq, ◌==◌, ltb, if◌then◌else◌, length, map,
}
use homelab_evidence_mcp.Prelude.Table.{lookup}
use homelab_evidence_mcp.Prelude.Int.{ℤ, pos, leb_ℤ}
use homelab_evidence_mcp.Evidence.{
  Item, SourceKind, SourceOutcome, Status, Reason, Freshness, Value, Time,
}
use homelab_evidence_mcp.Redaction.Search.{contains}

-- ctx.Err()
pub data ContextState : Type 0 where
  alive was_canceled deadline_exceeded : ContextState

-- An error: whether it wraps healthchecks.ErrNoMatch, and its text.
pub record SourceError : Type 0 where
  pub no_match : Bool
  pub message : Text

-- What a call of a source meets: the context before it, whether a slot of the semaphore came before
-- the end of the context, the two contexts after it, what the recorder says and how long it took.
pub record Conditions : Type 0 where
  pub before : ContextState
  pub slot : Bool
  pub waiting : ContextState
  pub after : ContextState
  pub source_after : ContextState
  pub cache_state : Text
  pub cache_age : ℕ
  pub duration_ms : ℕ

abbrev pub is_canceled : ContextState → Bool
is_canceled was_canceled = true
is_canceled alive = false
is_canceled deadline_exceeded = false

abbrev pub is_late : ContextState → Bool
is_late deadline_exceeded = true
is_late alive = false
is_late was_canceled = false

abbrev pub is_alive : ContextState → Bool
is_alive ctx = not (is_canceled ctx || is_late ctx)

abbrev pub context_text : ContextState → Text
context_text alive = []
context_text was_canceled = ascii "context canceled"
context_text deadline_exceeded = ascii "context deadline exceeded"

-- The error of a context that has ended.
abbrev pub context_error_of : ContextState → SourceError
context_error_of ctx = record { no_match = false; message = context_text ctx }

unfoldable pub is_ok : Status → Bool
is_ok Status.ok = true
is_ok Status.error = false
is_ok Status.skipped = false
is_ok Status.timeout = false
is_ok Status.absent = false
is_ok Status.canceled = false

unfoldable pub has_no_reason : Reason → Bool
has_no_reason Reason.none = true
has_no_reason _ = false

-- A source without a binding, or one that the tool does not query.
unfoldable pub is_outside : Status → Bool
is_outside Status.absent = true
is_outside Status.skipped = true
is_outside Status.ok = false
is_outside Status.error = false
is_outside Status.timeout = false
is_outside Status.canceled = false

unfoldable pub is_missing_item : Item → Bool
is_missing_item item = elim item.freshness [
  | Freshness.missing ↦ true
  | _ ↦ elim (lookup (ascii "found") item.attributes) [
    | some (Value.flag found) ↦ not found
    | _ ↦ false
  ]
]

unfoldable pub mark_empty : SourceOutcome → SourceOutcome
mark_empty o =
    if is_ok o.status && (has_no_reason o.reason && o.item_count == 0)
    then record o { reason = Reason.empty_result }
    else o

unfoldable pub mark_truncated : Bool → Bool → SourceOutcome → SourceOutcome
mark_truncated upstream local_cut o =
    let o' = record o {
      upstream_truncated = upstream;
      local_truncated = local_cut;
      truncated = upstream || local_cut;
    } in
    if upstream || local_cut
    then record o' {
      complete = false;
      reason = if has_no_reason o.reason then Reason.truncated else o.reason;
    }
    else o'

unfoldable pub mark_discarded : ℤ → SourceOutcome → SourceOutcome
mark_discarded discarded o = if leb_ℤ discarded (pos 0) then o else record o {
  discarded = discarded;
  complete = false;
  reason = Reason.partial_invalid_records;
}

-- The window ends more than thirty seconds ago.
unfoldable pub mark_snapshot_history : Time → Time → SourceOutcome → SourceOutcome
mark_snapshot_history now end o =
    if is_ok o.status && ltb end (now - 30000000000)
    then record o { reason = Reason.unsupported_history; complete = false }
    else o

-- One round of the loop of `normalizeOutcomes`.
unfoldable pub normalize_outcome : SourceOutcome → SourceOutcome
normalize_outcome o = if not (has_no_reason o.reason) then o else elim o.status [
  | Status.absent ↦ record o { reason = Reason.no_binding; complete = true }
  | Status.skipped ↦ record o { reason = Reason.not_queried_by_tool; complete = true }
  | _ ↦ o
]

abbrev pub normalize_outcomes : List SourceOutcome → List SourceOutcome
normalize_outcomes = map normalize_outcome

-- The loop of `outcomeCoverage`: complete, any ok, and the number of configured sources.
unfoldable pub coverage_loop : List SourceOutcome → Bool → Bool → ℕ → Bool × Bool × ℕ
coverage_loop [] complete any_ok configured = (complete, any_ok, configured)
coverage_loop (o ∷ rest) complete any_ok configured =
    if is_outside o.status
    then coverage_loop rest complete any_ok configured
    else coverage_loop rest (if o.complete then complete else false)
        (if is_ok o.status then true else any_ok) (configured + 1)

unfoldable pub outcome_coverage : List SourceOutcome → Bool × Bool × ℕ
outcome_coverage sources = coverage_loop sources true false 0

pub data AuditStatus : Type 0 where
  audit_ok audit_error audit_partial : AuditStatus

unfoldable pub audit_status : Bool → Bool → ℕ → AuditStatus
audit_status complete any_ok configured =
    if complete
    then audit_ok
    else if ltb 0 configured && not any_ok
    then audit_error
    else audit_partial

module _ (to_lower : Text → Text) (sanitize_err : SourceError → Text) where
  unfoldable pub reason_for_error : SourceError → Reason
  reason_for_error err =
      let message = to_lower err.message in
      if err.no_match
      then Reason.unmatched_binding
      else if contains message (ascii "authentication")
          || (contains message (ascii " 401") || contains message (ascii " 403"))
      then Reason.authentication_failed
      else if contains message (ascii "timeout")
      then Reason.timeout
      else Reason.upstream_error

  unfoldable pub source_error_outcome :
      ContextState → ContextState → Text → SourceKind → SourceError → Conditions → SourceOutcome
  source_error_outcome ctx source_ctx name kind err env =
      let canceled = is_canceled ctx || is_canceled source_ctx in
      let late = is_late source_ctx || is_late ctx in
      record {
        source_name = name;
        kind = kind;
        status =
            if canceled then Status.canceled else if late then Status.timeout else Status.error;
        reason =
            if canceled
            then Reason.canceled
            else if late
            then Reason.timeout
            else reason_for_error err;
        error = sanitize_err err;
        item_count = 0;
        complete = false;
        truncated = false;
        upstream_truncated = false;
        local_truncated = false;
        discarded = pos 0;
        omitted = pos 0;
        cache_state = env.cache_state;
        cache_age_s = env.cache_age;
        duration_ms = env.duration_ms;
      }

  unfoldable pub with_source_timeout :
      Conditions → Text → SourceKind → SourceError ⊎ List Item → SourceOutcome × List Item
  with_source_timeout env name kind result =
      if not (is_alive env.before)
      then (
        source_error_outcome env.before env.before name kind (context_error_of env.before) env,
        [],
      )
      else if not env.slot
      then (
        source_error_outcome env.waiting env.waiting name kind (context_error_of env.waiting) env,
        [],
      )
      else elim result [
        | inl err ↦ (source_error_outcome env.after env.source_after name kind err env, [])
        | inr items ↦ (
          record {
            source_name = name;
            kind = kind;
            status = Status.ok;
            reason = Reason.none;
            error = [];
            item_count = length items;
            complete = true;
            truncated = false;
            upstream_truncated = false;
            local_truncated = false;
            discarded = pos 0;
            omitted = pos 0;
            cache_state = env.cache_state;
            cache_age_s = env.cache_age;
            duration_ms = env.duration_ms;
          },
          items,
        )
      ]
