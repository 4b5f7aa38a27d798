-- ===== src/Server/Collect/Sound.antt =====
-- The outcomes of the collectors of internal/mcpserver/collectors.go.
use homelab_evidence_mcp.Prelude.{
  ℕ, refl, ◌⊎◌, inl, inr, Bool, true, false, ◌&&◌, List, Option, none, some, Text, ascii, nat_eq,
  if◌then◌else◌, any, arith, Bool-cases,
}
use homelab_evidence_mcp.Prelude.Int.{ℤ, pos}
use homelab_evidence_mcp.Evidence.{Item, SourceKind, SourceOutcome, Time}
use homelab_evidence_mcp.Server.Outcomes.{
  SourceError, Conditions, is_ok, is_missing_item, mark_truncated, mark_discarded,
  mark_snapshot_history,
}
use homelab_evidence_mcp.Server.Outcomes.Sound.{
  IsSound, Sound, mark_empty-IsSound, mark_truncated-IsSound, mark_discarded-IsSound,
  mark_snapshot_history-IsSound, with_source_timeout-IsSound,
}
use homelab_evidence_mcp.Server.Collect.{
  Answered, TransitionResult, unmatched, is_single_missing, called, runs_call, window_limit,
  missing_client, window_answer, transition_of, transition_answer, finish_status, finish_gatus,
  finish_snapshot, finish_transitions, collect_gatus_window, collect_docker_window,
  collect_beszel_window, collect_hc_window, collect_loki, collect_ntfy,
}

unmatched-IsSound :
    (items : List Item) (o : SourceOutcome) → IsSound items o → IsSound items (unmatched o)
unfolding unmatched
unmatched-IsSound items o v = record {
  counted = v.counted;
  failed = λ h. ((v.failed h).0, refl);
  whole = λ h. absurd (ground arith);
}

module _ (to_lower : Text → Text) (sanitize_err : SourceError → Text)
    (failures_text : ℕ → Text) where
  called-IsSound :
      (env : Conditions) (name : Text) (kind : SourceKind) (label : Text) (client : Option Answered)
      → Sound (called to_lower sanitize_err failures_text env name kind label client)
  called-IsSound env name kind label none =
      with_source_timeout-IsSound to_lower sanitize_err env name kind (inl (missing_client label))
  called-IsSound env name kind label (some answer) =
      with_source_timeout-IsSound to_lower sanitize_err env name kind answer

  finish_status-IsSound :
      (r : SourceOutcome × List Item)
      → Sound r
      → Sound (finish_status to_lower sanitize_err failures_text r)
  unfolding finish_status
  finish_status-IsSound (o, items) v = elim (Bool-cases (is_single_missing items)) [
    | inl e ↦
        rw (e, finish_status) (mark_empty-IsSound items (unmatched o) (unmatched-IsSound items o v))
    | inr e ↦ rw (e, finish_status) (mark_empty-IsSound items o v)
  ]

  finish_gatus-IsSound :
      (cut : Bool) (r : SourceOutcome × List Item)
      → Sound r
      → Sound (finish_gatus to_lower sanitize_err failures_text cut r)
  unfolding finish_gatus
  finish_gatus-IsSound cut (o, items) v = elim (Bool-cases (any is_missing_item items)) [
    | inl e ↦
        rw (e, finish_gatus)
          (mark_empty-IsSound items (mark_truncated false cut (unmatched o))
            (mark_truncated-IsSound items false cut (unmatched o) (unmatched-IsSound items o v)))
    | inr e ↦
        rw (e, finish_gatus)
          (mark_empty-IsSound items (mark_truncated false cut o)
            (mark_truncated-IsSound items false cut o v))
  ]

  finish_snapshot-IsSound :
      (now end : Time) (r : SourceOutcome × List Item)
      → Sound r
      → Sound (finish_snapshot to_lower sanitize_err failures_text now end r)
  unfolding finish_snapshot
  finish_snapshot-IsSound now end (o, items) v =
      mark_empty-IsSound items (mark_snapshot_history now end o)
        (mark_snapshot_history-IsSound items now end o v)

  finish_transitions-IsSound :
      (t : TransitionResult) (r : SourceOutcome × List Item)
      → Sound r
      → Sound (finish_transitions to_lower sanitize_err failures_text t r)
  unfolding finish_transitions
  finish_transitions-IsSound t (o, items) v = elim (Bool-cases (is_ok o.status)) [
    | inr e ↦ rw (e, finish_transitions) v
    | inl e ↦
        rw (e, finish_transitions)
          (record {
            counted = v.counted;
            failed = λ h. absurd (ground (arith, e));
            whole = λ h. absurd (ground arith);
          })
  ]

  -- The outcome of the collector of Loki is sound, whatever the client and the contexts do:
  -- it counts its items; without an answer it has no items and is not complete; a complete
  -- one was neither cut nor short of records and gives no reason but an empty result.
  pub collect_loki-IsSound :
      (env : Conditions) (name : Text) (client : Option (Answered × Bool × ℤ))
      → Sound (collect_loki to_lower sanitize_err failures_text env name client)
  unfolding collect_loki
  collect_loki-IsSound env name none =
      let r =
        called to_lower sanitize_err failures_text env name SourceKind.loki (ascii "loki") none in
      mark_empty-IsSound r.1 (mark_discarded (pos 0) (mark_truncated false false r.0)) (
        mark_discarded-IsSound r.1 (pos 0) (mark_truncated false false r.0) (
          mark_truncated-IsSound r.1 false false r.0
            (called-IsSound env name SourceKind.loki (ascii "loki") none)))
  collect_loki-IsSound env name (some (a, cut, d)) =
      let r =
        called to_lower sanitize_err failures_text env name SourceKind.loki (ascii "loki")
          (some a) in
      let cut' = runs_call to_lower sanitize_err failures_text env && cut in
      let d' = if runs_call to_lower sanitize_err failures_text env then d else pos 0 in
      mark_empty-IsSound r.1 (mark_discarded d' (mark_truncated false cut' r.0)) (
        mark_discarded-IsSound r.1 d' (mark_truncated false cut' r.0) (
          mark_truncated-IsSound r.1 false cut' r.0
            (called-IsSound env name SourceKind.loki (ascii "loki") (some a))))

  -- The outcome of the collector of ntfy is sound, whatever the client and the contexts do
  -- and whichever side cut the list: it counts its items; without an answer it has no items
  -- and is not complete; a complete one was neither cut nor short of records and gives no
  -- reason but an empty result.
  pub collect_ntfy-IsSound :
      (env : Conditions) (name : Text) (client : Option (Answered × Bool × Bool))
      → Sound (collect_ntfy to_lower sanitize_err failures_text env name client)
  unfolding collect_ntfy
  collect_ntfy-IsSound env name none =
      let r =
        called to_lower sanitize_err failures_text env name SourceKind.ntfy (ascii "ntfy") none in
      mark_empty-IsSound r.1 (mark_truncated false false r.0) (
        mark_truncated-IsSound r.1 false false r.0
          (called-IsSound env name SourceKind.ntfy (ascii "ntfy") none))
  collect_ntfy-IsSound env name (some (a, up, cut)) =
      let r =
        called to_lower sanitize_err failures_text env name SourceKind.ntfy (ascii "ntfy")
          (some a) in
      let runs = runs_call to_lower sanitize_err failures_text env in
      mark_empty-IsSound r.1 (mark_truncated (runs && up) (runs && cut) r.0) (
        mark_truncated-IsSound r.1 (runs && up) (runs && cut) r.0
          (called-IsSound env name SourceKind.ntfy (ascii "ntfy") (some a)))

  -- The outcome of a window of Healthchecks is sound, with the history of transitions and
  -- with the current failures: it counts its items; without an answer it has no items and is
  -- not complete; a complete one was neither cut nor short of records and gives no reason but
  -- an empty result.
  pub collect_hc_window-IsSound :
      (env : Conditions) (name : Text) (by_transitions : Bool)
      (history : Option (SourceError ⊎ TransitionResult)) (current : Option Answered)
      (end now : Time)
      → Sound (
          collect_hc_window to_lower sanitize_err failures_text env name by_transitions history
            current end now)
  unfolding collect_hc_window
  collect_hc_window-IsSound env name true history current end now =
      finish_transitions-IsSound (transition_of to_lower sanitize_err failures_text history)
        (called to_lower sanitize_err failures_text env name SourceKind.healthchecks
          (ascii "healthchecks") (transition_answer to_lower sanitize_err failures_text history))
        (called-IsSound env name SourceKind.healthchecks (ascii "healthchecks")
          (transition_answer to_lower sanitize_err failures_text history))
  collect_hc_window-IsSound env name false history current end now =
      finish_snapshot-IsSound now end
        (called to_lower sanitize_err failures_text env name SourceKind.healthchecks
          (ascii "healthchecks") current)
        (called-IsSound env name SourceKind.healthchecks (ascii "healthchecks") current)

  collect_gatus_window-IsSound :
      (env : Conditions) (name : Text) (client : Option (ℤ → Answered × Bool))
      (max max_evidence_items : ℤ)
      → Sound (
          collect_gatus_window to_lower sanitize_err failures_text env name client max
            max_evidence_items)
  unfolding collect_gatus_window
  collect_gatus_window-IsSound env name none max max_evidence_items =
      finish_gatus-IsSound false
        (called to_lower sanitize_err failures_text env name SourceKind.gatus (ascii "gatus") none)
        (called-IsSound env name SourceKind.gatus (ascii "gatus") none)
  collect_gatus_window-IsSound env name (some f) max max_evidence_items =
      let limit = window_limit to_lower sanitize_err failures_text max max_evidence_items in
      finish_gatus-IsSound (runs_call to_lower sanitize_err failures_text env && (f limit).1)
        (called to_lower sanitize_err failures_text env name SourceKind.gatus (ascii "gatus")
          (some (f limit).0))
        (called-IsSound env name SourceKind.gatus (ascii "gatus") (some (f limit).0))

  -- The outcomes of the windows of Docker, Beszel and Gatus are sound, for every window and
  -- every limit: each counts its items; without an answer it has no items and is not
  -- complete; a complete one was neither cut nor short of records and gives no reason but an
  -- empty result.
  collect_window-IsSound :
      (env : Conditions) (name : Text) (client : Option Answered)
      (gatus : Option (ℤ → Answered × Bool)) (start end now : Time) (max max_evidence_items : ℤ)
      → Sound
          (collect_docker_window to_lower sanitize_err failures_text env name client start end now)
        × Sound (
            collect_beszel_window to_lower sanitize_err failures_text env name client start end now)
        × Sound (
            collect_gatus_window to_lower sanitize_err failures_text env name gatus max
              max_evidence_items)
  unfolding collect_docker_window collect_beszel_window
  collect_window-IsSound env name client gatus start end now max max_evidence_items =
      let answer = window_answer to_lower sanitize_err failures_text start end client in
      (
        finish_snapshot-IsSound now end
            (called to_lower sanitize_err failures_text env name SourceKind.docker (ascii "docker")
              answer)
            (called-IsSound env name SourceKind.docker (ascii "docker") answer),
        finish_snapshot-IsSound now end
            (called to_lower sanitize_err failures_text env name SourceKind.beszel (ascii "beszel")
              answer)
            (called-IsSound env name SourceKind.beszel (ascii "beszel") answer),
        collect_gatus_window-IsSound env name gatus max max_evidence_items,
      )
