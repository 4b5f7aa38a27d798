-- ===== src/Server/Outcomes/Sound.antt =====
-- What the marks of internal/mcpserver/collectors.go keep of an outcome.
use homelab_evidence_mcp.Prelude.{
  ◌-◌, ◌≡◌, refl, ◌⊎◌, inl, inr, Bool, true, false, ◌||◌, ◌&&◌, List, [], Text, nat_eq, ◌==◌, ltb,
  length, arith, Bool-cases, Sum-cases,
}
use homelab_evidence_mcp.Prelude.Int.{ℤ, pos, leb_ℤ}
use homelab_evidence_mcp.Evidence.{Item, SourceKind, SourceOutcome, Reason, Time}
use homelab_evidence_mcp.Server.Outcomes.{
  SourceError, Conditions, ContextState, context_error_of, is_ok, has_no_reason, mark_empty,
  mark_truncated, mark_discarded, mark_snapshot_history, source_error_outcome, with_source_timeout,
  is_alive,
}

-- The reasons that a complete outcome may have.
unfoldable pub is_clean_reason : Reason → Bool
is_clean_reason Reason.none = true
is_clean_reason Reason.empty_result = true
is_clean_reason _ = false

-- The count is right for a source that has answered; one that has not has no items and is not
-- complete; and a complete outcome is ok, neither cut nor short of records, and gives no reason but
-- an empty result.
pub record IsSound (items : List Item) (o : SourceOutcome) : Type 0 where
  pub counted : o.item_count ≡ length items
  pub failed : is_ok o.status ≡ false → (items ≡ []) × (o.complete ≡ false)
  pub whole :
      o.complete ≡ true
      → (o.truncated ≡ false)
        × (leb_ℤ o.discarded (pos 0) ≡ true)
        × (is_clean_reason o.reason ≡ true)

clean-none : (r : Reason) → has_no_reason r ≡ true → is_clean_reason r ≡ true
unfolding has_no_reason is_clean_reason
clean-none r h = ground arith

clean-empty : is_clean_reason Reason.empty_result ≡ true
unfolding is_clean_reason
clean-empty = refl

pub mark_empty-IsSound :
    (items : List Item) (o : SourceOutcome) → IsSound items o → IsSound items (mark_empty o)
unfolding mark_empty
mark_empty-IsSound items o v =
    elim (Bool-cases (is_ok o.status && (has_no_reason o.reason && o.item_count == 0))) [
      | inl e ↦
          rw (e, mark_empty)
            (record {
              counted = v.counted;
              failed = v.failed;
              whole = λ h. ((v.whole h).0, (v.whole h).1, clean-empty);
            })
      | inr e ↦ rw (e, mark_empty) v
    ]

pub mark_truncated-IsSound :
    (items : List Item) (upstream local_cut : Bool) (o : SourceOutcome)
    → IsSound items o
    → IsSound items (mark_truncated upstream local_cut o)
unfolding mark_truncated
mark_truncated-IsSound items upstream local_cut o v = elim (Bool-cases (upstream || local_cut)) [
  | inl e ↦
      rw (e, mark_truncated)
        (record {
          counted = v.counted;
          failed = λ h. ((v.failed h).0, refl);
          whole = λ h. absurd (ground arith);
        })
  | inr e ↦
      rw (e, mark_truncated)
        (record {
          counted = v.counted;
          failed = v.failed;
          whole = λ h. (refl, (v.whole h).1, (v.whole h).2);
        })
]

pub mark_discarded-IsSound :
    (items : List Item) (discarded : ℤ) (o : SourceOutcome)
    → IsSound items o
    → IsSound items (mark_discarded discarded o)
unfolding mark_discarded
mark_discarded-IsSound items discarded o v = elim (Bool-cases (leb_ℤ discarded (pos 0))) [
  | inl e ↦ rw (e, mark_discarded) v
  | inr e ↦
      rw (e, mark_discarded)
        (record {
          counted = v.counted;
          failed = λ h. ((v.failed h).0, refl);
          whole = λ h. absurd (ground arith);
        })
]

pub mark_snapshot_history-IsSound :
    (items : List Item) (now end : Time) (o : SourceOutcome)
    → IsSound items o
    → IsSound items (mark_snapshot_history now end o)
unfolding mark_snapshot_history
mark_snapshot_history-IsSound items now end o v =
    elim (Bool-cases (is_ok o.status && ltb end (now - 30000000000))) [
      | inl e ↦
          rw (e, mark_snapshot_history)
            (record {
              counted = v.counted;
              failed = λ h. ((v.failed h).0, refl);
              whole = λ h. absurd (ground arith);
            })
      | inr e ↦ rw (e, mark_snapshot_history) v
    ]

abbrev pub Sound : SourceOutcome × List Item → Type 0
Sound r = IsSound r.1 r.0

module _ (to_lower : Text → Text) (sanitize_err : SourceError → Text) where
  source_error_outcome-IsSound :
      (ctx source_ctx : ContextState) (name : Text) (kind : SourceKind) (err : SourceError)
      (env : Conditions)
      → IsSound [] (source_error_outcome to_lower sanitize_err ctx source_ctx name kind err env)
  unfolding source_error_outcome
  source_error_outcome-IsSound ctx source_ctx name kind err env = record {
    counted = refl;
    failed = λ h. (refl, refl);
    whole = λ h. absurd (ground arith);
  }

  pub with_source_timeout-IsSound :
      (env : Conditions) (name : Text) (kind : SourceKind) (result : SourceError ⊎ List Item)
      → Sound (with_source_timeout to_lower sanitize_err env name kind result)
  unfolding with_source_timeout source_error_outcome is_clean_reason is_ok
  with_source_timeout-IsSound env name kind result = elim (Bool-cases (is_alive env.before)) [
    | inr dead ↦
        rw (dead, with_source_timeout)
          (source_error_outcome-IsSound env.before env.before name kind
            (context_error_of env.before) env)
    | inl alive ↦ elim (Bool-cases env.slot) [
      | inr late ↦
          rw (alive, with_source_timeout)
            (rw (late, with_source_timeout)
              (source_error_outcome-IsSound env.waiting env.waiting name kind
                (context_error_of env.waiting) env))
      | inl slot ↦ elim (Sum-cases result) [
        | inl (err, is) ↦
            rw (alive, with_source_timeout)
              (rw (slot, with_source_timeout)
                (rw (is, with_source_timeout)
                  (source_error_outcome-IsSound env.after env.source_after name kind err env)))
        | inr (items, is) ↦
            rw (alive, with_source_timeout)
              (rw (slot, with_source_timeout)
                (rw (is, with_source_timeout)
                  (record {
                    counted = refl;
                    failed = λ h. absurd (ground arith);
                    whole = λ h. (refl, refl, refl);
                  })))
      ]
    ]
  ]
