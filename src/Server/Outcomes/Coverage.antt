-- ===== src/Server/Outcomes/Coverage.antt =====
-- The coverage of an answer, read off its outcomes.
use homelab_evidence_mcp.Prelude.{
  ℕ, ◌+◌, ◌≡◌, refl, Bool, true, false, not, ◌||◌, ◌&&◌, List, [], ◌∷◌, ltb, if◌then◌else◌, any,
  count, arith, Bool-cases, inl, inr,
}
use homelab_evidence_mcp.Evidence.{SourceOutcome, Status}
use homelab_evidence_mcp.Server.Outcomes.{
  is_ok, is_outside, has_no_reason, normalize_outcome, normalize_outcomes, coverage_loop,
  outcome_coverage, AuditStatus, audit_ok, audit_error, audit_partial, audit_status,
}

-- A source that was asked for, and one of these that is not covered.
abbrev pub is_configured : SourceOutcome → Bool
is_configured o = not (is_outside o.status)

abbrev pub is_gap : SourceOutcome → Bool
is_gap o = is_configured o && not o.complete

abbrev pub is_answered : SourceOutcome → Bool
is_answered o = is_ok o.status

ok-inside : (s : Status) → is_outside s ≡ true → is_ok s ≡ false
unfolding is_ok is_outside
ok-inside s h = ground arith

coverage_loop_lem :
    (l : List SourceOutcome) (complete any_ok : Bool) (configured : ℕ)
    → coverage_loop l complete any_ok configured ≡ (
      complete && not (any is_gap l),
      any_ok || any is_answered l,
      configured + count is_configured l,
    )
unfolding coverage_loop
coverage_loop_lem [] complete any_ok configured = ground arith
coverage_loop_lem (o ∷ l) complete any_ok configured = elim (Bool-cases (is_outside o.status)) [
  | inl out ↦ ground (arith, coverage_loop_lem l complete any_ok configured, ok-inside o.status out)
  | inr inside ↦ elim (Bool-cases (is_ok o.status)) [
    | inl fine ↦
        ground (
          arith,
          coverage_loop_lem l (if o.complete then complete else false) true (configured + 1),
        )
    | inr bad ↦ ground (
      arith,
      coverage_loop_lem l (if o.complete then complete else false) any_ok (configured + 1),
    )
  ]
]

-- The audit status of a coverage.
abbrev pub audited : Bool × Bool × ℕ → AuditStatus
audited (complete, any_ok, configured) = audit_status complete any_ok configured

-- An answer is audited as ok just when no source that was asked for is incomplete, as an error
-- just when one is and none of them is ok, and as partial otherwise.
pub audit_status-outcome_coverage :
    (l : List SourceOutcome)
    → audited (outcome_coverage l) ≡ (
        if not (any is_gap l)
        then audit_ok
        else if any is_answered l
        then audit_partial
        else audit_error)
unfolding audit_status outcome_coverage
audit_status-outcome_coverage l = ground (arith, coverage_loop_lem l true false 0, gap-configured l)
  where
    gap-configured :
        (m : List SourceOutcome) → any is_gap m ≡ true → ltb 0 (count is_configured m) ≡ true
    gap-configured [] h = absurd (ground arith)
    gap-configured (o ∷ m) h = ground (arith, gap-configured m)

normalize_outcome-keeps : (o : SourceOutcome) → (normalize_outcome o).status ≡ o.status
unfolding normalize_outcome has_no_reason is_outside
normalize_outcome-keeps o = ground arith

normalize_outcome-gap : (o : SourceOutcome) → is_gap (normalize_outcome o) ≡ is_gap o
unfolding normalize_outcome has_no_reason is_outside
normalize_outcome-gap o = ground arith

normalize_outcome_idem :
    (o : SourceOutcome) → normalize_outcome (normalize_outcome o) ≡ normalize_outcome o
unfolding normalize_outcome has_no_reason is_outside
normalize_outcome_idem o = ground arith

-- `normalizeOutcomes` does not change the coverage of the answer, and doing it twice is doing
-- it once.
pub normalize_outcomes_lem :
    (l : List SourceOutcome)
    → (normalize_outcomes (normalize_outcomes l) ≡ normalize_outcomes l)
      × (outcome_coverage (normalize_outcomes l) ≡ outcome_coverage l)
normalize_outcomes_lem l = (twice l, unfold outcome_coverage in same l true false 0)
  where
    twice :
        (m : List SourceOutcome) → normalize_outcomes (normalize_outcomes m) ≡ normalize_outcomes m
    twice [] = refl
    twice (o ∷ m) = ground (arith, twice m, normalize_outcome_idem o)

    same :
        (m : List SourceOutcome) (c a : Bool) (n : ℕ)
        → coverage_loop (normalize_outcomes m) c a n ≡ coverage_loop m c a n
    same m c a n =
        ground (
          arith,
          coverage_loop_lem m c a n,
          coverage_loop_lem (normalize_outcomes m) c a n,
          parts m,
        )
      where
        parts :
            (k : List SourceOutcome)
            → (any is_gap (normalize_outcomes k) ≡ any is_gap k)
              × (any is_answered (normalize_outcomes k) ≡ any is_answered k)
              × (count is_configured (normalize_outcomes k) ≡ count is_configured k)
        parts [] = (refl, refl, refl)
        parts (o ∷ k) = ground (arith, parts k, normalize_outcome-keeps o, normalize_outcome-gap o)
