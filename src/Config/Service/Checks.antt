-- ===== src/Config/Service/Checks.antt =====
-- The Healthchecks bindings that `parseService` accepts.
use homelab_evidence_mcp.Prelude.{
  ◌≡◌, ◌⊎◌, inl, inr, Bool, false, true, not, ◌&&◌, ◌||◌, List, [], ◌∷◌, Text, ascii, text_beq_iff,
  leb, ltb, length, All, Bool-cases, ℕ, suc, ◌≤◌, arith,
}
use homelab_evidence_mcp.Prelude.Table.{Table}
use homelab_evidence_mcp.Config.Types.{Source, HealthchecksRef}
use homelab_evidence_mcp.Config.Names.{is_listed, is_healthcheck_key, rune_length, has_control}
use homelab_evidence_mcp.Config.Errors.{error_if-none, append-none, all_errors-none}
use homelab_evidence_mcp.Config.Source.{is_empty}
use homelab_evidence_mcp.Config.Bindings.{
  Parser, parse_tags, healthchecks_checks, parse_healthchecks,
}
use homelab_evidence_mcp.Config.Service.Refs.{
  Names, IsShort, binding_errors-none, check_source_ref-none,
}

pub record IsTag (t : Text) : Type 0 where
  pub given : is_empty t ≡ false
  pub short : ltb 128 (rune_length t) ≡ false
  pub no_control : has_control t ≡ false

-- A binding that says which checks it means.
pub record IsCheckRef (sources : Table Source) (ref : HealthchecksRef) : Type 0 where
  pub names : Names sources (ascii "healthchecks") ref.source
  pub tags : All IsTag ref.check_tags
  pub few_tags : length ref.check_tags ≤ 32
  pub identified :
      (is_empty ref.check_name
        && (is_empty ref.check_uuid
            && (is_empty ref.check_unique_key && leb (length ref.check_tags) 0)))
      ≡ false
  pub one_key : (ref.check_uuid ≡ []) ⊎ (ref.check_unique_key ≡ [])
  pub name : IsShort ref.check_name
  pub uuid : IsShort ref.check_uuid
  pub unique_key : (is_empty ref.check_unique_key || is_healthcheck_key ref.check_unique_key) ≡ true
  pub status :
      (is_empty ref.status_filter
        || is_listed
            (ascii "up" ∷ ascii "down" ∷ ascii "grace" ∷ ascii "paused" ∷ ascii "new" ∷ [])
            ref.status_filter)
      ≡ true
  pub history : is_listed (ascii "snapshot" ∷ ascii "transitions" ∷ []) ref.history_mode ≡ true

true_of_not : (b : Bool) → not b ≡ false → b ≡ true
true_of_not b h = ground arith

or_of_not : (a b : Bool) → (not a && not b) ≡ false → (a || b) ≡ true
or_of_not a b h = ground arith

either_empty : (a b : Text) → (not (is_empty a) && not (is_empty b)) ≡ false → (a ≡ []) ⊎ (b ≡ [])
either_empty a b h = elim (Bool-cases (is_empty a)) [
  | inl e ↦ inl ((text_beq_iff a []).0 e)
  | inr e ↦ inr (ground (arith, text_beq_iff b []))
]

few_of : (n m : ℕ) → ltb 32 n ≡ false → m ≤ n → m ≤ 32
few_of n m h k = ground arith

module _ (p : Parser) (path : Text) (sources : Table Source) where
  length-parse_tags :
      (i : ℕ) (raw : List Text) → length (parse_tags p path sources i raw).0 ≤ length raw
  unfolding parse_tags
  length-parse_tags i [] = omega arith
  length-parse_tags i (t ∷ raw) = ground (arith, length-parse_tags (suc i) raw)

  -- Every tag that is kept is good, with or without errors on the others.
  parse_tags-IsTag : (i : ℕ) (raw : List Text) → All IsTag (parse_tags p path sources i raw).0
  unfolding parse_tags
  parse_tags-IsTag i [] = tt
  parse_tags-IsTag i (raw ∷ rest) =
      let tag = p.trim_space raw in
      let ih = parse_tags-IsTag (suc i) rest in
      elim (Bool-cases (is_empty tag)) [
        | inl e ↦ rw e ih
        | inr e ↦ elim (Bool-cases (ltb 128 (rune_length tag))) [
          | inl k ↦ rw (e, k) ih
          | inr k ↦ elim (Bool-cases (has_control tag)) [
            | inl l ↦ rw (e, k, l) ih
            | inr l ↦ rw (e, k, l) (record { given = e; short = k; no_control = l }, ih)
          ]
        ]
      ]

  pub parse_healthchecks-none :
      (raw : HealthchecksRef)
      → (parse_healthchecks p path sources raw).1 ≡ []
      → IsCheckRef sources (parse_healthchecks p path sources raw).0
  unfolding parse_healthchecks healthchecks_checks
  parse_healthchecks-none raw h =
      let ref = (parse_healthchecks p path sources raw).0 in
      let parsed = parse_tags p path sources 0 raw.check_tags in
      let parts = append-none _ _ h in
      let none_of =
        all_errors-none (healthchecks_checks p path sources (length raw.check_tags) parsed.1 ref)
          parts.1 in
      record {
        names = check_source_ref-none _ _ _ sources parts.0;
        tags = parse_tags-IsTag 0 raw.check_tags;
        few_tags =
            few_of (length raw.check_tags) _ (error_if-none _ _ _ none_of.0)
              (length-parse_tags 0 raw.check_tags);
        identified = error_if-none _ _ _ none_of.1.1.0;
        one_key =
            either_empty ref.check_uuid ref.check_unique_key (error_if-none _ _ _ none_of.1.1.1.0);
        name = binding_errors-none _ _ none_of.1.1.1.1.0;
        uuid = binding_errors-none _ _ none_of.1.1.1.1.1.0;
        unique_key =
            or_of_not (is_empty ref.check_unique_key) _ (error_if-none _ _ _ none_of.1.1.1.1.1.1.0);
        status =
            or_of_not (is_empty ref.status_filter) _ (error_if-none _ _ _ none_of.1.1.1.1.1.1.1.0);
        history = true_of_not _ (error_if-none _ _ _ none_of.1.1.1.1.1.1.1.1.0);
      }
