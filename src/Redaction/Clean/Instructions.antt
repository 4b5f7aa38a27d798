-- ===== src/Redaction/Clean/Instructions.antt =====
-- `NeutralizeInstructionLike`.
use homelab_evidence_mcp.Prelude.{
  ◌≡◌, refl, ap, ◌∙◌, ◌⊎◌, sym, ◌||◌, [], ◌++◌, Text, ascii, arith, any, text_beq, Bool-cases, inl,
  inr,
}
use homelab_evidence_mcp.Redaction.Search.{has_prefix, has_prefix-append, contains}
use homelab_evidence_mcp.Redaction.Clean.{
  neutralize_instruction_like, untrusted_data_marker, markers,
}

kept-marked :
    (to_lower : Text → Text) (s : Text)
    → neutralize_instruction_like to_lower (untrusted_data_marker ++ s) ≡ untrusted_data_marker ++ s
unfolding neutralize_instruction_like text_beq
kept-marked to_lower s = ground (arith, has_prefix-append untrusted_data_marker s)

neutralize-cases :
    (to_lower : Text → Text) (s : Text)
    → (neutralize_instruction_like to_lower s ≡ s)
      ⊎ (neutralize_instruction_like to_lower s ≡ untrusted_data_marker ++ (ascii " " ++ s))
unfolding neutralize_instruction_like
neutralize-cases to_lower s =
    elim (Bool-cases (text_beq s [] || has_prefix s untrusted_data_marker)) [
      | inl e ↦ rw e (inl refl)
      | inr e ↦ elim (Bool-cases (any (contains (to_lower s)) markers)) [
        | inl f ↦ rw e (rw f (inr refl))
        | inr f ↦ rw e (rw f (inl refl))
      ]
    ]

-- Text that has been marked once is not marked again: `NeutralizeInstructionLike` applied twice
-- gives what it gives once, for any lower-casing function.
pub neutralize_instruction_like_idem :
    (to_lower : Text → Text) (s : Text)
    → neutralize_instruction_like to_lower (neutralize_instruction_like to_lower s)
      ≡ neutralize_instruction_like to_lower s
neutralize_instruction_like_idem to_lower s = elim (neutralize-cases to_lower s) [
  | inl e ↦ ap (neutralize_instruction_like to_lower) e
  | inr e ↦
      ap (neutralize_instruction_like to_lower) e ∙ (kept-marked to_lower (ascii " " ++ s) ∙ sym e)
]
