-- ===== src/Redaction/Engine/Patterns.antt =====
-- The marks that the whole engine leaves on a text.
use homelab_evidence_mcp.Prelude.{
  ℕ, suc, ◌≤◌, ◌<◌, ◌≡◌, refl, ap, subst, sym, Bool, true, false, List, [], ◌∷◌, ◌++◌, Option, some,
  Text, arith, nat_eq, text_beq, ◌==◌, ltb, if◌then◌else◌, length, Bool-cases, inl, inr,
}
use homelab_evidence_mcp.Redaction.Clean.{sanitize_control}
use homelab_evidence_mcp.Redaction.Clean.Controls.{sanitize_control-nil}
use homelab_evidence_mcp.Redaction.Engine.{
  Engine, Marks, mark, exact_rules, unmarked, mark_ranges, regex_rules, marks_of, apply,
}
use homelab_evidence_mcp.Redaction.Engine.Cover.{
  is_marked, marked_count, IsMarking, Extends, Extends-refl, Extends-trans, mark-IsMarking,
  mark-Extends, mark_range, full_marked,
}
use homelab_evidence_mcp.Redaction.Engine.Secrets.{
  Touched, StandsAt, Touched-Extends, exact_rules-IsMarking, exact_rules-Touched,
}
use homelab_evidence_mcp.Redaction.Engine.Render.{masked, runs, render_lem}

count-unmarked : (s : Text) → marked_count (unmarked s) ≡ 0
unfolding unmarked
count-unmarked [] = refl
count-unmarked (c ∷ s) = count-unmarked s

length-unmarked : (s : Text) → length (unmarked s) ≡ length s
unfolding unmarked
length-unmarked [] = refl
length-unmarked (c ∷ s) = ap (suc) (length-unmarked s)

masked-nil : (bs : List Bool) → length bs ≡ 0 → (masked false [] bs ≡ []) × (runs false bs ≡ 0)
unfolding masked runs
masked-nil [] h = (refl, refl)
masked-nil (b ∷ bs) h = absurd (omega arith)

-- Every byte from `a` up to `b` is marked.
abbrev pub AllMarked : ℕ → ℕ → Marks → Type 0
AllMarked a b m = (j : ℕ) → a ≤ j → j < b → is_marked m.redacted j ≡ true

module _ {Regexp : Type 0} (compile : Text → Option Regexp)
    (find_all : Regexp → Text → List (ℕ × ℕ)) where
  one-Extends : (a b : ℕ) (m : Marks) → Extends m (if ltb a b then mark a b m else m)
  one-Extends a b m = elim (Bool-cases (ltb a b)) [
    | inl e ↦ rw e (mark-Extends a b m)
    | inr e ↦ rw e (Extends-refl m)
  ]

  one-IsMarking :
      (s : Text) (a b : ℕ) (m : Marks)
      → IsMarking s m
      → IsMarking s (if ltb a b then mark a b m else m)
  one-IsMarking s a b m v = elim (Bool-cases (ltb a b)) [
    | inl e ↦ rw e (mark-IsMarking s a b m v)
    | inr e ↦ rw e v
  ]

  mark_ranges-Extends :
      (l : List (ℕ × ℕ)) (m : Marks) → Extends m (mark_ranges compile find_all l m)
  unfolding mark_ranges
  mark_ranges-Extends [] m = Extends-refl m
  mark_ranges-Extends ((a, b) ∷ l) m =
      Extends-trans (one-Extends a b m) (mark_ranges-Extends l (if ltb a b then mark a b m else m))

  mark_ranges-IsMarking :
      (s : Text) (l : List (ℕ × ℕ)) (m : Marks)
      → IsMarking s m
      → IsMarking s (mark_ranges compile find_all l m)
  unfolding mark_ranges
  mark_ranges-IsMarking s [] m v = v
  mark_ranges-IsMarking s ((a, b) ∷ l) m v =
      mark_ranges-IsMarking s l (if ltb a b then mark a b m else m) (one-IsMarking s a b m v)

  mark_ranges-AllMarked :
      (s : Text) (before after : List (ℕ × ℕ)) (a b : ℕ) (m : Marks)
      → IsMarking s m
      → b ≤ length s
      → AllMarked a b (mark_ranges compile find_all (before ++ (a, b) ∷ after) m)
  unfolding mark_ranges
  mark_ranges-AllMarked s [] after a b m v fits = λ j lo hi.
      let real : ltb a b ≡ true = ground arith in
      let now = mark_range s a b j m v fits lo hi in
      let one = ap (λ (t : Bool). if t then mark a b m else m) real in
      subst (λ t. is_marked (mark_ranges compile find_all after t).redacted j ≡ true) (sym one)
        ((mark_ranges-Extends after (mark a b m)).keeps j now)
  mark_ranges-AllMarked s ((x, y) ∷ before) after a b m v fits =
      mark_ranges-AllMarked s before after a b (if ltb x y then mark x y m else m)
        (one-IsMarking s x y m v) fits

  regex_rules-Extends :
      (s : Text) (res : List Regexp) (m : Marks) → Extends m (regex_rules compile find_all s res m)
  unfolding regex_rules
  regex_rules-Extends s [] m = Extends-refl m
  regex_rules-Extends s (re ∷ res) m =
      let m' = mark_ranges compile find_all (find_all re s) m in
      elim (Bool-cases (m.covered == length s)) [
        | inl f ↦ rw f (Extends-refl m)
        | inr f ↦
            rw f
              (Extends-trans (mark_ranges-Extends (find_all re s) m) (regex_rules-Extends s res m'))
      ]

  regex_rules-IsMarking :
      (s : Text) (res : List Regexp) (m : Marks)
      → IsMarking s m
      → IsMarking s (regex_rules compile find_all s res m)
  unfolding regex_rules
  regex_rules-IsMarking s [] m v = v
  regex_rules-IsMarking s (re ∷ res) m v =
      let m' = mark_ranges compile find_all (find_all re s) m in
      elim (Bool-cases (m.covered == length s)) [
        | inl f ↦ rw f v
        | inr f ↦
            rw f (regex_rules-IsMarking s res m' (mark_ranges-IsMarking s (find_all re s) m v))
      ]

  full-AllMarked :
      (s : Text) (a b : ℕ) (m : Marks)
      → IsMarking s m
      → (m.covered == length s) ≡ true
      → b ≤ length s
      → AllMarked a b m
  full-AllMarked s a b m v f fits = λ j lo hi.
      full_marked m.redacted j (ground (arith, v.sized, v.counted)) (ground (arith, v.sized))

  regex_rules-AllMarked :
      (s : Text) (res later : List Regexp) (re : Regexp) (before after : List (ℕ × ℕ)) (a b : ℕ)
      (m : Marks)
      → IsMarking s m
      → find_all re s ≡ before ++ (a, b) ∷ after
      → b ≤ length s
      → AllMarked a b (regex_rules compile find_all s (res ++ re ∷ later) m)
  unfolding regex_rules
  regex_rules-AllMarked s [] later re before after a b m v found fits = λ j lo hi.
      let m' = mark_ranges compile find_all (find_all re s) m in
      let now : is_marked m'.redacted j ≡ true =
        rw found (mark_ranges-AllMarked s before after a b m v fits j lo hi) in
      elim (Bool-cases (m.covered == length s)) [
        | inl f ↦ rw f (full-AllMarked s a b m v f fits j lo hi)
        | inr f ↦ rw f ((regex_rules-Extends s later m').keeps j now)
      ]
  regex_rules-AllMarked s (x ∷ res) later re before after a b m v found fits =
      let m' = mark_ranges compile find_all (find_all x s) m in
      elim (Bool-cases (m.covered == length s)) [
        | inl f ↦ rw f (full-AllMarked s a b m v f fits)
        | inr f ↦ rw f (
            regex_rules-AllMarked s res later re before after a b m'
              (mark_ranges-IsMarking s (find_all x s) m v) found fits)
      ]

  start-IsMarking : (s : Text) → IsMarking s (record { redacted = unmarked s; covered = 0 })
  start-IsMarking s = record { sized = length-unmarked s; counted = sym (count-unmarked s) }

  marks_of-IsMarking : (e : Engine Regexp) (s : Text) → IsMarking s (marks_of compile find_all e s)
  unfolding marks_of
  marks_of-IsMarking e s =
      regex_rules-IsMarking s e.regexps
        (exact_rules s e.exact (record { redacted = unmarked s; covered = 0 }))
        (exact_rules-IsMarking s e.exact (record { redacted = unmarked s; covered = 0 })
          (start-IsMarking s))

  -- Wherever the text of a non-empty exact rule stands in `s`, at least one byte of that
  -- occurrence is marked by the rules, whatever the other rules are.
  pub marks_of-Touched :
      (e : Engine Regexp) (s part : Text) (before after : List Text) (p : ℕ)
      → e.exact ≡ before ++ part ∷ after
      → text_beq part [] ≡ false
      → StandsAt s part p
      → Touched p (length part) (marks_of compile find_all e s)
  unfolding marks_of
  marks_of-Touched e s part before after p has filled at =
      let start : Marks = record { redacted = unmarked s; covered = 0 } in
      let exact = exact_rules-Touched s part before after p start (start-IsMarking s) filled at in
      Touched-Extends p (length part)
        (regex_rules-Extends s e.regexps (exact_rules s e.exact start)) (rw has exact)

  -- Every byte of every range that a compiled pattern of the engine finds in `s` is marked,
  -- when the range ends within the text.
  pub marks_of-AllMarked :
      (e : Engine Regexp) (s : Text) (res later : List Regexp) (re : Regexp)
      (before after : List (ℕ × ℕ)) (a b : ℕ)
      → e.regexps ≡ res ++ re ∷ later
      → find_all re s ≡ before ++ (a, b) ∷ after
      → b ≤ length s
      → AllMarked a b (marks_of compile find_all e s)
  unfolding marks_of
  marks_of-AllMarked e s res later re before after a b has found fits =
      let start : Marks = record { redacted = unmarked s; covered = 0 } in
      let exact = exact_rules s e.exact start in
      rw has (
        regex_rules-AllMarked s res later re before after a b exact
          (exact_rules-IsMarking s e.exact start (start-IsMarking s)) found fits)

  -- `Apply` with an engine gives what `SanitizeControl` makes of the text in which each maximal
  -- run of marked bytes is one `[REDACTED]` and each unmarked byte stands as it was, and it counts
  -- those runs.
  pub apply_lem :
      (e : Engine Regexp) (s : Text)
      → apply compile find_all (some e) s ≡ (
        sanitize_control (masked false s (marks_of compile find_all e s).redacted),
        runs false (marks_of compile find_all e s).redacted,
      )
  unfolding apply text_beq
  apply_lem e [] =
      let bs = (marks_of compile find_all e []).redacted in
      let (kept, n) = masked-nil bs (marks_of-IsMarking e []).sized in
      ground (arith, kept, n, sanitize_control-nil)
  apply_lem e (c ∷ s) =
      let bs = (marks_of compile find_all e (c ∷ s)).redacted in
      let shown = render_lem (c ∷ s) bs (marks_of-IsMarking e (c ∷ s)).sized in
      ground (arith, shown)
