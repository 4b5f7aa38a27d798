-- ===== src/Redaction/Engine/Render.antt =====
-- The output loop of `Apply` against a reading of the marks byte by byte.
use homelab_evidence_mcp.Prelude.{
  ℕ, zero, suc, ◌+◌, ◌-◌, ◌≤◌, ◌<◌, ◌≡◌, refl, ap, ◌∙◌, sym, Bool, true, false, List, [], ◌∷◌, ◌++◌,
  Option, none, some, Text, arith, nat_eq, length, take, drop, take-append-drop,
}
use mathlib.Core.List.{append_assoc}
use homelab_evidence_mcp.Redaction.Search.{drop-forward}
use homelab_evidence_mcp.Redaction.Engine.{replacement, slice, write_from, render}

-- The text with each maximal run of marked bytes replaced; the first argument says whether the
-- byte before is marked.
unfoldable pub masked : Bool → Text → List Bool → Text
masked in_run s [] = s
masked in_run [] (b ∷ bs) = []
masked in_run (c ∷ s) (false ∷ bs) = c ∷ masked false s bs
masked true (c ∷ s) (true ∷ bs) = masked true s bs
masked false (c ∷ s) (true ∷ bs) = replacement ++ masked true s bs

-- The number of maximal runs of marked bytes.
unfoldable pub runs : Bool → List Bool → ℕ
runs in_run [] = 0
runs in_run (false ∷ bs) = runs false bs
runs true (true ∷ bs) = runs true bs
runs false (true ∷ bs) = suc (runs true bs)

pub drop-cons : (i : ℕ) (s : Text) → i < length s → (c : ℕ) × (drop i s ≡ c ∷ drop (suc i) s)
drop-cons i [] h = absurd (omega arith)
drop-cons zero (c ∷ s) h = (c, refl)
drop-cons (suc i) (c ∷ s) h = drop-cons i s (omega arith)

slice-drop : (last i : ℕ) (s : Text) → last ≤ i → slice s last i ++ drop i s ≡ drop last s
slice-drop last i s h =
    ap (λ r. slice s last i ++ r) (sym (drop-forward last i s h))
    ∙ take-append-drop (i - last) (drop last s)

-- The last item of a prefix, taken off.
take-suc :
    (d : ℕ) (t after rest : Text) (c : ℕ)
    → drop d t ≡ c ∷ after
    → take (suc d) t ++ rest ≡ take d t ++ c ∷ rest
take-suc zero [] after rest c e = absurd (ground arith)
take-suc zero (x ∷ t) after rest c e = ground arith
take-suc (suc d) [] after rest c e = absurd (ground arith)
take-suc (suc d) (x ∷ t) after rest c e = ap (◌∷◌ x) (take-suc d t after rest c e)

slice-suc :
    (last i : ℕ) (s rest : Text) (c : ℕ)
    → last ≤ i
    → drop i s ≡ c ∷ drop (suc i) s
    → slice s last (suc i) ++ rest ≡ slice s last i ++ c ∷ rest
slice-suc last i s rest c h e =
    let d : suc i - last ≡ suc (i - last) = omega arith in
    ap (λ n. take n (drop last s) ++ rest) d
    ∙ take-suc (i - last) (drop last s) (drop (suc i) s) rest c (drop-forward last i s h ∙ e)

abbrev written : Text → Text × ℕ × ℕ → Text × ℕ
written s (out, last, regions) = (out ++ drop last s, regions)

-- The two states of the loop, outside a run and in one.
expected : Text → List Bool → ℕ → Option ℕ → ℕ → Text → ℕ → Text × ℕ
unfolding masked runs
expected s bs i none last out regions =
    (out ++ (slice s last i ++ masked false (drop i s) bs), regions + runs false bs)
expected s bs i (some start) last out regions = (
  out ++ (slice s last start ++ (replacement ++ masked true (drop i s) bs)),
  suc regions + runs true bs,
)

abbrev begun : ℕ → Option ℕ → ℕ
begun i none = i
begun i (some start) = start

written-write_from :
    (s : Text) (bs : List Bool) (i : ℕ) (start : Option ℕ) (last : ℕ) (out : Text) (regions : ℕ)
    → i + length bs ≡ length s
    → last ≤ begun i start
    → written s (write_from s bs i start last out regions) ≡ expected s bs i start last out regions
unfolding write_from masked runs expected
written-write_from s [] i none last out regions sized h = ground (arith, slice-drop last i s h)
written-write_from s [] i (some start) last out regions sized h = ground (
  arith,
  append_assoc out (slice s last start ++ replacement) (drop i s),
  append_assoc (slice s last start) replacement (drop i s),
)
written-write_from s (true ∷ bs) i none last out regions sized h =
    let (c, e) = drop-cons i s (omega arith) in
    let ih =
      written-write_from s bs (suc i) (some i) last out regions (omega arith) (omega arith) in
    ih ∙ ground (arith, e)
written-write_from s (true ∷ bs) i (some start) last out regions sized h =
    let (c, e) = drop-cons i s (omega arith) in
    let ih = written-write_from s bs (suc i) (some start) last out regions (omega arith) h in
    ih ∙ ground (arith, e)
written-write_from s (false ∷ bs) i none last out regions sized h =
    let (c, e) = drop-cons i s (omega arith) in
    let rest = masked false (drop (suc i) s) bs in
    let ih = written-write_from s bs (suc i) none last out regions (omega arith) (omega arith) in
    ih ∙ ground (arith, e, slice-suc last i s rest c h e)
written-write_from s (false ∷ bs) i (some start) last out regions sized h =
    let (c, e) = drop-cons i s (omega arith) in
    let rest = masked false (drop (suc i) s) bs in
    let now = slice s last start ++ replacement in
    let ih =
      written-write_from s bs (suc i) none i (out ++ now) (suc regions) (omega arith)
        (omega arith) in
    let one = slice-suc i i s rest c (omega arith) e in
    let same : i - i ≡ 0 = omega arith in
    ih
    ∙ ground (
      arith,
      e,
      one,
      same,
      append_assoc out now (c ∷ rest),
      append_assoc (slice s last start) replacement (c ∷ rest),
    )

masked-unmarked :
    (s : Text) (bs : List Bool) → length bs ≡ length s → runs false bs ≡ 0 → masked false s bs ≡ s
unfolding masked runs
masked-unmarked s [] sized h = refl
masked-unmarked [] (b ∷ bs) sized h = refl
masked-unmarked (c ∷ s) (false ∷ bs) sized h = ap (◌∷◌ c) (masked-unmarked s bs (omega arith) h)
masked-unmarked (c ∷ s) (true ∷ bs) sized h = absurd (omega arith)

pub render_lem :
    (s : Text) (bs : List Bool)
    → length bs ≡ length s
    → render s bs ≡ (masked false s bs, runs false bs)
unfolding render expected
render_lem s bs sized =
    let e = written-write_from s bs 0 none 0 [] 0 (omega arith) (omega arith) in
    ground (arith, e, masked-unmarked s bs sized)
