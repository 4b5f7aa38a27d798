-- ===== src/Registry/Pages.antt =====
-- The pages of `List` of internal/registry/registry.go.
use homelab_evidence_mcp.Prelude.{
  ℕ, zero, suc, ◌+◌, ◌-◌, ◌*◌, ◌≤◌, ◌<◌, ◌≡◌, refl, ◌∙◌, ap, sym, List, [], ◌∷◌, ◌++◌, Text, ltb,
  leb, if◌then◌else◌, length, take, drop, map, arith, length-drop, Bool-cases, inl, inr,
}
use homelab_evidence_mcp.Prelude.Int.{ℤ, pos}
use homelab_evidence_mcp.Registry.{Registry, ServiceView, view, matched, list, page_limit}

take-all : (n : ℕ) (l : List Text) → length l ≤ n → take n l ≡ l
take-all zero [] h = refl
take-all zero (x ∷ l) h = absurd (omega arith)
take-all (suc n) [] h = refl
take-all (suc n) (x ∷ l) h = ap (◌∷◌ x) (take-all n l (omega arith))

drop-all : (n : ℕ) (l : List Text) → length l ≤ n → drop n l ≡ []
drop-all zero [] h = refl
drop-all zero (x ∷ l) h = absurd (omega arith)
drop-all (suc n) [] h = refl
drop-all (suc n) (x ∷ l) h = drop-all n l (omega arith)

take-nil : (n : ℕ) → take {A = Text} n [] ≡ []
take-nil zero = refl
take-nil (suc n) = refl

take-plus : (a b : ℕ) (l : List Text) → take (a + b) l ≡ take a l ++ take b (drop a l)
take-plus zero b l = ap (λ n. take n l) (omega arith)
take-plus (suc a) b [] = take-nil (suc a + b) ∙ sym (take-nil b)
take-plus (suc a) b (x ∷ l) =
    let step : suc a + b ≡ suc (a + b) = omega arith in
    ap (λ n. take n (x ∷ l)) step ∙ ap (◌∷◌ x) (take-plus a b l)

map-append : (f : Text → ServiceView) (l m : List Text) → map f (l ++ m) ≡ map f l ++ map f m
map-append f [] m = refl
map-append f (x ∷ l) m = ap (◌∷◌ (f x)) (map-append f l m)

-- The end of a page in the middle, or at the end.
page-take :
    (start limit : ℕ) (l : List Text)
    → start < length l
    → take
        ((if ltb (length l) (start + limit) then length l else start + limit) - start)
        (drop start l)
      ≡ take limit (drop start l)
page-take start limit l h = elim (Bool-cases (ltb (length l) (start + limit))) [
  | inl short ↦
      let rest = length-drop start l in
      rw short (
        take-all (length l - start) (drop start l) (omega arith)
        ∙ sym (take-all limit (drop start l) (ground arith)))
  | inr full ↦
      let size : start + limit - start ≡ limit = omega arith in
      rw full (ap (λ n. take n (drop start l)) size)
]

module _ (to_lower : Text → Text) (trim_space : Text → Text) where
  list-page :
      (r : Registry) (prefix : Text) (start : ℕ) (limit : ℤ)
      → list to_lower trim_space r prefix (pos start) limit ≡ (
        map (view r) (take (page_limit limit) (drop start (matched to_lower trim_space r prefix))),
        length (matched to_lower trim_space r prefix),
      )
  unfolding list
  list-page r prefix start limit =
      let ids = matched to_lower trim_space r prefix in
      elim (Bool-cases (leb (length ids) start)) [
        | inl past ↦ ground (arith, drop-all start ids, take-nil (page_limit limit))
        | inr more ↦ ground (arith, page-take start (page_limit limit) ids)
      ]

  -- The services of the first pages, read one after the other.
  abbrev pub walk : Registry → Text → ℤ → ℕ → List ServiceView
  walk r prefix limit zero = []
  walk r prefix limit (suc n) =
      walk r prefix limit n
      ++ (list to_lower trim_space r prefix (pos (n * page_limit limit)) limit).0

  -- Reading page after page with `List` leaves out no matching service and repeats none:
  -- after `n` pages the services read are the first `n` times the limit of the matching ones,
  -- in the order of the registry, where a limit that is not positive is 50 and one above 200
  -- is 200.
  pub walk_lem :
      (r : Registry) (prefix : Text) (limit : ℤ) (n : ℕ)
      → walk r prefix limit n
        ≡ map (view r) (take (n * page_limit limit) (matched to_lower trim_space r prefix))
  walk_lem r prefix limit zero =
      let none_yet : 0 * page_limit limit ≡ 0 = ground arith in
      ap (λ k. map (view r) (take k (matched to_lower trim_space r prefix))) (sym none_yet)
  walk_lem r prefix limit (suc n) =
      let ids = matched to_lower trim_space r prefix in
      let size = page_limit limit in
      let next : suc n * size ≡ n * size + size = ground arith in
      let page = ap (λ (x : List ServiceView × ℕ). x.0) (list-page r prefix (n * size) limit) in
      ap (λ l. l ++ (list to_lower trim_space r prefix (pos (n * size)) limit).0)
        (walk_lem r prefix limit n)
      ∙ ap (λ l. map (view r) (take (n * size) ids) ++ l) page
      ∙ sym (map-append (view r) (take (n * size) ids) (take size (drop (n * size) ids)))
      ∙ ap (map (view r)) (sym (take-plus (n * size) size ids))
      ∙ ap (λ k. map (view r) (take k ids)) (sym next)
