-- ===== src/Http/Paths.antt =====
-- The paths of internal/httpx/client.go: `joinURLPath` and `invalidPath`, with `strings.Split` and
-- `strings.TrimRight` for the separator `/`.
use homelab_evidence_mcp.Prelude.{
  ℕ, ◌≡◌, refl, ◌∙◌, sym, ap, Bool, false, ◌||◌, ◌&&◌, List, [], ◌∷◌, ◌++◌, Text, ascii, text_beq,
  text_beq_iff, nat_eq, ◌==◌, if◌then◌else◌, any, arith, Bool-cases, inl, inr, ◌⊎◌,
}
use homelab_evidence_mcp.Redaction.Utf8.{chunks, value}
use homelab_evidence_mcp.Redaction.Search.{has_prefix, contains}
use homelab_evidence_mcp.Redaction.Clean.{is_control}

abbrev pub slash : ℕ
slash = 47

-- A byte in front of the first segment.
abbrev pub onto_first : ℕ → List Text → List Text
onto_first c [] = (c ∷ []) ∷ []
onto_first c (part ∷ rest) = (c ∷ part) ∷ rest

-- strings.Split(path, "/")
unfoldable pub split : Text → List Text
split [] = [] ∷ []
split (c ∷ s) = if c == slash then [] ∷ split s else onto_first c (split s)

-- strings.TrimRight(path, "/")
unfoldable pub trim_right : Text → Text
trim_right [] = []
trim_right (c ∷ s) =
    let rest = trim_right s in if c == slash && text_beq rest [] then [] else c ∷ rest

unfoldable pub join_url_path : Text → Text → Text
unfolding trim_right
join_url_path base_path rel =
    let base = trim_right base_path in
    let path = if has_prefix rel (ascii "/") then rel else slash ∷ rel in
    if text_beq base [] then path else base ++ path

abbrev pub is_dot : Text → Bool
is_dot segment = text_beq segment (ascii ".") || text_beq segment (ascii "..")

-- A segment is `.` or `..`.
abbrev pub has_dot_segment : Text → Bool
has_dot_segment path = any is_dot (split path)

unfoldable pub invalid_path : Text → Bool
unfolding split
invalid_path path =
    contains path (ascii "\\")
    || (any (λ c. is_control (value c.0)) (chunks path) || has_dot_segment path)

any-append : (l m : List Text) → any is_dot (l ++ m) ≡ (any is_dot l || any is_dot m)
any-append [] m = refl
any-append (x ∷ l) m = ground (arith, any-append l m)

split-cons : (s : Text) → (x : Text) × (l : List Text) × (split s ≡ x ∷ l)
unfolding split
split-cons [] = ([], [], refl)
split-cons (c ∷ s) = elim (Bool-cases (c == slash)) [
  | inl e ↦ ([], split s, rw e refl)
  | inr e ↦ (c ∷ (split-cons s).0, (split-cons s).1, rw e (rw (split-cons s).2 refl))
]

-- A separator between two texts splits them apart.
pub split-append : (a b : Text) → split (a ++ slash ∷ b) ≡ split a ++ split b
unfolding split
split-append [] b = refl
split-append (c ∷ a) b = elim (Bool-cases (c == slash)) [
  | inl e ↦ rw e (ap (◌∷◌ []) (split-append a b))
  | inr e ↦ let (x, l, h) = split-cons a in rw e (rw (split-append a b) (rw h refl))
]

dot-append :
    (a b : Text) → has_dot_segment (a ++ slash ∷ b) ≡ (has_dot_segment a || has_dot_segment b)
dot-append a b = ap (any is_dot) (split-append a b) ∙ any-append (split a) (split b)

trim_right-cases : (s : Text) → (trim_right s ≡ s) ⊎ ((b : Text) × (s ≡ trim_right s ++ slash ∷ b))
unfolding trim_right
trim_right-cases [] = inl refl
trim_right-cases (c ∷ s) = elim (Bool-cases (c == slash && text_beq (trim_right s) [])) [
  | inl e ↦ let same : c ≡ slash = ground arith in rw e (inr (s, ap (λ x. x ∷ s) same))
  | inr e ↦ elim (trim_right-cases s) [
    | inl h ↦ rw e (inl (ap (◌∷◌ c) h))
    | inr (b, h) ↦ rw e (inr (b, ap (◌∷◌ c) h))
  ]
]

pub dot-trim_right : (s : Text) → has_dot_segment s ≡ false → has_dot_segment (trim_right s) ≡ false
dot-trim_right s h = elim (trim_right-cases s) [
  | inl e ↦ rw e h
  | inr (b, e) ↦ ground (arith, dot-append (trim_right s) b, ap has_dot_segment e)
]

dot-slash : (s : Text) → has_dot_segment (slash ∷ s) ≡ has_dot_segment s
unfolding split text_beq
dot-slash s = refl

-- A path with its leading separator.
abbrev rooted : Text → Text
rooted rel = if has_prefix rel (ascii "/") then rel else slash ∷ rel

rooted-cons :
    (rel : Text) → (r : Text) × (rooted rel ≡ slash ∷ r) × (has_dot_segment r ≡ has_dot_segment rel)
unfolding has_prefix split
rooted-cons [] = ([], refl, refl)
rooted-cons (c ∷ r) = elim (Bool-cases (c == slash)) [
  | inl e ↦ let same : c ≡ slash = ground arith in (r, ground arith, rw same (sym (dot-slash r)))
  | inr e ↦ (c ∷ r, ground arith, refl)
]

-- The joined path starts with the locked prefix, goes on with a separator or ends there, and no
-- segment of it leads upwards when none does in its two parts.
pub join_url_path-IsBelow :
    (base rel : Text)
    → has_dot_segment base ≡ false
    → has_dot_segment rel ≡ false
    → (r : Text) × (join_url_path base rel ≡ trim_right base ++ slash ∷ r)
      × (has_dot_segment (join_url_path base rel) ≡ false)
unfolding join_url_path
join_url_path-IsBelow base rel hb hr =
    let (r, e, same) = rooted-cons rel in
    let dots = dot-append (trim_right base) r in
    let clean = dot-trim_right base hb in
    (
      r,
      ground (arith, e, text_beq_iff (trim_right base) []),
      ground (arith, e, dots, clean, same, dot-slash r, ap has_dot_segment e),
    )
