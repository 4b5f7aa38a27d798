-- ===== src/Config/Source/Headers.antt =====
-- The static headers that `parseSource` accepts.
use homelab_evidence_mcp.Prelude.{
  ◌≡◌, ◌≢◌, inl, inr, false, true, List, [], ◌∷◌, Text, text_beq_iff, text_less, ltb, length, All,
  Bool-cases, ℕ, ◌≤◌, arith,
}
use mathlib.Core.List.{Mem}
use mathlib.Core.List.Perm
use homelab_evidence_mcp.Prelude.Unique.{DistinctBy, All-mem, eq_of_key}
use homelab_evidence_mcp.Prelude.Table.{Table, keys, length-keys}
use homelab_evidence_mcp.Prelude.Sort.{sort_stable, sort_stable-perm, length-sort_stable}
use homelab_evidence_mcp.Http.Client.{Library, header_value}
use homelab_evidence_mcp.Config.Names.{
  is_listed, is_header_name, has_control, looks_like_secret, is_sensitive_header_name,
  is_reserved_header_name,
}
use homelab_evidence_mcp.Config.Errors.{all_errors, append-none}
use homelab_evidence_mcp.Config.Source.{canonical, header_errors, header_loop, headers_errors}

le_of_ltb : (a b : ℕ) → ltb a b ≡ false → b ≤ a
le_of_ltb a b h = ground arith

module _ (lib : Library) where
  -- A static header with nothing secret in its name or its value.
  pub record IsPlain (name value : Text) : Type 0 where
    pub valid : is_header_name name ≡ true
    pub not_sensitive : is_sensitive_header_name lib.to_lower lib.trim_space name ≡ false
    pub not_reserved : is_reserved_header_name lib.to_lower lib.trim_space name ≡ false
    pub short : ltb 4096 (length value) ≡ false
    pub no_control : has_control value ≡ false
    pub not_secret : looks_like_secret lib.to_lower lib.trim_space value ≡ false

  header_errors-none :
      (path name value : Text) → header_errors lib path name value ≡ [] → IsPlain name value
  unfolding header_errors all_errors
  header_errors-none path name value h = record {
    valid = ground arith;
    not_sensitive = ground arith;
    not_reserved = ground arith;
    short = ground arith;
    no_control = ground arith;
    not_secret = ground arith;
  }

  -- What a run of the loop without an error says of the names, after those seen before.
  abbrev AllPlain : Table Text → List Text → List Text → Type 0
  AllPlain headers seen names =
      All (λ n. IsPlain n (header_value n headers)) names
      × (All (λ n. is_listed seen (canonical lib n) ≡ false) names
          × DistinctBy (canonical lib) names)

  unlisted-tail :
      (c : Text) (seen names : List Text)
      → All (λ n. is_listed (c ∷ seen) (canonical lib n) ≡ false) names
      → All (λ n. is_listed seen (canonical lib n) ≡ false) names
        × All (λ n. c ≢ canonical lib n) names
  unlisted-tail c seen [] h = (tt, tt)
  unlisted-tail c seen (n ∷ names) h =
      let rest : _ × _ = unlisted-tail c seen names h.1 in
      let k : _ ≡ false = h.0 in
      ((ground arith, rest.0), ((λ e. ground (arith, text_beq_iff c (canonical lib n))), rest.1))

  header_loop-none :
      (path : Text) (headers : Table Text) (seen names : List Text)
      → header_loop lib path headers seen names ≡ []
      → AllPlain headers seen names
  unfolding header_loop
  header_loop-none path headers seen [] h = (tt, (tt, tt))
  header_loop-none path headers seen (n ∷ names) h =
      elim (Bool-cases (is_listed seen (canonical lib n))) [
        | inl e ↦ ground arith
        | inr e ↦
            let parts : (header_errors lib path n (header_value n headers) ≡ [])
                × (header_loop lib path headers (canonical lib n ∷ seen) names ≡ []) =
              append-none _ _ (rw e at h) in
            let rest : AllPlain headers (canonical lib n ∷ seen) names =
              header_loop-none path headers (canonical lib n ∷ seen) names parts.1 in
            let tail : _ × _ = unlisted-tail (canonical lib n) seen names rest.1.0 in
            (
              (header_errors-none path n (header_value n headers) parts.0, rest.0),
              ((e, tail.0), (tail.1, rest.1.1)),
            )
      ]

  IsPlain-prop : (name value : Text) → IsProp (IsPlain name value)
  IsPlain-prop name value = hlevel

  -- Static headers that may be sent with a token.
  pub record HeadersArePlain (headers : Table Text) : Type 0 where
    pub few : length headers ≤ 64
    pub plain : (n : Text) → Mem n (keys headers) → IsPlain n (header_value n headers)
    pub unlike :
        (m n : Text)
        → Mem m (keys headers)
        → Mem n (keys headers)
        → canonical lib m ≡ canonical lib n
        → m ≡ n

  Text-set : IsSet Text
  Text-set = hlevel

  pub headers_errors-none :
      (path : Text) (headers : Table Text)
      → headers_errors lib path headers ≡ []
      → HeadersArePlain headers
  unfolding headers_errors
  headers_errors-none path headers h =
      let names = sort_stable text_less (keys headers) in
      let same : (n : Text) → Mem n (keys headers) → Mem n names =
        λ n. (Perm.mem_iff (sort_stable-perm text_less (keys headers))).1 in
      elim (Bool-cases (ltb 64 (length names))) [
        | inl e ↦ ground arith
        | inr e ↦
            let loop : AllPlain headers [] names =
              header_loop-none path headers [] names (rw e at h) in
            record {
              few = omega (
                arith,
                le_of_ltb 64 (length names) e,
                length-sort_stable text_less (keys headers),
                length-keys headers,
              );
              plain = λ n m.
                  All-mem _ (λ a. IsPlain-prop a (header_value a headers)) names n loop.0
                    (same n m);
              unlike = λ m n p q.
                  eq_of_key (canonical lib) Text-set names m n loop.1.1 (same m p) (same n q);
            }
      ]
