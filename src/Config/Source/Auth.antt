-- ===== src/Config/Source/Auth.antt =====
-- The headers that `AuthHeaders` makes for an accepted source.
use homelab_evidence_mcp.Prelude.{
  ◌≡◌, refl, sym, ap, ◌∙◌, inl, inr, false, true, [], ◌∷◌, some, Text, text_beq, text_beq_iff,
  text_beq_refl, subst, Bool-cases, arith,
}
use mathlib.Core.List.{Mem, mem-cons_self, mem-cons_of_mem}
use homelab_evidence_mcp.Prelude.Table
use homelab_evidence_mcp.Prelude.Table.{
  Table, lookup, keys, Distinct, lookup-put, absent-Mem, Mem_of_lookup,
}
use homelab_evidence_mcp.Http.Client.{Library}
use homelab_evidence_mcp.Config.Types.{Source}
use homelab_evidence_mcp.Config.Source.{
  is_empty, canonical, effective_auth, has_token, parse_source, static_headers, auth_value,
  auth_headers,
}
use homelab_evidence_mcp.Config.Source.Safe.{parse_source-IsSafe}

module _ (lib : Library) where
  -- The key under which a header is sent.
  abbrev sent : Text → Text
  sent name = lib.canonical_header_key (lib.trim_space name)

  lookup-static_headers_other :
      (headers out : Table Text) (key : Text)
      → ((m : Text) → Mem m (keys headers) → text_beq (sent m) key ≡ false)
      → lookup key (static_headers lib headers out) ≡ lookup key out
  unfolding static_headers
  lookup-static_headers_other [] out key h = refl
  lookup-static_headers_other ((k, v) ∷ rest) out key h =
      lookup-static_headers_other rest (Table.put (sent k) v out) key
        (λ m p. h m (mem-cons_of_mem _ p))
      ∙ lookup-put key (sent k) v out
      ∙ rw (h k mem-cons_self) refl

  -- Names that are sent under one key are one name.
  abbrev IsApart : Table Text → Type 0
  IsApart headers =
      (m n : Text) → Mem m (keys headers) → Mem n (keys headers) → sent m ≡ sent n → m ≡ n

  lookup-static_headers :
      (headers out : Table Text) (n v : Text)
      → Distinct headers
      → IsApart headers
      → lookup n headers ≡ some v
      → lookup (sent n) (static_headers lib headers out) ≡ some v
  unfolding static_headers lookup
  lookup-static_headers [] out n v d apart h = ground arith
  lookup-static_headers ((k, w) ∷ rest) out n v d apart h = elim (Bool-cases (text_beq k n)) [
    | inl e ↦
        let same : k ≡ n = (text_beq_iff k n).0 e in
        let other : (m : Text) → Mem m (keys rest) → text_beq (sent m) (sent n) ≡ false = λ m p.
          elim (Bool-cases (text_beq (sent m) (sent n))) [
            | inl q ↦ absurd (
                absent-Mem k rest d.0 (
                  subst (λ x. Mem x (keys rest))
                    (apart m k (mem-cons_of_mem _ p) mem-cons_self
                      ((text_beq_iff (sent m) (sent n)).0 q ∙ ap sent (sym same)))
                    p))
            | inr q ↦ q
          ] in
        lookup-static_headers_other rest (Table.put (sent k) w out) (sent n) other
        ∙ lookup-put (sent n) (sent k) w out
        ∙ rw (ap sent same, text_beq_refl (sent n)) (ground arith)
    | inr e ↦
        lookup-static_headers rest (Table.put (sent k) w out) n v d.1
          (λ a b p q. apart a b (mem-cons_of_mem _ p) (mem-cons_of_mem _ q)) (ground arith)
  ]

  -- What the header functions are documented to do: `CanonicalMIMEHeaderKey` changes the case of
  -- letters alone, so names with one key are equal in lower case and equal under case folding, and
  -- trimming twice is trimming once.
  pub record ChangesCase : Type 0 where
    pub lower : (m n : Text) → sent m ≡ sent n → canonical lib m ≡ canonical lib n
    pub fold :
        (m auth : Text)
        → sent m ≡ lib.canonical_header_key auth
        → lib.equal_fold (lib.trim_space m) auth ≡ true
    pub trim : (m : Text) → lib.trim_space (lib.trim_space m) ≡ lib.trim_space m

  -- For a source that `parseSource` accepted, whose headers are a map and whose token has a place,
  -- `AuthHeaders` with a token sends the token under its name and every static header with its
  -- value, where the header functions change the case of letters alone: no header masks another.
  pub auth_headers-parse_source :
      ChangesCase
      → (name : Text) (fs s : Source) (token : Text) → parse_source lib name fs ≡ inr s
      → Distinct s.headers
      → has_token lib fs ≡ true
      → is_empty token ≡ false
      → (lookup
            (lib.canonical_header_key (effective_auth lib s.kind s.token_header))
            (auth_headers lib s token)
          ≡ some (
              auth_value lib
                (lib.canonical_header_key (effective_auth lib s.kind s.token_header))
                token))
        × ((n v : Text)
            → lookup n s.headers ≡ some v
            → lookup (sent n) (auth_headers lib s token) ≡ some v)
  unfolding auth_headers
  auth_headers-parse_source case name fs s token h d t k =
      let safe = parse_source-IsSafe lib name fs s h in
      let trimmed : lib.trim_space s.token_header ≡ s.token_header =
        ap lib.trim_space safe.token_name ∙ case.trim fs.token_header ∙ sym safe.token_name in
      let auth = effective_auth lib s.kind s.token_header in
      let key = lib.canonical_header_key auth in
      let out = static_headers lib s.headers [] in
      rw (k, trimmed)
        (
          lookup-put key key (auth_value lib key token) out ∙ rw (text_beq_refl key) refl,
          λ n v q.
              let m = Mem_of_lookup n s.headers v q in
              let other : text_beq key (sent n) ≡ false =
                elim (Bool-cases (text_beq key (sent n))) [
                  | inl e ↦ ground (
                    arith,
                    case.fold n auth (sym ((text_beq_iff key (sent n)).0 e)),
                    safe.apart t n m,
                  )
                  | inr e ↦ e
                ] in
              lookup-put (sent n) key (auth_value lib key token) out
              ∙ rw other (
                  lookup-static_headers s.headers [] n v d
                    (λ a b p r e. safe.headers.unlike a b p r (case.lower a b e)) q),
        )
