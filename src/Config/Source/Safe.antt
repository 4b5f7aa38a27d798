-- ===== src/Config/Source/Safe.antt =====
-- The sources that `parseSource` accepts, and the headers that `AuthHeaders` makes for them.
use homelab_evidence_mcp.Prelude.{
  ◌≡◌, refl, ◌⊎◌, inl, inr, Bool, false, true, List, [], ◌∷◌, ◌++◌, some, Text, ascii, text_beq_iff,
  text_beq_refl, subst, All, Bool-cases, Option-cases, arith,
}
use mathlib.Core.Bool.{Bool-set}
use mathlib.Core.List.{Mem, mem-cons_self, mem-cons_of_mem}
use homelab_evidence_mcp.Prelude.Unique.{All-mem}
use homelab_evidence_mcp.Prelude.Table.{Table, keys}
use homelab_evidence_mcp.Http.Paths.{trim_right}
use homelab_evidence_mcp.Http.Client.{Url, Library, is_web}
use homelab_evidence_mcp.Config.Types.{Source}
use homelab_evidence_mcp.Config.Names.{
  is_listed, is_header_name, invalid_locked_path, is_reserved_header_name,
}
use homelab_evidence_mcp.Config.Errors.{error_if-none, all_errors, all_errors-none, checked-inr}
use homelab_evidence_mcp.Config.Source.{
  is_empty, kinds, canonical, url_errors, base_url_errors, token_errors, token_header_errors,
  collision, collision_errors, effective_auth, has_token, source_checks, parse_source,
}
use homelab_evidence_mcp.Config.Source.Headers.{HeadersArePlain, headers_errors-none}

-- A base URL without a place for secrets or for a way out of its path.
pub record IsBase (u : Url) : Type 0 where
  pub web : is_web u.scheme ≡ true
  pub host : is_empty u.host ≡ false
  pub no_user : u.has_user ≡ false
  pub no_query : is_empty u.raw_query ≡ true
  pub no_fragment : is_empty u.fragment ≡ true
  pub path : invalid_locked_path u.path ≡ false

url_errors-none :
    (path : Text) (u : Url)
    → url_errors path u ≡ []
    → is_web u.scheme ≡ true × is_empty u.host ≡ false × u.has_user ≡ false
unfolding url_errors
url_errors-none path u h = (ground arith, ground arith, ground arith)

rest-none :
    (path : Text) (u : Url)
    → url_errors path u ≡ []
      × is_empty u.raw_query ≡ true
      × is_empty u.fragment ≡ true
      × invalid_locked_path u.path ≡ false
    → IsBase u
rest-none path u (a, b, c, d) =
    let checked_url = url_errors-none path u a in
    record {
      web = checked_url.0;
      host = checked_url.1;
      no_user = checked_url.2;
      no_query = b;
      no_fragment = c;
      path = d;
    }

module _ (lib : Library) where
  base_url_errors-none :
      (path base : Text)
      → base_url_errors lib path base ≡ []
      → (u : Url) × ((lib.parse base ≡ some u) × IsBase u)
  unfolding base_url_errors all_errors
  base_url_errors-none path base h = elim (Option-cases (lib.parse base)) [
    | inl e ↦ ground arith
    | inr (u, e) ↦ (u, (e, rest-none path u (ground arith)))
  ]

  -- A token comes from one place at most, and a token header only with a token.
  pub record HasTokenRules (kind : Text) (fs : Source) : Type 0 where
    pub one_token : (fs.token_env ≡ []) ⊎ (fs.token_file ≡ [])
    pub healthchecks : kind ≡ ascii "healthchecks" → has_token lib fs ≡ true

  token_errors-none :
      (path kind : Text) (fs : Source) → token_errors lib path kind fs ≡ [] → HasTokenRules kind fs
  unfolding token_errors all_errors
  token_errors-none path kind fs h = record {
    one_token = elim (Bool-cases (is_empty fs.token_env)) [
      | inl e ↦ inl ((text_beq_iff fs.token_env []).0 e)
      | inr e ↦ inr (ground (arith, text_beq_iff fs.token_file []))
    ];
    healthchecks = λ k. ground (arith, text_beq_iff kind (ascii "healthchecks"));
  }

  collision-none :
      (auth : Text) (names : List Text)
      → collision lib auth names ≡ []
      → All (λ n. is_empty n ≡ false) names
      → All (λ n. lib.equal_fold (lib.trim_space n) auth ≡ false) names
  unfolding collision
  collision-none auth [] h k = tt
  collision-none auth (n ∷ names) h k = elim (Bool-cases (lib.equal_fold (lib.trim_space n) auth)) [
    | inl e ↦ ground (arith, text_beq_refl [])
    | inr e ↦ (e, collision-none auth names (rw e at h) k.1)
  ]

  -- The name of a token header, when one is given.
  pub record IsTokenHeader (with_token : Bool) (name : Text) : Type 0 where
    pub valid : is_header_name name ≡ true
    pub not_reserved : is_reserved_header_name lib.to_lower lib.trim_space name ≡ false
    pub needs_token : with_token ≡ true

  token_header_errors-none :
      (path : Text) (with_token : Bool) (name : Text)
      → token_header_errors lib path with_token name ≡ []
      → is_empty name ≡ false
      → IsTokenHeader with_token name
  unfolding token_header_errors all_errors
  token_header_errors-none path with_token name h k = record {
    valid = ground arith;
    not_reserved = ground arith;
    needs_token = ground arith;
  }

  -- A source that may be used: where it goes, its token and its headers.
  pub record IsSafe (fs s : Source) : Type 0 where
    pub kind : is_listed kinds s.kind ≡ true
    pub base : (u : Url) × ((lib.parse (lib.trim_space fs.base_url) ≡ some u) × IsBase u)
    pub trimmed : s.base_url ≡ trim_right (lib.trim_space fs.base_url)
    pub token : HasTokenRules s.kind fs
    pub token_header :
        is_empty s.token_header ≡ false → IsTokenHeader (has_token lib fs) s.token_header
    pub token_name : s.token_header ≡ lib.trim_space fs.token_header
    pub headers : HeadersArePlain lib s.headers
    pub apart :
        has_token lib fs ≡ true
        → (n : Text) → Mem n (keys s.headers)
        → lib.equal_fold (lib.trim_space n) (effective_auth lib s.kind s.token_header) ≡ false

  All-of-mem :
      (P : Text → Type 0) (names : List Text) → ((n : Text) → Mem n names → P n) → All P names
  All-of-mem P [] h = tt
  All-of-mem P (n ∷ names) h =
      (h n mem-cons_self, All-of-mem P names (λ m k. h m (mem-cons_of_mem _ k)))

  not_empty : (n : Text) → is_header_name n ≡ true → is_empty n ≡ false
  unfolding is_header_name
  not_empty n h = ground arith

  apart-lem :
      (path auth : Text) (headers : Table Text)
      → collision_errors lib path true auth (keys headers) ≡ []
      → HeadersArePlain lib headers
      → (n : Text) → Mem n (keys headers)
      → lib.equal_fold (lib.trim_space n) auth ≡ false
  unfolding collision_errors
  apart-lem path auth headers h plain n m =
      let none_found : collision lib auth (keys headers) ≡ [] =
        ground (arith, text_beq_iff (collision lib auth (keys headers)) []) in
      All-mem _ (λ _. Bool-set _ _) (keys headers) n
        (collision-none auth (keys headers) none_found
          (All-of-mem _ (keys headers) (λ k p. not_empty k (plain.plain k p).valid)))
        m

  -- A source that `parseSource` accepts is safe: its kind is known, its URL is an absolute http or
  -- https one without userinfo, query, fragment or dot segments, its token has one place, and its
  -- static headers are plain and none stands where the token goes.
  pub parse_source-IsSafe :
      (name : Text) (fs s : Source) → parse_source lib name fs ≡ inr s → IsSafe fs s
  unfolding parse_source source_checks
  parse_source-IsSafe name fs s h =
      let result = checked-inr _ _ s h in
      let none_of = all_errors-none (source_checks lib name fs) result.0 in
      let plain = headers_errors-none lib (ascii "sources." ++ name) fs.headers none_of.1.1.1.0 in
      subst (IsSafe fs) result.1 (record {
        kind = ground (arith, error_if-none _ _ _ none_of.0);
        base = base_url_errors-none _ _ none_of.1.0;
        trimmed = refl;
        token =
            token_errors-none (ascii "sources." ++ name) (canonical lib fs.kind) fs none_of.1.1.0;
        token_header = λ k.
            token_header_errors-none (ascii "sources." ++ name) (has_token lib fs)
              (lib.trim_space fs.token_header) none_of.1.1.1.1.1.0 k;
        token_name = refl;
        headers = plain;
        apart = λ k n m.
            apart-lem (ascii "sources." ++ name)
              (effective_auth lib (canonical lib fs.kind) (lib.trim_space fs.token_header))
              fs.headers (rw k at none_of.1.1.1.1.1.1.0) plain n m;
      })
