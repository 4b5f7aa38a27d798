-- ===== src/Config/Source.antt =====
-- `parseSource`, `AuthHeaders` and `ResolveToken` of internal/config/config.go. The functions of
-- net/url, net/textproto and the Unicode tables are arguments.
pub mod Headers
pub mod Safe
pub mod Auth
use homelab_evidence_mcp.Prelude.{
  ◌⊎◌, inl, inr, Bool, false, true, not, ◌&&◌, ◌||◌, List, [], ◌∷◌, ◌++◌, Option, none, some, Text,
  ascii, text_beq, text_less, ltb, leb, if◌then◌else◌, length, take, any,
}
use homelab_evidence_mcp.Prelude.Table
use homelab_evidence_mcp.Prelude.Table.{Table, keys}
use homelab_evidence_mcp.Prelude.Sort.{sort_stable}
use homelab_evidence_mcp.Redaction.Search.{has_prefix}
use homelab_evidence_mcp.Http.Paths.{trim_right}
use homelab_evidence_mcp.Http.Client.{Url, Library, is_web, header_value}
use homelab_evidence_mcp.Config.Types.{Source}
use homelab_evidence_mcp.Config.Names.{
  is_listed, is_env_name, is_header_name, rune_length, has_control, invalid_locked_path,
  looks_like_secret, is_sensitive_header_name, is_reserved_header_name,
}
use homelab_evidence_mcp.Config.Errors.{Errors, one, error_if, all_errors, checked}

abbrev pub kinds : List Text
kinds =
    ascii "gatus"
    ∷ ascii "docker"
    ∷ ascii "loki"
    ∷ ascii "healthchecks"
    ∷ ascii "beszel"
    ∷ ascii "ntfy"
    ∷ []

abbrev pub is_empty : Text → Bool
is_empty s = text_beq s []

-- The scheme, the host and the user of a base URL.
unfoldable pub url_errors : Text → Url → Errors
url_errors path u =
    if not (is_web u.scheme) || is_empty u.host
    then one path (ascii "must be absolute http(s) URL with host")
    else error_if u.has_user path (ascii "userinfo is not allowed. Use token_env or token_file")

module _ (lib : Library) where
  unfoldable pub base_url_errors : Text → Text → Errors
  unfolding url_errors all_errors
  base_url_errors path base =
      if is_empty base
      then one path (ascii "required")
      else if ltb 4096 (rune_length base) || has_control base
      then one path (ascii "must be a valid URL of at most 4096 characters")
      else elim (lib.parse base) [
        | none ↦ one path (ascii "must be absolute http(s) URL with host")
        | some u ↦ all_errors (
            url_errors path u
            ∷ error_if (not (is_empty u.raw_query)) path
                (ascii "query strings are not allowed. Use headers or token_env/token_file")
            ∷ error_if (not (is_empty u.fragment)) path (ascii "fragments are not allowed")
            ∷ error_if (invalid_locked_path u.path) path
                (ascii "path contains a control character, backslash, or dot segment")
            ∷ [])
      ]

  abbrev pub canonical : Text → Text
  canonical name = lib.to_lower (lib.trim_space name)

  -- The checks of one static header.
  unfoldable pub header_errors : Text → Text → Text → Errors
  unfolding all_errors
  header_errors path name value =
      if not (is_header_name name)
      then one (path ++ ascii ".headers") (ascii "invalid header name")
      else let header_path = path ++ (ascii ".headers." ++ name) in
        all_errors (
          error_if (is_sensitive_header_name lib.to_lower lib.trim_space name) header_path
            (ascii "authentication headers must use token_env/token_file with token_header")
          ∷ error_if (is_reserved_header_name lib.to_lower lib.trim_space name) header_path
              (ascii "reserved header name")
          ∷ error_if (ltb 4096 (length value) || has_control value) header_path
              (ascii "invalid header value")
          ∷ error_if (looks_like_secret lib.to_lower lib.trim_space value) header_path
              (ascii "value looks like a literal secret")
          ∷ [])

  -- The loop over the names, with the canonical names seen before.
  unfoldable pub header_loop : Text → Table Text → List Text → List Text → Errors
  unfolding header_errors
  header_loop path headers seen [] = []
  header_loop path headers seen (name ∷ rest) =
      if is_listed seen (canonical name)
      then one (path ++ ascii ".headers") (ascii "duplicate header name (case-insensitive)")
        ++ header_loop path headers seen rest
      else header_errors path name (header_value name headers)
        ++ header_loop path headers (canonical name ∷ seen) rest

  unfoldable pub headers_errors : Text → Table Text → Errors
  unfolding header_loop
  headers_errors path headers =
      let names = sort_stable text_less (keys headers) in
      if ltb 64 (length names)
      then one (path ++ ascii ".headers") (ascii "must contain at most 64 headers")
        ++ header_loop path headers [] (take 64 names)
      else header_loop path headers [] names

  unfoldable pub token_header_errors : Text → Bool → Text → Errors
  unfolding all_errors
  token_header_errors path has_token th =
      if is_empty th
      then []
      else all_errors (
          error_if (not (is_header_name th)) (path ++ ascii ".token_header")
            (ascii "invalid header name")
          ∷ error_if (is_reserved_header_name lib.to_lower lib.trim_space th)
              (path ++ ascii ".token_header") (ascii "reserved header name")
          ∷ error_if (not has_token) (path ++ ascii ".token_header")
              (ascii "requires token_env or token_file")
          ∷ [])

  -- The header that carries the token.
  abbrev pub effective_auth : Text → Text → Text
  effective_auth kind th =
      if not (is_empty th)
      then th
      else if text_beq kind (ascii "healthchecks")
      then ascii "X-Api-Key"
      else ascii "Authorization"

  -- A static header of that name, or the empty text. Which one of several the loop over a Go map
  -- meets is not determined; here it is the first one of the table.
  unfoldable pub collision : Text → List Text → Text
  collision auth [] = []
  collision auth (name ∷ rest) =
      if lib.equal_fold (lib.trim_space name) auth then name else collision auth rest

  unfoldable pub collision_errors : Text → Bool → Text → List Text → Errors
  unfolding collision
  collision_errors path has_token auth names =
      if not has_token
      then []
      else let found = collision auth names in
        error_if (not (is_empty found)) (path ++ (ascii ".headers." ++ found))
          (ascii "conflicts with the effective authentication header " ++ auth)

  unfoldable pub token_errors : Text → Text → Source → Errors
  unfolding all_errors
  token_errors path kind fs =
      let token_file = lib.trim_space fs.token_file in
      all_errors (
        error_if (not (is_empty fs.token_env) && not (is_empty fs.token_file)) path
          (ascii "set only one of token_env or token_file")
        ∷ error_if (not (is_empty fs.token_env) && not (is_env_name fs.token_env))
            (path ++ ascii ".token_env") (ascii "invalid environment variable name")
        ∷ error_if (not (is_empty fs.token_file) && is_empty token_file)
            (path ++ ascii ".token_file") (ascii "must not be blank")
        ∷ error_if (ltb 4096 (rune_length token_file) || has_control token_file)
            (path ++ ascii ".token_file") (ascii "must be a valid path of at most 4096 characters")
        ∷ error_if
            (text_beq kind (ascii "healthchecks") && (is_empty fs.token_env && is_empty token_file))
            path (ascii "healthchecks requires token_env or token_file")
        ∷ [])

  abbrev pub has_token : Source → Bool
  has_token fs = not (is_empty fs.token_env) || not (is_empty (lib.trim_space fs.token_file))

  -- The errors of each part, in the order of the checks.
  unfoldable pub source_checks : Text → Source → List Errors
  unfolding base_url_errors token_errors headers_errors token_header_errors collision_errors
  source_checks name fs =
      let path = ascii "sources." ++ name in
      let kind = canonical fs.kind in
      let th = lib.trim_space fs.token_header in
      error_if (not (is_listed kinds kind)) (path ++ ascii ".kind")
        (ascii "must be gatus, docker, loki, healthchecks, beszel, or ntfy")
      ∷ base_url_errors (path ++ ascii ".base_url") (lib.trim_space fs.base_url)
      ∷ token_errors path kind fs
      ∷ headers_errors path fs.headers
      ∷ error_if (not (is_empty fs.token_header) && is_empty th) (path ++ ascii ".token_header")
          (ascii "must not be blank")
      ∷ token_header_errors path (has_token fs) th
      ∷ collision_errors path (has_token fs) (effective_auth kind th) (keys fs.headers)
      ∷ []

  unfoldable pub parse_source : Text → Source → Errors ⊎ Source
  unfolding source_checks all_errors checked
  parse_source name fs = checked (all_errors (source_checks name fs)) (record {
    kind = canonical fs.kind;
    base_url = trim_right (lib.trim_space fs.base_url);
    token_env = fs.token_env;
    token_file = lib.trim_space fs.token_file;
    token_header = lib.trim_space fs.token_header;
    headers = fs.headers;
  })

  -- The loop of `AuthHeaders` over the static headers.
  unfoldable pub static_headers : Table Text → Table Text → Table Text
  static_headers [] out = out
  static_headers ((k, v) ∷ rest) out =
      static_headers rest (Table.put (lib.canonical_header_key (lib.trim_space k)) v out)

  abbrev pub auth_value : Text → Text → Text
  auth_value name token =
      let lower = lib.to_lower token in
      if lib.equal_fold name (ascii "Authorization")
        && (not (has_prefix lower (ascii "bearer ")) && not (has_prefix lower (ascii "basic ")))
      then ascii "Bearer " ++ token
      else token

  unfoldable pub auth_headers : Source → Text → Table Text
  unfolding static_headers
  auth_headers src token =
      let out = static_headers src.headers [] in
      if is_empty token
      then out
      else let name =
          lib.canonical_header_key (effective_auth src.kind (lib.trim_space src.token_header)) in
        Table.put name (auth_value name token) out
