-- ===== src/Config/Names.antt =====
-- The tests on single texts of internal/config/config.go: names, paths and header values. The
-- patterns of single characters are written as tests on bytes.
use homelab_evidence_mcp.Prelude.{
  ℕ, Bool, false, not, ◌||◌, ◌&&◌, List, [], ◌∷◌, Text, ascii, text_beq, nat_eq, ◌==◌, leb, any,
  length,
}
use homelab_evidence_mcp.Redaction.Utf8.{chunks, value}
use homelab_evidence_mcp.Redaction.Search.{has_prefix, contains}
use homelab_evidence_mcp.Redaction.Clean.{is_control}
use homelab_evidence_mcp.Http.Paths.{has_dot_segment}

abbrev pub every : (ℕ → Bool) → Text → Bool
every p s = not (any (λ c. not (p c)) s)

abbrev pub is_between : ℕ → ℕ → ℕ → Bool
is_between a b c = leb a c && leb c b

abbrev pub is_lower : ℕ → Bool
is_lower = is_between 97 122

abbrev pub is_letter : ℕ → Bool
is_letter c = is_between 65 90 c || is_lower c

abbrev pub is_digit : ℕ → Bool
is_digit = is_between 48 57

-- One of the bytes of a text.
abbrev pub is_one_of : Text → ℕ → Bool
is_one_of s c = any (λ d. d == c) s

-- ^[a-z][a-z0-9_-]{0,63}$
unfoldable pub is_source_name : Text → Bool
is_source_name [] = false
is_source_name (c ∷ s) =
    is_lower c
    && (leb (length s) 63 && every (λ d. is_lower d || (is_digit d || is_one_of (ascii "_-") d)) s)

-- The same pattern.
abbrev pub is_service_id : Text → Bool
is_service_id = is_source_name

-- Letters, digits, `_` and `-`, from one up to a number of them.
abbrev pub is_word : ℕ → Text → Bool
is_word most s =
    not (text_beq s [])
    && (leb (length s) most
        && every (λ d. is_letter d || (is_digit d || is_one_of (ascii "_-") d)) s)

-- ^[A-Za-z0-9_-]{1,64}$
unfoldable pub is_topic : Text → Bool
is_topic s = is_word 64 s

-- ^[A-Za-z0-9_-]{1,256}$
unfoldable pub is_healthcheck_key : Text → Bool
is_healthcheck_key s = is_word 256 s

-- ^[A-Za-z_][A-Za-z0-9_]*$
unfoldable pub is_env_name : Text → Bool
is_env_name [] = false
is_env_name (c ∷ s) =
    (is_letter c || c == 95) && every (λ d. is_letter d || (is_digit d || d == 95)) s

-- ^[!#$%&'*+.^_`|~0-9A-Za-z-]{1,128}$
unfoldable pub is_header_name : Text → Bool
is_header_name s =
    not (text_beq s [])
    && (leb (length s) 128
        && every (λ d. is_letter d || (is_digit d || is_one_of (ascii "!#$%&'*+.^_`|~-") d)) s)

abbrev pub rune_length : Text → ℕ
rune_length s = length (chunks s)

unfoldable pub has_control : Text → Bool
has_control s = any (λ c. is_control (value c.0)) (chunks s)

unfoldable pub invalid_locked_path : Text → Bool
invalid_locked_path path = contains path (ascii "\\") || (has_control path || has_dot_segment path)

-- Text from a list of texts.
abbrev pub is_listed : List Text → Text → Bool
is_listed names s = any (λ n. text_beq n s) names

module _ (to_lower : Text → Text) (trim_space : Text → Text) where
  unfoldable pub looks_like_secret : Text → Bool
  looks_like_secret v =
      let lv = to_lower v in
      (leb 20 (length v)
        && every (λ d. is_letter d || (is_digit d || is_one_of (ascii "_-+/=") d)) v)
      || (has_prefix lv (ascii "bearer ") || has_prefix lv (ascii "basic "))

  unfoldable pub is_sensitive_header_name : Text → Bool
  is_sensitive_header_name name =
      let lower = to_lower (trim_space name) in
      is_listed
        (ascii "authorization"
          ∷ ascii "proxy-authorization"
          ∷ ascii "x-api-key"
          ∷ ascii "api-key"
          ∷ ascii "cookie"
          ∷ ascii "set-cookie"
          ∷ [])
        lower
      || any (contains lower) (
          ascii "token"
          ∷ ascii "secret"
          ∷ ascii "password"
          ∷ ascii "passwd"
          ∷ ascii "credential"
          ∷ ascii "apikey"
          ∷ [])

  unfoldable pub is_reserved_header_name : Text → Bool
  is_reserved_header_name name =
      is_listed
        (ascii "host"
          ∷ ascii "content-length"
          ∷ ascii "user-agent"
          ∷ ascii "accept"
          ∷ ascii "connection"
          ∷ ascii "transfer-encoding"
          ∷ ascii "trailer"
          ∷ ascii "upgrade"
          ∷ ascii "proxy-connection"
          ∷ ascii "keep-alive"
          ∷ ascii "te"
          ∷ [])
        (to_lower (trim_space name))
