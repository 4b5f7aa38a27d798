-- ===== src/Adapters/Loki/Query.antt =====
-- The query that internal/adapters/loki/loki.go sends, and how it is read.
pub mod Filters
use homelab_evidence_mcp.Prelude.{
  ℕ, zero, suc, ◌+◌, ◌≡◌, refl, sym, ap, ◌∙◌, ◌⊎◌, inl, inr, Bool, false, true, not, ◌&&◌, ◌||◌,
  List, [], ◌∷◌, ◌++◌, Option, none, some, Text, ascii, text_beq, nat_eq, ◌==◌, ltb, length, any,
  count, if◌then◌else◌, Bool-cases, Sum-cases, arith,
}
use homelab_evidence_mcp.Config.Names.{has_control}
use homelab_evidence_mcp.Http.Client.{GetError}

pub data LokiError : Type 0 where
  selector_required limit_exceeds invalid_time_window : LokiError
  text_not_single_line text_too_long : LokiError
  regex_not_single_line regex_too_long invalid_regex regex_too_complex : LokiError
  get_failed : GetError → LokiError
  rate_limited : LokiError
  http_status : ℕ → LokiError
  invalid_json non_success missing_result unexpected_result_type : LokiError

-- strings.ReplaceAll of a single byte
unfoldable pub replace_byte : ℕ → Text → Text → Text
replace_byte old new [] = []
replace_byte old new (c ∷ rest) =
    let later = replace_byte old new rest in if c == old then new ++ later else c ∷ later

unfoldable pub escape_logql : Text → Text
unfolding replace_byte
escape_logql s = replace_byte 34 (ascii "\\\"") (replace_byte 92 (ascii "\\\\") s)

abbrev pub has_special : Text → Bool
has_special s = any (λ c. c == 34 || c == 92) s

-- A filter behind the selector.
abbrev pub filter_part : Text → Text → Text
filter_part op body = ascii " " ++ (op ++ (ascii " \"" ++ (body ++ ascii "\"")))

unfoldable pub text_part : Text → LokiError ⊎ Text
unfolding escape_logql
text_part text =
    let body = if has_special text then escape_logql text else text in
    if text_beq text []
    then inr []
    else if has_control text
    then inl text_not_single_line
    else if ltb 200 (length body)
    then inl text_too_long
    else inr (filter_part (ascii "|=") body)

abbrev pub repetitions : Text → ℕ
repetitions rx = count (λ c. c == 43) rx + count (λ c. c == 42) rx

module _ {Regexp : Type 0} (trim_space : Text → Text) (compile : Text → Option Regexp) where
  unfoldable pub regex_part : Text → LokiError ⊎ Text
  unfolding escape_logql
  regex_part rx =
      if text_beq rx []
      then inr []
      else if has_control rx
      then inl regex_not_single_line
      else if ltb 200 (length rx)
      then inl regex_too_long
      else elim (compile rx) [
        | none ↦ inl invalid_regex
        | some re ↦
            if ltb 8 (repetitions rx)
            then inl regex_too_complex
            else inr (filter_part (ascii "|~") (escape_logql rx))
      ]

  unfoldable pub build_query : Text → Text → Text → LokiError ⊎ Text
  unfolding text_part regex_part
  build_query selector text rx = elim (text_part text) [
    | inl e ↦ inl e
    | inr a ↦ elim (regex_part rx) [ inl e ↦ inl e | inr b ↦ inr (trim_space selector ++ (a ++ b)) ]
  ]
