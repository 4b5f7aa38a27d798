-- ===== src/Adapters/Ntfy/Received.antt =====
-- The messages of internal/adapters/ntfy/ntfy.go: their fields, times, priorities and text.
use homelab_evidence_mcp.Prelude.{
  ℕ, ◌+◌, ◌*◌, ◌/◌, Bool, false, true, ◌||◌, List, [], ◌∷◌, ◌++◌, Option, none, some, Text, ascii,
  text_beq, text_less, nat_eq, if◌then◌else◌,
}
use homelab_evidence_mcp.Prelude.Int.{ℤ, pos, sub_ℕ, pos_part, leb_ℤ, ltb_ℤ, equal_ℤ}
use homelab_evidence_mcp.Http.Client.{GetError}
use homelab_evidence_mcp.Evidence.{Time, Severity, info, error, critical, unknown}

pub record Message : Type 0 where
  pub id : Text
  pub time : ℤ
  pub event : Text
  pub title : Text
  pub message : Text
  pub priority : Option ℤ
  pub tags : List Text

pub data NtfyError : Type 0 where
  topic_required invalid_time_window authentication_failed topic_not_found : NtfyError
  get_failed : GetError → NtfyError
  http_status : ℕ → NtfyError
  invalid_array null_message invalid_line : NtfyError
  scan_failed : Text → NtfyError

unfoldable pub severity_for_priority : ℤ → Severity × Bool
severity_for_priority p =
    if equal_ℤ p (pos 1) || (equal_ℤ p (pos 2) || equal_ℤ p (pos 3))
    then (info, true)
    else if equal_ℤ p (pos 4)
    then (error, true)
    else if equal_ℤ p (pos 5)
    then (critical, true)
    else (unknown, false)

-- A priority that is not given is 3.
unfoldable pub effective_priority : Option ℤ → ℤ × Bool
effective_priority none = (pos 3, true)
effective_priority (some p) = if ltb_ℤ p (pos 1) || ltb_ℤ (pos 5) p then (p, false) else (p, true)

-- The seconds from the beginning of year 1 to 1970.
abbrev pub unix_epoch : ℕ
unix_epoch = 62135596800

abbrev pub nanoseconds : ℕ
nanoseconds = 1000000000

-- time.Unix(s, 0), for a positive number of seconds.
abbrev pub from_unix : ℤ → Time
from_unix s = (unix_epoch + pos_part s) * nanoseconds

-- t.Unix()
abbrev pub to_unix : Time → ℤ
to_unix t = sub_ℕ (t / nanoseconds) unix_epoch

-- `less` of the sort by time and identifier.
abbrev pub message_less : Message → Message → Bool
message_less a b = if equal_ℤ a.time b.time then text_less a.id b.id else ltb_ℤ a.time b.time

unfoldable pub all_present : List (Option Message) → Option (List Message)
all_present [] = some []
all_present (none ∷ rest) = none
all_present (some m ∷ rest) = elim (all_present rest) [ none ↦ none | some ms ↦ some (m ∷ ms) ]

abbrev pub limit_or_default : ℤ → ℤ
limit_or_default limit = if leb_ℤ limit (pos 0) then pos 50 else limit

-- The title and the message in one text.
abbrev pub whole_text : Message → Text
whole_text m = if text_beq m.title [] then m.message else m.title ++ (ascii ": " ++ m.message)
