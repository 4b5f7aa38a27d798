-- ===== src/Adapters/Loki/Line.antt =====
-- The lines of an answer in internal/adapters/loki/loki.go: streams, labels, times and items. The
-- decoding of JSON, the reading of numbers, regexp and the identifiers are arguments.
use homelab_evidence_mcp.Prelude.{
  ℕ, suc, ◌+◌, ◌*◌, ◌-◌, ◌⊎◌, Bool, false, not, ◌||◌, List, [], ◌∷◌, ◌++◌, Option, none, some, Text,
  ascii, text_beq, text_less, nat_eq, ltb, length, any, map, if◌then◌else◌,
}
use homelab_evidence_mcp.Prelude.Int.{ℤ, pos, negsuc, leb_ℤ}
use homelab_evidence_mcp.Prelude.Table
use homelab_evidence_mcp.Prelude.Table.{Table, lookup}
use homelab_evidence_mcp.Prelude.Sort.{sort_stable}
use homelab_evidence_mcp.Redaction.Utf8.{chunks}
use homelab_evidence_mcp.Redaction.Search.{contains}
use homelab_evidence_mcp.Redaction.Clean.{
  sanitize_control, truncate, truncate_bytes, neutralize_instruction_like,
}
use homelab_evidence_mcp.Redaction.Engine.{Engine, apply}
use homelab_evidence_mcp.Http.Client.{Library, Response, GetError}
use homelab_evidence_mcp.Evidence.{
  Time, Item, Severity, info, warning, error, critical, text, SourceKind, Kind,
}
use homelab_evidence_mcp.Evidence.Age.{compute_freshness}
use homelab_evidence_mcp.Adapters.Ntfy.Received.{unix_epoch, nanoseconds}

pub record Stream : Type 0 where
  pub labels : Table Text
  pub values : List (List Text)

pub record LokiResponse : Type 0 where
  pub status : Text
  pub result_type : Text
  pub result : Option (List Stream)

pub record QueryOptions : Type 0 where
  pub service_id : Text
  pub selector : Text
  pub start : Time
  pub end : Time
  pub limit : ℤ
  pub text : Text
  pub regex : Text

-- The records that could not be used. A caller that passes no counters does not see them.
pub record QueryStats : Type 0 where
  pub invalid_timestamps : ℕ
  pub incomplete_records : ℕ

abbrev pub discarded : QueryStats → ℕ
discarded s = s.invalid_timestamps + s.incomplete_records

pub record Outside (Regexp : Type 0) : Type 0 where
  pub lib : Library
  pub compile : Text → Option Regexp
  pub find_all : Regexp → Text → List (ℕ × ℕ)
  pub engine : Option (Engine Regexp)
  pub max_line_bytes : ℤ
  pub get : Text → GetError ⊎ (Response × Text)
  pub query_escape : Text → Text
  pub show : ℤ → Text
  pub parse_int : Text → Option ℤ
  pub unmarshal : Text → Option LokiResponse
  pub new_id : ℕ → Text

abbrev pub allowed_labels : List Text
allowed_labels =
    ascii "job"
    ∷ ascii "namespace"
    ∷ ascii "container"
    ∷ ascii "pod"
    ∷ ascii "app"
    ∷ ascii "host"
    ∷ ascii "service"
    ∷ ascii "filename"
    ∷ ascii "level"
    ∷ ascii "compose"
    ∷ []

abbrev pub is_allowed : Text → Bool
is_allowed k = any (λ a. text_beq a k) allowed_labels

-- The nanoseconds from the beginning of year 1 to 1970.
abbrev pub epoch : Time
epoch = unix_epoch * nanoseconds

-- The time of a number of nanoseconds; it may be up to a second before 1970, since Go's division
-- rounds to zero.
unfoldable pub time_of_nano : ℤ → Option Time
time_of_nano (pos n) = some (epoch + n)
time_of_nano (negsuc n) = if ltb (suc n) nanoseconds then some (epoch - suc n) else none

unfoldable pub severity_from_text : Text → Severity
severity_from_text l =
    if contains l (ascii "fatal") || contains l (ascii "panic")
    then critical
    else if contains l (ascii "error")
        || (contains l (ascii "timeout") || contains l (ascii "fail"))
    then error
    else if contains l (ascii "warn")
    then warning
    else info

-- strings.Join with a comma
unfoldable pub join_parts : List Text → Text
join_parts [] = []
join_parts (p ∷ []) = p
join_parts (p ∷ (q ∷ rest)) = p ++ (ascii "," ++ join_parts (q ∷ rest))

abbrev pub label_or_empty : Text → Table Text → Text
label_or_empty k labels = elim (lookup k labels) [ none ↦ [] | some v ↦ v ]

unfoldable pub stream_source_id : Table Text → Text
unfolding join_parts
stream_source_id [] = ascii "stream"
stream_source_id (l ∷ rest) = join_parts (
    map (λ k. k ++ (ascii "=" ++ label_or_empty k (l ∷ rest)))
      (sort_stable text_less (Table.keys (l ∷ rest))))

module _ {Regexp : Type 0} (o : Outside Regexp) where
  unfoldable pub redact_line : Text → Text × ℕ
  redact_line s = elim o.engine [
    | none ↦ (sanitize_control s, 0)
    | some e ↦ apply o.compile o.find_all (some e) s
  ]

  -- The labels of the allowlist, cleaned, with the redactions and whether one was cut.
  unfoldable pub filter_labels : Table Text → Table Text × ℕ × Bool
  unfolding redact_line
  filter_labels [] = ([], 0, false)
  filter_labels ((k, v) ∷ rest) =
      let (out, more, cut_later) = filter_labels rest in
      if not (is_allowed k)
      then (out, more, cut_later)
      else let (cleaned, n) = redact_line (sanitize_control v) in
        let (short, cut) = truncate cleaned (pos 128) in
        ((k, short) ∷ out, n + more, cut || cut_later)

  unfoldable pub parse_nano : Text → Option Time
  unfolding time_of_nano
  parse_nano s = elim (o.parse_int s) [ none ↦ none | some n ↦ time_of_nano n ]

  abbrev pub byte_limit : ℤ
  byte_limit = if leb_ℤ o.max_line_bytes (pos 0) then pos 2048 else o.max_line_bytes

  -- The item of a line, with the labels of its stream.
  unfoldable pub line_item : QueryOptions → Time → Table Text × ℕ × Bool → ℕ → Time → Text → Item
  unfolding redact_line stream_source_id severity_from_text
  line_item opt now (labels, label_redactions, labels_cut) position ts line =
      let (redacted, rn) = redact_line (sanitize_control line) in
      let (cleaned, line_cut) =
        truncate_bytes (neutralize_instruction_like o.lib.to_lower redacted) byte_limit in
      let (sum, summary_cut) =
        if ltb 200 (length (chunks cleaned))
        then truncate cleaned (pos 200)
        else (cleaned, false) in
      record {
        id = o.new_id position;
        service_id = opt.service_id;
        source = SourceKind.loki;
        source_id = stream_source_id labels;
        kind = Kind.log_line;
        observed_at = ts;
        retrieved_at = now;
        window_start = some opt.start;
        window_end = some opt.end;
        summary = sum;
        severity = severity_from_text (o.lib.to_lower cleaned);
        attributes =
            (ascii "line", text cleaned)
            ∷ map (λ (l : Text × Text). (ascii "label_" ++ l.0, text l.1)) labels;
        truncated = line_cut || (summary_cut || labels_cut);
        redactions_applied = rn + label_redactions;
        freshness = compute_freshness ts now;
        order = position;
      }
