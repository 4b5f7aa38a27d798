-- ===== src/Evidence.antt =====
-- The evidence model of internal/evidence/evidence.go: the closed vocabularies, the item, the
-- outcome of a source and the bundle of a multi-source answer.
pub mod Order
pub mod Age
pub mod Cache
pub mod Samples
mod Tests
use homelab_evidence_mcp.Prelude.{
  ℕ, ◌≡◌, refl, ◌↔◌, Bool, true, false, List, Option, Text, ascii, Eq, Ord, arith, text_beq,
  text_less, text_beq_iff, text_asym, text_trans, text_connected,
}
use homelab_evidence_mcp.Prelude.Int.{ℤ}

pub data Kind : Type 0 where
  endpoint_check container_state log_line cron_check metric_sample notification : Kind

pub data Severity : Type 0 where
  info warning error critical unknown : Severity

pub data Freshness : Type 0 where
  live recent stale unknown cached missing : Freshness

pub data SourceKind : Type 0 where
  gatus docker loki healthchecks beszel ntfy : SourceKind

-- The string that each constant stands for.
unfoldable pub source_name : SourceKind → Text
source_name gatus = ascii "gatus"
source_name docker = ascii "docker"
source_name loki = ascii "loki"
source_name healthchecks = ascii "healthchecks"
source_name beszel = ascii "beszel"
source_name ntfy = ascii "ntfy"

-- `==` and `<` on the strings.
unfoldable pub source_beq : SourceKind → SourceKind → Bool
unfolding source_name text_beq
source_beq a b = text_beq (source_name a) (source_name b)

unfoldable pub source_less : SourceKind → SourceKind → Bool
unfolding source_name text_less
source_less a b = text_less (source_name a) (source_name b)

pub source_beq_iff : (a b : SourceKind) → (source_beq a b ≡ true) ↔ (a ≡ b)
unfolding source_beq
source_beq_iff a b = ground arith

instance abbrev pub source_eq : Eq SourceKind
source_eq = record { same = source_beq; decides = source_beq_iff }

pub source_asym : (a b : SourceKind) → source_less a b ≡ true → source_less b a ≡ false
unfolding source_less
source_asym a b h = text_asym (source_name a) (source_name b) h

pub source_trans :
    (a b c : SourceKind) → source_less a b ≡ true → source_less b c ≡ true → source_less a c ≡ true
unfolding source_less
source_trans a b c h k = text_trans (source_name a) (source_name b) (source_name c) h k

pub source_connected :
    (a b : SourceKind) → source_less a b ≡ false → source_less b a ≡ false → a ≡ b
unfolding source_less
source_connected a b h k = ground arith

abbrev pub source_ord : Ord SourceKind
source_ord = record {
  eq = source_eq;
  less = source_less;
  asym = source_asym;
  trans = source_trans;
  connected = source_connected;
}

-- `time.Time` as nanoseconds since the zero time, 1 January of the year 1, in UTC.
abbrev pub Time : Type 0
Time = ℕ

-- The dynamic values that attributes hold.
pub data Value : Type 0 where
  text : Text → Value
  number : ℤ → Value
  flag : Bool → Value
  texts : List Text → Value
  decimal : Text → Value

pub record Item : Type 0 where
  pub id : Text
  pub service_id : Text
  pub source : SourceKind
  pub source_id : Text
  pub kind : Kind
  pub observed_at : Time
  pub retrieved_at : Time
  pub window_start : Option Time
  pub window_end : Option Time
  pub summary : Text
  pub severity : Severity
  pub attributes : List (Text × Value)
  pub truncated : Bool
  pub redactions_applied : ℕ
  pub freshness : Freshness
  pub order : ℕ

pub data Status : Type 0 where
  ok error skipped timeout absent canceled : Status

-- The reason codes that the program writes; `none` is the empty string.
pub data Reason : Type 0 where
  none empty_result no_binding unmatched_binding unsupported_history : Reason
  partial_invalid_records truncated timeout canceled authentication_failed : Reason
  upstream_error not_queried_by_tool unknown_history_coverage partial_fetch : Reason
  missing_identity omitted_checks : Reason

pub record SourceOutcome : Type 0 where
  pub source_name : Text
  pub kind : SourceKind
  pub status : Status
  pub reason : Reason
  pub error : Text
  pub item_count : ℕ
  pub complete : Bool
  pub truncated : Bool
  pub upstream_truncated : Bool
  pub local_truncated : Bool
  pub discarded : ℤ
  pub omitted : ℤ
  pub cache_state : Text
  pub cache_age_s : ℕ
  pub duration_ms : ℕ

pub record Bundle : Type 0 where
  pub service_id : Text
  pub requested_start : Time
  pub requested_end : Time
  pub effective_start : Time
  pub effective_end : Time
  pub items : List Item
  pub sources : List SourceOutcome
  pub complete : Bool
  pub truncated : Bool
  pub compact : Bool
  pub byte_budget : ℕ
  pub byte_size : ℕ
  pub selection_truncated : Bool
  pub byte_budget_truncated : Bool
  pub omitted_items : ℕ
  pub omitted_sources : List Text
  pub warnings : List Text
  pub factual_summary : Text
  pub retrieved_at : Time
