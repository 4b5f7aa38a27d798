-- ===== src/Adapters/Ntfy/Window.antt =====
-- What the history of a topic promises of its items.
use mathlib.Core.List.{Mem}
use homelab_evidence_mcp.Prelude.{
  ◌⊎◌, ascii, text_beq, ℕ, ◌+◌, ◌*◌, ◌≤◌, ◌≡◌, refl, ltb, inl, inr, Bool, false, true, not, ◌||◌,
  List, Option, none, some, Text, nat_eq, length, if◌then◌else◌, All, Bool-cases, arith,
}
use homelab_evidence_mcp.Prelude.Int.{ℤ, pos, pos_part, leb_ℤ, ltb_ℤ}
use homelab_evidence_mcp.Prelude.Table.{lookup}
use homelab_evidence_mcp.Redaction.Engine.{apply, apply_and_truncate}
use homelab_evidence_mcp.Redaction.Clean.{neutralize_instruction_like, sanitize_control}
use homelab_evidence_mcp.Redaction.Utf8.{chunks}
use homelab_evidence_mcp.Redaction.Clean.Lengths.{truncate_bytes_lem, truncate_lem, rune_count}
use homelab_evidence_mcp.Http.Client.{Response, collection_time}
use homelab_evidence_mcp.Evidence.{Time, Item, Severity, unknown, SourceKind, Value}
use homelab_evidence_mcp.Adapters.Ntfy.Received.{
  Message, nanoseconds, from_unix, limit_or_default, whole_text, effective_priority,
  severity_for_priority,
}
use homelab_evidence_mcp.Adapters.Ntfy.{
  Outside, item_from, decode_messages, clean_text, line_limit, summary_of, redact,
}

abbrev pub is_unknown : Severity → Bool
is_unknown unknown = true
is_unknown _ = false

-- A priority that ntfy does not have.
abbrev pub is_outside : Option ℤ → Bool
is_outside none = false
is_outside (some p) = ltb_ℤ p (pos 1) || ltb_ℤ (pos 5) p

-- Every priority of ntfy has a severity.
severity_known :
    (p : Option ℤ)
    → is_unknown (
        if not (effective_priority p).1 || not (severity_for_priority (effective_priority p).0).1
        then unknown
        else (severity_for_priority (effective_priority p).0).0)
      ≡ is_outside p
unfolding effective_priority severity_for_priority
severity_known none = refl
severity_known (some p) = ground arith

module _ {Regexp : Type 0} (o : Outside Regexp) where
  -- The time of an item that shows a message of an answer collected at `snapshot_at`: the
  -- message's own, within the window; or, for a message without a time, that of the answer,
  -- at most half a minute past the window.
  abbrev pub IsTimed : Time → Time → Time → Message → Time → Type 0
  IsTimed start end snapshot_at m ts =
      (start ≤ ts)
      × (((ltb_ℤ (pos 0) m.time ≡ true) × (ts ≡ from_unix m.time) × (ts ≤ end))
          ⊎ ((leb_ℤ m.time (pos 0) ≡ true) × (ts ≡ snapshot_at) × (ts ≤ end + 30 * nanoseconds)))

  -- An item of the service that shows a message among these, as `IsTimed` says.
  pub record IsOf (service_id : Text) (start end snapshot_at now : Time) (msgs : List Message)
      (a : Item) : Type 0 where
    pub service : a.service_id ≡ service_id
    pub source : a.source ≡ SourceKind.ntfy
    pub message : Message
    pub among : Mem message msgs
    pub timed : IsTimed start end snapshot_at message a.observed_at
    pub opened : a.window_start ≡ some start
    pub closed : a.window_end ≡ some end
    pub retrieved : a.retrieved_at ≡ now

  -- The items of a history of an answer: what each of them shows, and how many there are.
  pub record IsHistory (service_id : Text) (start end now : Time) (limit : ℤ)
      (answer : Response × Text) (items : List Item) : Type 0 where
    pub msgs : List Message
    pub decoded : decode_messages o answer.1 ≡ inr msgs
    pub all :
        All (IsOf service_id start end (collection_time o.lib (some answer.0) now) now msgs) items
    pub count : length items ≤ pos_part (limit_or_default limit)

  length-summary_of : (cleaned : Text) → rune_count (summary_of o cleaned).0 ≤ 200
  length-summary_of cleaned = elim (Bool-cases (ltb 200 (length (chunks cleaned)))) [
    | inl h ↦ simp (h) ((truncate_lem cleaned (pos 200)).0)
    | inr h ↦ ground arith
  ]

  rune_count-clean :
      (s : Text) (max : ℤ)
      → rune_count (apply_and_truncate o.compile o.find_all o.engine s max).0 ≤ pos_part max
  unfolding apply_and_truncate
  rune_count-clean s max =
      (truncate_lem (apply o.compile o.find_all o.engine (sanitize_control s)).0 max).0

  -- An attribute of an item is a text of a limited size.
  abbrev pub IsShort : (Text → ℕ) → Text → Item → ℕ → Type 0
  IsShort size name a most =
      (t : Text) × ((lookup name a.attributes ≡ some (Value.text t)) × (size t ≤ most))

  -- The item of a message shows texts of a limited size: in its attributes, the message with
  -- at most the limit of bytes of a line and the topic with at most 64 characters; and at
  -- most 200 characters in its summary. Its severity is unknown just for a priority that is
  -- given and not from 1 to 5.
  pub item_from-bounds :
      (service_id topic : Text) (m : Message) (ts now : Time) (i : ℕ)
      → IsShort length
          (ascii "message")
          (item_from o service_id topic m ts now i)
          (pos_part (line_limit o))
        × IsShort rune_count (ascii "topic") (item_from o service_id topic m ts now i) 64
        × (rune_count (item_from o service_id topic m ts now i).summary ≤ 200)
        × (is_unknown (item_from o service_id topic m ts now i).severity ≡ is_outside m.priority)
  unfolding item_from lookup text_beq clean_text
  item_from-bounds service_id topic m ts now i = (
    (
      _,
      (
        refl,
        (truncate_bytes_lem
            (neutralize_instruction_like o.lib.to_lower
              (redact o (sanitize_control (whole_text m))).0)
            (line_limit o)).0,
      ),
    ),
    (_, (refl, rune_count-clean topic (pos 64))),
    length-summary_of (clean_text o m).0,
    severity_known m.priority,
  )
