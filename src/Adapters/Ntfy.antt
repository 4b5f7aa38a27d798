-- ===== src/Adapters/Ntfy.antt =====
-- The history of a topic in internal/adapters/ntfy/ntfy.go. The locked client's Get, the decoding
-- of JSON, the scanner of lines, the escaping of a path and the identifiers are arguments.
pub mod Received
pub mod Window
mod Tests
use homelab_evidence_mcp.Prelude.{
  ℕ, zero, suc, ◌+◌, ◌*◌, ◌-◌, ◌/◌, ◌⊎◌, inl, inr, Bool, false, true, not, ◌&&◌, ◌||◌, List, [],
  ◌∷◌, ◌++◌, Option, none, some, Text, ascii, text_beq, text_less, nat_eq, ◌==◌, ltb, leb, length,
  take, if◌then◌else◌,
}
use homelab_evidence_mcp.Prelude.Int.{ℤ, pos, negsuc, sub_ℕ, pos_part, leb_ℤ, ltb_ℤ, equal_ℤ}
use homelab_evidence_mcp.Prelude.Table.{Table}
use homelab_evidence_mcp.Prelude.Sort.{sort_stable}
use homelab_evidence_mcp.Redaction.Utf8.{chunks}
use homelab_evidence_mcp.Redaction.Clean.{
  sanitize_control, truncate, truncate_bytes, neutralize_instruction_like,
}
use homelab_evidence_mcp.Redaction.Engine.{Engine, apply, apply_and_truncate}
use homelab_evidence_mcp.Http.Client.{
  Library, Response, GetError, collection_time, upstream_truncated,
}
use homelab_evidence_mcp.Evidence.{
  Time, Item, Severity, info, error, critical, unknown, Value, text, number, flag, texts,
  SourceKind, Kind,
}
use homelab_evidence_mcp.Evidence.Age.{compute_freshness}
use homelab_evidence_mcp.Evidence.Order.{keep_newest}
use homelab_evidence_mcp.Adapters.Ntfy.Received.{
  Message, NtfyError, topic_required, invalid_time_window, authentication_failed, topic_not_found,
  get_failed, http_status, invalid_array, null_message, invalid_line, scan_failed,
  severity_for_priority, effective_priority, unix_epoch, nanoseconds, from_unix, to_unix,
  message_less, all_present, limit_or_default, whole_text,
}

-- What the client takes from outside. `scan` gives the lines of a text, and the error that
-- ended it.
pub record Outside (Regexp : Type 0) : Type 0 where
  pub lib : Library
  pub compile : Text → Option Regexp
  pub find_all : Regexp → Text → List (ℕ × ℕ)
  pub engine : Option (Engine Regexp)
  pub max_line_bytes : ℤ
  pub get : Text → GetError ⊎ (Response × Text)
  pub path_escape : Text → Text
  pub show : ℤ → Text
  pub unmarshal_array : Text → Option (List (Option Message))
  pub unmarshal_line : Text → Option (Option Message)
  pub scan : Text → List Text × Option Text
  pub new_id : ℕ → Text

module _ {Regexp : Type 0} (o : Outside Regexp) where
  -- The loop over the lines.
  unfoldable pub decode_lines : List Text → NtfyError ⊎ List Message
  decode_lines [] = inr []
  decode_lines (raw ∷ rest) =
      let line = o.lib.trim_space raw in
      let later = decode_lines rest in
      if text_beq line [] then later else elim (o.unmarshal_line line) [
        | none ↦ inl invalid_line
        | some none ↦ inl invalid_line
        | some (some m) ↦ elim later [ inl e ↦ inl e | inr ms ↦ inr (m ∷ ms) ]
      ]

  unfoldable pub decode_messages : Text → NtfyError ⊎ List Message
  unfolding decode_lines all_present
  decode_messages raw = elim (o.lib.trim_space raw) [
    | [] ↦ inr []
    | c ∷ rest ↦
        if c == 91
        then elim (o.unmarshal_array (c ∷ rest)) [
          | none ↦ inl invalid_array
          | some ms ↦ elim (all_present ms) [ none ↦ inl null_message | some l ↦ inr l ]
        ]
        else let (lines, failed) = o.scan (c ∷ rest) in
          elim (decode_lines lines) [
            | inl e ↦ inl e
            | inr ms ↦ elim failed [ some e ↦ inl (scan_failed e) | none ↦ inr ms ]
          ]
  ]

  unfoldable pub redact : Text → Text × ℕ
  redact s = elim o.engine [
    | none ↦ (sanitize_control s, 0)
    | some e ↦ apply o.compile o.find_all (some e) s
  ]

  -- The tags that are kept: cleaned, with the number of redactions and whether one was cut.
  unfoldable pub clean_tags : List Text → List Text × ℕ × Bool
  unfolding redact
  clean_tags [] = ([], 0, false)
  clean_tags (tag ∷ rest) =
      let (cleaned, n) = redact (sanitize_control tag) in
      let (short, cut) = truncate cleaned (pos 64) in
      let (tags, more, cut_later) = clean_tags rest in (short ∷ tags, n + more, cut || cut_later)

  abbrev pub line_limit : ℤ
  line_limit = if leb_ℤ o.max_line_bytes (pos 0) then pos 2048 else o.max_line_bytes

  -- The cleaned text of a message, the number of redactions and whether it was cut.
  unfoldable pub clean_text : Message → Text × ℕ × Bool
  unfolding redact
  clean_text m =
      let (cleaned, n) = redact (sanitize_control (whole_text m)) in
      let (short, cut) =
        truncate_bytes (neutralize_instruction_like o.lib.to_lower cleaned) line_limit in
      (short, n, cut)

  abbrev pub summary_of : Text → Text × Bool
  summary_of cleaned =
      if ltb 200 (length (chunks cleaned)) then truncate cleaned (pos 200) else (cleaned, false)

  -- The identifier at the source: the message's, or the topic.
  unfoldable pub source_id_of : Text → Message → Text × ℕ × Bool
  source_id_of topic m =
      if text_beq m.id []
      then (topic, 0, false)
      else apply_and_truncate o.compile o.find_all o.engine m.id (pos 256)

  unfoldable pub item_from : Text → Text → Message → Time → Time → ℕ → Item
  unfolding clean_text clean_tags source_id_of effective_priority severity_for_priority
  item_from service_id topic m ts now i =
      let (clean_topic, topic_redactions, topic_cut) =
        apply_and_truncate o.compile o.find_all o.engine topic (pos 64) in
      let (cleaned, text_redactions, text_cut) = clean_text m in
      let (priority, valid) = effective_priority m.priority in
      let (severity, mapped) = severity_for_priority priority in
      let (summary, summary_cut) = summary_of cleaned in
      let (tags, tag_redactions, tag_cut) = clean_tags (take 32 m.tags) in
      let (sid, sid_redactions, sid_cut) = source_id_of clean_topic m in
      record {
        id = o.new_id i;
        service_id = service_id;
        source = SourceKind.ntfy;
        source_id = sid;
        kind = Kind.notification;
        observed_at = ts;
        retrieved_at = now;
        window_start = none;
        window_end = none;
        summary = summary;
        severity = if not valid || not mapped then unknown else severity;
        attributes =
            (ascii "topic", text clean_topic)
            ∷ (ascii "priority", number priority)
            ∷ (ascii "message", text cleaned)
            ∷ ((if valid then [] else (ascii "priority_valid", flag false) ∷ [])
                ++ (if leb (length m.tags) 0 then [] else (ascii "tags", texts tags) ∷ []));
        truncated =
            text_cut
            || (summary_cut || (ltb 32 (length m.tags) || (tag_cut || (sid_cut || topic_cut))));
        redactions_applied = text_redactions + topic_redactions + tag_redactions + sid_redactions;
        freshness = compute_freshness ts now;
        order = 0;
      }

  -- The time of a message that belongs to the window. Without a time of its own a message counts as
  -- seen when the answer was collected, with half a minute of tolerance.
  unfoldable pub time_in : Time → Time → Time → Message → Option Time
  time_in start end snapshot_at m =
      if not (text_beq m.event []) && not (text_beq m.event (ascii "message"))
      then none
      else if leb_ℤ m.time (pos 0)
      then if ltb snapshot_at start || ltb (end + 30 * nanoseconds) snapshot_at
        then none
        else some snapshot_at
      else if ltb (from_unix m.time) start || ltb end (from_unix m.time)
      then none
      else some (from_unix m.time)

  -- The loop over the messages, with the number of items made so far.
  unfoldable pub items_in : Text → Text → Time → Time → Time → Time → ℕ → List Message → List Item
  unfolding time_in item_from
  items_in service_id topic start end snapshot_at now i [] = []
  items_in service_id topic start end snapshot_at now i (m ∷ rest) =
      elim (time_in start end snapshot_at m) [
        | none ↦ items_in service_id topic start end snapshot_at now i rest
        | some ts ↦
            record (item_from service_id topic m ts now i) {
              window_start = some start;
              window_end = some end;
            }
            ∷ items_in service_id topic start end snapshot_at now (suc i) rest
      ]

  abbrev pub history_path : Text → Time → Text
  history_path topic start =
      ascii "/" ++ (o.path_escape topic ++ (ascii "/json?poll=1&since=" ++ o.show (to_unix start)))

  -- The items of an answer, and whether there are more upstream or here.
  unfoldable pub history_of :
      Text → Text → Time → Time → ℤ → Time → Response × Text → NtfyError ⊎ (List Item × Bool × Bool)
  unfolding decode_messages items_in
  history_of service_id topic start end limit now (resp, body) =
      if resp.status == 401 || resp.status == 403
      then inl authentication_failed
      else if resp.status == 404
      then inl topic_not_found
      else if not (resp.status == 200)
      then inl (http_status resp.status)
      else let snapshot_at = collection_time o.lib (some resp) now in
        elim (decode_messages body) [
          | inl e ↦ inl e
          | inr msgs ↦
              let items =
                items_in service_id topic start end snapshot_at now 0
                  (sort_stable message_less msgs) in
              let (kept, cut) = keep_newest items limit in
              inr (kept, upstream_truncated o.lib (some resp), cut)
        ]

  -- `HistoryDetail`
  unfoldable pub history_detail :
      Text → Text → Time → Time → ℤ → Time → NtfyError ⊎ (List Item × Bool × Bool)
  unfolding history_of
  history_detail service_id topic start end limit now =
      if text_beq topic []
      then inl topic_required
      else if not (ltb start end)
      then inl invalid_time_window
      else elim (o.get (history_path topic start)) [
        | inl e ↦ inl (get_failed e)
        | inr answer ↦ history_of service_id topic start end (limit_or_default limit) now answer
      ]

  -- `History`
  unfoldable pub history : Text → Text → Time → Time → ℤ → Time → NtfyError ⊎ (List Item × Bool)
  unfolding history_detail
  history service_id topic start end limit now =
      elim (history_detail service_id topic start end limit now) [
        | inl e ↦ inl e
        | inr (items, upstream, local) ↦ inr (items, upstream || local)
      ]
