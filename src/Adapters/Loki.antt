-- ===== src/Adapters/Loki.antt =====
-- The search of internal/adapters/loki/loki.go. The locked client's Get, the decoding of JSON, the
-- reading and printing of numbers, the escaping of a query, regexp and the identifiers are
-- arguments.
pub mod Line
pub mod Query
pub mod Window
mod Tests
use homelab_evidence_mcp.Prelude.{
  ℕ, zero, suc, ◌+◌, ◌*◌, ◌-◌, ◌/◌, ◌⊎◌, inl, inr, Bool, false, true, not, ◌&&◌, ◌||◌, List, [],
  ◌∷◌, ◌++◌, Option, none, some, Text, ascii, text_beq, text_less, nat_eq, ◌==◌, ltb, leb, length,
  any, keep, map, if◌then◌else◌,
}
use homelab_evidence_mcp.Prelude.Int.{ℤ, pos, negsuc, pos_part, leb_ℤ, ltb_ℤ, sub_ℕ}
use homelab_evidence_mcp.Prelude.Table
use homelab_evidence_mcp.Prelude.Table.{Table, lookup}
use homelab_evidence_mcp.Prelude.Sort.{sort_stable}
use homelab_evidence_mcp.Redaction.Utf8.{chunks}
use homelab_evidence_mcp.Redaction.Search.{contains}
use homelab_evidence_mcp.Redaction.Clean.{
  sanitize_control, truncate, truncate_bytes, neutralize_instruction_like,
}
use homelab_evidence_mcp.Redaction.Engine.{Engine, apply}
use homelab_evidence_mcp.Config.Names.{has_control}
use homelab_evidence_mcp.Http.Client.{Library, Response, GetError}
use homelab_evidence_mcp.Evidence.{
  Time, Item, Severity, info, warning, error, critical, Value, text, SourceKind, Kind,
}
use homelab_evidence_mcp.Evidence.Age.{compute_freshness}
use homelab_evidence_mcp.Evidence.Order.{keep_newest}
use homelab_evidence_mcp.Adapters.Ntfy.Received.{unix_epoch, nanoseconds, limit_or_default}
use homelab_evidence_mcp.Adapters.Loki.Query.{
  LokiError, build_query, selector_required, limit_exceeds, invalid_time_window, get_failed,
  rate_limited, http_status, invalid_json, non_success, missing_result, unexpected_result_type,
}
use homelab_evidence_mcp.Adapters.Loki.Line.{
  Stream, LokiResponse, QueryOptions, QueryStats, discarded, Outside, allowed_labels, is_allowed,
  epoch, time_of_nano, severity_from_text, join_parts, label_or_empty, stream_source_id,
  redact_line, filter_labels, parse_nano, byte_limit, line_item,
}

-- The options with the default limit and the default end.
abbrev pub with_defaults : QueryOptions → Time → QueryOptions
with_defaults opt now = record opt {
  limit = limit_or_default opt.limit;
  end = if opt.end == 0 then now else opt.end;
}

module _ {Regexp : Type 0} (o : Outside Regexp) where
  -- The loop over the values of a stream, with the number of items so far and the counters.
  unfoldable pub value_loop :
      QueryOptions
      → Time
      → Table Text × ℕ × Bool
      → ℕ
      → QueryStats
      → List (List Text)
      → List Item × QueryStats
  unfolding parse_nano line_item
  value_loop opt now labels position stats [] = ([], stats)
  value_loop opt now labels position stats ([] ∷ rest) =
      value_loop opt now labels position
        (record stats { incomplete_records = suc stats.incomplete_records }) rest
  value_loop opt now labels position stats ((s ∷ []) ∷ rest) =
      value_loop opt now labels position
        (record stats { incomplete_records = suc stats.incomplete_records }) rest
  value_loop opt now labels position stats ((s ∷ (line ∷ more)) ∷ rest) = elim (parse_nano o s) [
    | none ↦
        value_loop opt now labels position
          (record stats { invalid_timestamps = suc stats.invalid_timestamps }) rest
    | some ts ↦ elim (ltb ts opt.start || ltb opt.end ts) [
      | true ↦ value_loop opt now labels position stats rest
      | false ↦
          let (items, later) = value_loop opt now labels (suc position) stats rest in
          (line_item o opt now labels position ts line ∷ items, later)
    ]
  ]

  -- The loop over the streams.
  unfoldable pub stream_loop :
      QueryOptions → Time → ℕ → QueryStats → List Stream → List Item × QueryStats
  unfolding value_loop filter_labels
  stream_loop opt now position stats [] = ([], stats)
  stream_loop opt now position stats (s ∷ rest) =
      let (items, counted) =
        value_loop opt now (filter_labels o s.labels) position stats s.values in
      let (others, later) = stream_loop opt now (position + length items) counted rest in
      (items ++ others, later)

  abbrev pub query_path : Text → QueryOptions → Text
  query_path q opt =
      ascii "/loki/api/v1/query_range?direction=backward&end="
      ++ (o.show (sub_ℕ opt.end epoch)
          ++ (ascii "&limit="
              ++ (o.show (pos (suc (pos_part opt.limit)))
                  ++ (ascii "&query="
                      ++ (o.query_escape q
                          ++ (ascii "&start=" ++ o.show (sub_ℕ opt.start epoch)))))))

  -- The items of an answer.
  unfoldable pub lines_of :
      QueryOptions
      → Time
      → QueryStats
      → Response × Text
      → LokiError ⊎ (List Item × Bool × QueryStats)
  unfolding stream_loop
  lines_of opt now stats (resp, body) =
      if resp.status == 429
      then inl rate_limited
      else if not (resp.status == 200)
      then inl (http_status resp.status)
      else elim (o.unmarshal body) [
        | none ↦ inl invalid_json
        | some raw ↦
            if not (text_beq raw.status (ascii "success"))
            then inl non_success
            else elim raw.result [
              | none ↦ inl missing_result
              | some streams ↦
                  if not (text_beq raw.result_type [])
                    && not (text_beq raw.result_type (ascii "streams"))
                  then inl unexpected_result_type
                  else let (items, counted) = stream_loop opt now 0 stats streams in
                    let (kept, cut) = keep_newest items opt.limit in inr (kept, cut, counted)
            ]
      ]

  -- `Search`
  unfoldable pub search_lines :
      QueryOptions → QueryStats → Time → LokiError ⊎ (List Item × Bool × QueryStats)
  unfolding lines_of
  search_lines given stats now =
      let opt = with_defaults given now in
      if text_beq given.selector []
      then inl selector_required
      else if ltb_ℤ (pos 1000) opt.limit
      then inl limit_exceeds
      else if (opt.start == 0) || not (ltb opt.start opt.end)
      then inl invalid_time_window
      else elim (build_query o.lib.trim_space o.compile opt.selector opt.text opt.regex) [
        | inl e ↦ inl e
        | inr q ↦ elim (o.get (query_path q opt)) [
          | inl e ↦ inl (get_failed e)
          | inr answer ↦ lines_of opt now stats answer
        ]
      ]
