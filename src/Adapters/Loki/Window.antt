-- ===== src/Adapters/Loki/Window.antt =====
-- What a search promises of its lines, and how every record of an answer is accounted for.
use homelab_evidence_mcp.Prelude.{
  ℕ, suc, ◌+◌, ◌≤◌, ◌≡◌, refl, inl, inr, Bool, false, true, ◌||◌, List, [], ◌∷◌, none, some, Text,
  nat_eq, ltb, length, count, total, subst, All, All-append, length-append, Bool-cases,
  Option-cases, Sum-cases, arith,
}
use homelab_evidence_mcp.Prelude.Int.{pos, pos_part, ltb_ℤ}
use homelab_evidence_mcp.Prelude.Table.{Table}
use homelab_evidence_mcp.Http.Client.{Response}
use homelab_evidence_mcp.Evidence.{Time, Item, SourceKind}
use homelab_evidence_mcp.Evidence.Order.{keep_newest}
use homelab_evidence_mcp.Evidence.Order.Newest.{length-keep_newest-le, All-keep_newest}
use homelab_evidence_mcp.Adapters.Loki.Query.{build_query}
use homelab_evidence_mcp.Adapters.Loki.Line.{
  Stream, QueryOptions, QueryStats, discarded, Outside, filter_labels, parse_nano, line_item,
}
use homelab_evidence_mcp.Adapters.Loki.{
  value_loop, stream_loop, query_path, lines_of, with_defaults, search_lines,
}

module _ {Regexp : Type 0} (o : Outside Regexp) where
  -- A line of the service within the window of the options.
  pub record IsLine (opt : QueryOptions) (now : Time) (a : Item) : Type 0 where
    pub service : a.service_id ≡ opt.service_id
    pub source : a.source ≡ SourceKind.loki
    pub after : opt.start ≤ a.observed_at
    pub before : a.observed_at ≤ opt.end
    pub opened : a.window_start ≡ some opt.start
    pub closed : a.window_end ≡ some opt.end
    pub retrieved : a.retrieved_at ≡ now

  line_item-IsLine :
      (opt : QueryOptions) (now : Time) (labels : Table Text × ℕ × Bool) (position : ℕ) (ts : Time)
      (line : Text)
      → (ltb ts opt.start || ltb opt.end ts) ≡ false
      → IsLine opt now (line_item o opt now labels position ts line)
  unfolding line_item
  line_item-IsLine opt now labels position ts line h = record {
    service = refl;
    source = refl;
    after = ground arith;
    before = ground arith;
    opened = refl;
    closed = refl;
    retrieved = refl;
  }

  -- A record with a time of its own that lies outside the window.
  abbrev pub is_outside : QueryOptions → List Text → Bool
  is_outside opt [] = false
  is_outside opt (s ∷ []) = false
  is_outside opt (s ∷ (line ∷ more)) = elim (parse_nano o s) [
    | none ↦ false
    | some ts ↦ ltb ts opt.start || ltb opt.end ts
  ]

  -- The items of a loop are lines of the window, and with the records that were counted or
  -- lie outside they make up all records.
  abbrev pub IsAccounted :
      QueryOptions → Time → ℕ → ℕ → QueryStats → List Item × QueryStats → Type 0
  IsAccounted opt now records outside stats (items, later) =
      All (IsLine opt now) items
      × (length items + discarded later + outside ≡ records + discarded stats)

  value_loop-IsAccounted :
      (opt : QueryOptions) (now : Time) (labels : Table Text × ℕ × Bool) (position : ℕ)
      (stats : QueryStats) (values : List (List Text))
      → IsAccounted opt now
          (length values)
          (count (is_outside opt) values)
          stats
          (value_loop o opt now labels position stats values)
  unfolding value_loop
  value_loop-IsAccounted opt now labels position stats [] = (tt, omega arith)
  value_loop-IsAccounted opt now labels position stats ([] ∷ rest) =
      let p =
        value_loop-IsAccounted opt now labels position
          (record stats { incomplete_records = suc stats.incomplete_records }) rest in
      (p.0, ground (arith, p.1))
  value_loop-IsAccounted opt now labels position stats ((s ∷ []) ∷ rest) =
      let p =
        value_loop-IsAccounted opt now labels position
          (record stats { incomplete_records = suc stats.incomplete_records }) rest in
      (p.0, ground (arith, p.1))
  value_loop-IsAccounted opt now labels position stats ((s ∷ (line ∷ more)) ∷ rest) =
      elim (Option-cases (parse_nano o s)) [
        | inl e ↦
            let p =
              value_loop-IsAccounted opt now labels position
                (record stats { invalid_timestamps = suc stats.invalid_timestamps }) rest in
            simp (value_loop, e) (p.0, ground (arith, p.1))
        | inr (ts, e) ↦ elim (Bool-cases (ltb ts opt.start || ltb opt.end ts)) [
          | inl h ↦
              let p = value_loop-IsAccounted opt now labels position stats rest in
              simp (value_loop, e, h) (p.0, ground (arith, p.1))
          | inr h ↦
              let p = value_loop-IsAccounted opt now labels (suc position) stats rest in
              simp (value_loop, e, h)
                ((line_item-IsLine opt now labels position ts line h, p.0), ground (arith, p.1))
        ]
      ]

  abbrev pub all_records : List Stream → ℕ
  all_records streams = total (λ (s : Stream). length s.values) streams

  abbrev pub all_outside : QueryOptions → List Stream → ℕ
  all_outside opt streams = total (λ (s : Stream). count (is_outside opt) s.values) streams

  -- The loops over the streams of an answer make one item of each record that is neither
  -- counted as incomplete or as having no time nor lies outside the window, and every item
  -- lies in the window: no record is lost.
  pub stream_loop_lem :
      (opt : QueryOptions) (now : Time) (position : ℕ) (stats : QueryStats) (streams : List Stream)
      → IsAccounted opt now
          (all_records streams)
          (all_outside opt streams)
          stats
          (stream_loop o opt now position stats streams)
  unfolding stream_loop
  stream_loop_lem opt now position stats [] = (tt, omega arith)
  stream_loop_lem opt now position stats (s ∷ rest) =
      let labels = filter_labels o s.labels in
      let here = value_loop o opt now labels position stats s.values in
      let p = value_loop-IsAccounted opt now labels position stats s.values in
      let q = stream_loop_lem opt now (position + length here.0) here.1 rest in
      let others = stream_loop o opt now (position + length here.0) here.1 rest in
      (
        All-append (IsLine opt now) here.0 others.0 p.0 q.0,
        omega (arith, length-append here.0 others.0, p.1, q.1),
      )

  lines_of-IsLine :
      (opt : QueryOptions) (now : Time) (stats : QueryStats) (answer : Response × Text)
      (items : List Item) (cut : Bool) (later : QueryStats)
      → ltb_ℤ (pos 0) opt.limit ≡ true
      → lines_of o opt now stats answer ≡ inr (items, cut, later)
      → All (IsLine opt now) items × (length items ≤ pos_part opt.limit)
  unfolding lines_of
  lines_of-IsLine opt now stats (resp, body) items cut later positive h =
      elim (Option-cases (o.unmarshal body)) [
        | inl e ↦ ground arith
        | inr (raw, e) ↦ elim (Option-cases raw.result) [
          | inl k ↦ ground arith
          | inr (streams, k) ↦
              let all = (stream_loop o opt now 0 stats streams).0 in
              let kept : (keep_newest all opt.limit).0 ≡ items = ground arith in
              subst (λ l. All (IsLine opt now) l × (length l ≤ pos_part opt.limit)) kept
                (
                  All-keep_newest _ all opt.limit (stream_loop_lem opt now 0 stats streams).0,
                  length-keep_newest-le all opt.limit positive,
                )
        ]
      ]

  limit-positive :
      (given : QueryOptions) (now : Time) → ltb_ℤ (pos 0) (with_defaults given now).limit ≡ true
  limit-positive given now = ground arith

  -- The lines that a search returns belong to the service and lie in the window, which ends
  -- now where the options give no end; and there are no more of them than the limit, or 50
  -- where the options give none, which is never above 1,000.
  pub search_lines-IsLine :
      (given : QueryOptions) (stats later : QueryStats) (now : Time) (items : List Item)
      (cut : Bool)
      → search_lines o given stats now ≡ inr (items, cut, later)
      → All (IsLine (with_defaults given now) now) items
        × ((length items ≤ pos_part (with_defaults given now).limit)
            × (pos_part (with_defaults given now).limit ≤ 1000))
  unfolding search_lines
  search_lines-IsLine given stats later now items cut h =
      let opt = with_defaults given now in
      elim (Sum-cases (build_query o.lib.trim_space o.compile opt.selector opt.text opt.regex)) [
        | inl (e, k) ↦ ground arith
        | inr (q, k) ↦ elim (Sum-cases (o.get (query_path o q opt))) [
          | inl (e, l) ↦ ground arith
          | inr (answer, l) ↦
              let run : lines_of o opt now stats answer ≡ inr (items, cut, later) = ground arith in
              let small : ltb_ℤ (pos 1000) opt.limit ≡ false = ground arith in
              let p =
                lines_of-IsLine opt now stats answer items cut later (limit-positive given now)
                  run in
              (p.0, (p.1, ground arith))
        ]
      ]
