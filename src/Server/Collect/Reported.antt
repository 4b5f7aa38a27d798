-- ===== src/Server/Collect/Reported.antt =====
-- What the collector of Loki in internal/mcpserver/collectors.go reports of its client's answer.
use homelab_evidence_mcp.Prelude.{
  ℕ, ◌≡◌, ◌∙◌, ap, ascii, inl, inr, Bool, false, not, ◌&&◌, List, [], Option, none, some, Text,
  nat_eq, length, if◌then◌else◌, arith,
}
use homelab_evidence_mcp.Prelude.Int.{ℤ, pos, leb_ℤ}
use homelab_evidence_mcp.Evidence.{Item, SourceKind, SourceOutcome}
use homelab_evidence_mcp.Server.Outcomes.{
  SourceError, Conditions, is_alive, mark_empty, mark_truncated, mark_discarded,
  with_source_timeout, source_error_outcome,
}
use homelab_evidence_mcp.Server.Collect.{Answered, missing_client, collect_loki}
use homelab_evidence_mcp.Server.Collect.Sound.{collect_loki-IsSound}

-- A client, what it answers, whether it cut the list and the number of records it could not use.
abbrev pub Searched : Type 0
Searched = Option (Answered × Bool × ℤ)

-- The source and the slot of the call were there in time.
abbrev pub is_called : Conditions → Bool
is_called env = is_alive env.before && env.slot

-- The call ran and gave a list that is neither cut nor short of records.
abbrev pub is_whole : Conditions → Searched → Bool
is_whole env none = false
is_whole env (some (inl e, cut, d)) = false
is_whole env (some (inr items, cut, d)) = is_called env && (not cut && leb_ℤ d (pos 0))

abbrev pub was_cut : Conditions → Searched → Bool
was_cut env none = false
was_cut env (some (a, cut, d)) = is_called env && cut

-- The items that the client gave.
abbrev pub given : Conditions → Searched → List Item
given env none = []
given env (some (inl e, cut, d)) = []
given env (some (inr items, cut, d)) = if is_called env then items else []

mark_empty-complete : (o : SourceOutcome) → (mark_empty o).complete ≡ o.complete
unfolding mark_empty
mark_empty-complete o = ground arith

mark_empty-truncated : (o : SourceOutcome) → (mark_empty o).truncated ≡ o.truncated
unfolding mark_empty
mark_empty-truncated o = ground arith

mark_discarded-complete :
    (d : ℤ) (o : SourceOutcome) → (mark_discarded d o).complete ≡ (leb_ℤ d (pos 0) && o.complete)
unfolding mark_discarded
mark_discarded-complete d o = ground arith

mark_discarded-truncated :
    (d : ℤ) (o : SourceOutcome) → (mark_discarded d o).truncated ≡ o.truncated
unfolding mark_discarded
mark_discarded-truncated d o = ground arith

mark_truncated-complete :
    (cut : Bool) (o : SourceOutcome)
    → (mark_truncated false cut o).complete ≡ (not cut && o.complete)
unfolding mark_truncated
mark_truncated-complete cut o = ground arith

mark_truncated-truncated :
    (cut : Bool) (o : SourceOutcome) → (mark_truncated false cut o).truncated ≡ cut
unfolding mark_truncated
mark_truncated-truncated cut o = ground arith

module _ (to_lower : Text → Text) (sanitize_err : SourceError → Text)
    (failures_text : ℕ → Text) where
  marks :
      (d : ℤ) (cut : Bool) (o : SourceOutcome)
      → ((mark_empty (mark_discarded d (mark_truncated false cut o))).complete
          ≡ (leb_ℤ d (pos 0) && (not cut && o.complete)))
        × ((mark_empty (mark_discarded d (mark_truncated false cut o))).truncated ≡ cut)
  marks d cut o = (
    ground (
      arith,
      mark_empty-complete (mark_discarded d (mark_truncated false cut o)),
      mark_discarded-complete d (mark_truncated false cut o),
      mark_truncated-complete cut o,
    ),
    ground (
      arith,
      mark_empty-truncated (mark_discarded d (mark_truncated false cut o)),
      mark_discarded-truncated d (mark_truncated false cut o),
      mark_truncated-truncated cut o,
    ),
  )

  -- What the call reports: it is whole just when it ran and gave a list.
  with_source_timeout-failed :
      (env : Conditions) (name : Text) (kind : SourceKind) (e : SourceError)
      → ((with_source_timeout to_lower sanitize_err env name kind (inl e)).0.complete ≡ false)
        × ((with_source_timeout to_lower sanitize_err env name kind (inl e)).1 ≡ [])
  unfolding with_source_timeout source_error_outcome
  with_source_timeout-failed env name kind e = ground arith

  with_source_timeout-answered :
      (env : Conditions) (name : Text) (kind : SourceKind) (items : List Item)
      → ((with_source_timeout to_lower sanitize_err env name kind (inr items)).0.complete
          ≡ is_called env)
        × ((with_source_timeout to_lower sanitize_err env name kind (inr items)).1
            ≡ (if is_called env then items else []))
  unfolding with_source_timeout source_error_outcome
  with_source_timeout-answered env name kind items = ground arith

  collect_loki-count :
      (env : Conditions) (name : Text) (client : Searched)
      → (collect_loki to_lower sanitize_err failures_text env name client).1 ≡ given env client
      → (collect_loki to_lower sanitize_err failures_text env name client).0.item_count
        ≡ length (given env client)
  collect_loki-count env name client h =
      (collect_loki-IsSound to_lower sanitize_err failures_text env name client).counted
      ∙ ap length h

  -- The collector of Loki says what became of the search, whatever the client and the
  -- contexts do: the outcome is complete just when the call ran and the client gave a list
  -- that it did not cut, from records that it could all use; it is marked as cut just when
  -- the call ran and the client cut; the items are the client's, and there are none where the
  -- call did not run or failed; and the count is theirs.
  pub collect_loki_lem :
      (env : Conditions) (name : Text) (client : Searched)
      → ((collect_loki to_lower sanitize_err failures_text env name client).0.complete
          ≡ is_whole env client)
        × ((collect_loki to_lower sanitize_err failures_text env name client).0.truncated
            ≡ was_cut env client)
        × ((collect_loki to_lower sanitize_err failures_text env name client).1 ≡ given env client)
        × ((collect_loki to_lower sanitize_err failures_text env name client).0.item_count
            ≡ length (given env client))
  unfolding collect_loki
  collect_loki_lem env name none =
      let e = missing_client (ascii "loki") in
      let call = with_source_timeout to_lower sanitize_err env name SourceKind.loki (inl e) in
      let (broken, empty) = with_source_timeout-failed env name SourceKind.loki e in
      let (complete, truncated) = marks (pos 0) false call.0 in
      (ground arith, truncated, empty, collect_loki-count env name none empty)
  collect_loki_lem env name (some (inl e, cut, d)) =
      let client : Searched = some (inl e, cut, d) in
      let call = with_source_timeout to_lower sanitize_err env name SourceKind.loki (inl e) in
      let (broken, empty) = with_source_timeout-failed env name SourceKind.loki e in
      let (complete, truncated) =
        marks (if is_called env then d else pos 0) (is_called env && cut) call.0 in
      (ground arith, truncated, empty, collect_loki-count env name client empty)
  collect_loki_lem env name (some (inr items, cut, d)) =
      let client : Searched = some (inr items, cut, d) in
      let call = with_source_timeout to_lower sanitize_err env name SourceKind.loki (inr items) in
      let (whole, all) = with_source_timeout-answered env name SourceKind.loki items in
      let (complete, truncated) =
        marks (if is_called env then d else pos 0) (is_called env && cut) call.0 in
      (ground arith, truncated, all, collect_loki-count env name client all)
