-- ===== src/Server/Window.antt =====
-- `parseWindow` of internal/mcpserver/collectors.go. `time.Parse` and `time.ParseDuration` are
-- arguments; a duration is a number of nanoseconds.
mod Tests
use homelab_evidence_mcp.Prelude.{
  ℕ, ◌+◌, ◌-◌, ◌≤◌, ◌<◌, ◌≡◌, refl, ◌⊎◌, inl, inr, Bool, true, false, not, ◌||◌, ◌&&◌, Option, none,
  some, Text, text_beq, ltb, leb, if◌then◌else◌, arith, Option-cases, Sum-cases, Bool-cases, [],
}
use homelab_evidence_mcp.Prelude.Int.{ℤ, pos, negsuc, pos_part, neg_part, leb_ℤ, ltb_ℤ}
use homelab_evidence_mcp.Evidence.{Time}

pub data WindowError : Type 0 where
  invalid_end invalid_start invalid_duration duration_too_long start_not_before_end : WindowError
  window_too_long : WindowError

-- t.Add(-d)
abbrev pub time_back : Time → ℤ → Time
time_back t d = t + neg_part d - pos_part d

-- The last two checks.
unfoldable pub check_window : ℤ → Time → Time → WindowError ⊎ Time × Time
check_window max start end =
    if not (ltb start end)
    then inl start_not_before_end
    else if ltb_ℤ max (pos (end - start))
    then inl window_too_long
    else inr (start, end)

module _ (parse_time : Text → Option Time) (parse_duration : Text → Option ℤ) where
  -- The end of the window; `none` is the error.
  unfoldable pub window_end : Time → Text → Option Time
  window_end now end_text = if text_beq end_text [] then some now else parse_time end_text

  unfoldable pub window_start : Time → Text → Text → ℤ → ℤ → WindowError ⊎ Time
  window_start end start_text duration_text def max =
      if not (text_beq start_text [])
      then (elim (parse_time start_text) [ none ↦ inl invalid_start | some t ↦ inr t ])
      else if not (text_beq duration_text [])
      then (elim (parse_duration duration_text) [
        | none ↦ inl invalid_duration
        | some d ↦
            if leb_ℤ d (pos 0)
            then inl invalid_duration
            else if ltb_ℤ max d
            then inl duration_too_long
            else inr (time_back end d)
      ])
      else inr (time_back end def)

  unfoldable pub parse_window : Time → Text → Text → Text → ℤ → ℤ → WindowError ⊎ Time × Time
  parse_window now start_text end_text duration_text def max = elim (window_end now end_text) [
    | none ↦ inl invalid_end
    | some end ↦ elim (window_start end start_text duration_text def max) [
      | inl e ↦ inl e
      | inr start ↦ check_window max start end
    ]
  ]

  -- A window that `parseWindow` accepts starts before it ends and is not longer than the limit.
  pub parse_window_lem :
      (now : Time) (start_text end_text duration_text : Text) (def max : ℤ) (start end : Time)
      → parse_window now start_text end_text duration_text def max ≡ inr (start, end)
      → (start < end) × (leb_ℤ (pos (end - start)) max ≡ true)
  unfolding parse_window check_window
  parse_window_lem now start_text end_text duration_text def max start end h =
      elim (Option-cases (window_end now end_text)) [
        | inl e ↦ absurd (ground arith)
        | inr (stop, e) ↦ elim (Sum-cases (window_start stop start_text duration_text def max)) [
          | inl (err, f) ↦ absurd (ground arith)
          | inr (begin, f) ↦ ground arith
        ]
      ]

  -- A duration that can be parsed, is positive, within the limit and not longer than the time
  -- since year 1 gives the window of just that length up to the given end, or up to the clock
  -- when no end is given.
  pub parse_window-duration :
      (now end : Time) (end_text duration_text : Text) (n : ℕ) (def max : ℤ)
      → window_end now end_text ≡ some end
      → text_beq duration_text [] ≡ false
      → parse_duration duration_text ≡ some (pos n)
      → 0 < n
      → n ≤ end
      → leb_ℤ (pos n) max ≡ true
      → parse_window now [] end_text duration_text def max ≡ inr (end - n, end)
  unfolding parse_window check_window window_start text_beq
  parse_window-duration now end end_text duration_text n def max he hd hp positive fits within =
      let length : end - (end - n) ≡ n = omega arith in
      let before : ltb (end - n) end ≡ true = ground arith in
      ground (arith, he, hd, hp, length, before)
