-- ===== src/Server/Window/Tests.antt =====
-- Runs of the window parser and its theorems at concrete inputs: a text is a number of bytes long.
use homelab_evidence_mcp.Prelude.{
  ◌-◌, ◌<◌, ◌≡◌, refl, inl, inr, Option, some, Text, ascii, text_beq, length, [], true,
}
use homelab_evidence_mcp.Prelude.Int.{ℤ, pos, leb_ℤ}
use homelab_evidence_mcp.Evidence.{Time}
use homelab_evidence_mcp.Server.Window.{
  check_window, window_end, window_start, parse_window, parse_window_lem, window_too_long,
}

program : Unit {0}
unfolding check_window window_end window_start parse_window text_beq
program = tt

abbrev parse_length : Text → Option Time
parse_length s = some (length s)

abbrev parse_span : Text → Option ℤ
parse_span s = some (pos (length s))

ordinary :
    parse_window parse_length parse_span 100 [] [] (ascii "five!") (pos 3) (pos 10) ≡ inr (95, 100)
unfolding program
ordinary = refl

too_long :
    parse_window parse_length parse_span 100 (ascii "x") [] [] (pos 3) (pos 10)
    ≡ inl window_too_long
unfolding program
too_long = refl

parse_window_lem_example : (95 < 100) × (leb_ℤ (pos (100 - 95)) (pos 10) ≡ true)
parse_window_lem_example =
    parse_window_lem parse_length parse_span 100 [] [] (ascii "five!") (pos 3) (pos 10) 95 100
      ordinary
