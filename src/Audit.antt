-- ===== src/Audit.antt =====
-- The logger of internal/audit/audit.go. `json.Marshal` and what the writer does with a line are
-- arguments.
pub mod Rotating
mod Tests
use mathlib.Core.List.{append_assoc, append-nil}
use homelab_evidence_mcp.Prelude.{
  ℕ, suc, ◌+◌, ◌≡◌, refl, ◌∙◌, ap, sym, Bool, true, false, not, ◌||◌, ◌&&◌, List, [], ◌∷◌, ◌++◌,
  Option, none, some, Text, ascii, nat_eq, ◌==◌, if◌then◌else◌, length, length-append, arith,
  Bool-cases, Option-cases, inl, inr,
}
use homelab_evidence_mcp.Prelude.Int.{ℤ}
use homelab_evidence_mcp.Evidence.{Time}

-- An event; a zero time is `none`.
pub record Event : Type 0 where
  pub time : Option Time
  pub action : Text
  pub tool : Text
  pub service_id : Text
  pub status : Text
  pub duration_ms : ℤ
  pub detail : Text

-- The logger, with the lines that were handed to its two writers.
pub record Logger : Type 0 where
  pub out : List Text
  pub diagnostic : List Text
  pub failure_reported : Bool

-- What a write returns: the number of bytes and whether there is an error.
pub record Written : Type 0 where
  pub bytes : ℕ
  pub failed : Bool

unfoldable pub new_logger : Logger
new_logger = record { out = []; diagnostic = []; failure_reported = false }

abbrev pub with_time : Time → Event → Event
with_time now e = record e { time = elim e.time [ none ↦ some now | some t ↦ some t ] }

-- The write of a line went through.
abbrev pub is_whole : Written → Text → Bool
is_whole w line = not w.failed && w.bytes == length line

-- The state after a line was handed to the writer.
unfoldable pub after_write : Text → Written → Logger → Logger
after_write line w l =
    let l1 = record l { out = l.out ++ line ∷ [] } in
    if is_whole w line
    then record l1 { failure_reported = false }
    else if l.failure_reported
    then l1
    else record l1 {
      failure_reported = true;
      diagnostic = l.diagnostic ++ ascii "audit write failed\n" ∷ [];
    }

-- One call of `Log`: the event, the clock, and what the write will return.
pub record Entry : Type 0 where
  pub event : Event
  pub now : Time
  pub written : Written

module _ (marshal : Event → Option Text) where
  abbrev pub line_of : Entry → Option Text
  line_of x = elim (marshal (with_time x.now x.event)) [
    | none ↦ none
    | some b ↦ some (b ++ ascii "\n")
  ]

  unfoldable pub log : Entry → Logger → Logger
  log x l = elim (line_of x) [ none ↦ l | some line ↦ after_write line x.written l ]

  unfoldable pub log_all : List Entry → Logger → Logger
  log_all [] l = l
  log_all (x ∷ rest) l = log_all rest (log x l)

  -- The lines of the entries that can be encoded.
  abbrev pub lines : List Entry → List Text
  lines [] = []
  lines (x ∷ rest) = elim (line_of x) [ none ↦ lines rest | some line ↦ line ∷ lines rest ]

  -- The number of failed writes that do not follow another one; the first argument says whether the
  -- write before has failed.
  abbrev pub outages : Bool → List Entry → ℕ
  outages down [] = 0
  outages down (x ∷ rest) = elim (line_of x) [
    | none ↦ outages down rest
    | some line ↦
        if is_whole x.written line
        then outages false rest
        else if down
        then outages true rest
        else suc (outages true rest)
  ]

  log_all-from :
      (xs : List Entry) (l : Logger)
      → (length (log_all xs l).diagnostic ≡ length l.diagnostic + outages l.failure_reported xs)
        × ((log_all xs l).out ≡ l.out ++ lines xs)
  unfolding log_all log after_write
  log_all-from [] l = (omega arith, sym (append-nil l.out))
  log_all-from (x ∷ xs) l = elim (Option-cases (marshal (with_time x.now x.event))) [
    | inl e ↦ ground (arith, log_all-from xs l)
    | inr (b, e) ↦
        let line = b ++ ascii "\n" in
        let l1 : Logger = after_write line x.written l in
        ground (
          arith,
          log_all-from xs l1,
          append_assoc l.out (line ∷ []) (lines xs),
          length-append l.diagnostic (ascii "audit write failed\n" ∷ []),
        )
  ]

  -- A logger hands every event that can be encoded to its writer as one line, in order,
  -- whatever the writes return; and it reports an outage of the writer once: the diagnostics
  -- are as many as the failed or short writes that come first or follow a whole one.
  pub log_all_lem :
      (xs : List Entry)
      → ((log_all xs new_logger).out ≡ lines xs)
        × (length (log_all xs new_logger).diagnostic ≡ outages false xs)
  unfolding new_logger
  log_all_lem xs = ground (arith, log_all-from xs new_logger)
