-- ===== src/Audit/Rotating/Tests.antt =====
-- Runs of the rotating file and its theorems at concrete inputs: a limit of four bytes and three
-- files.
use homelab_evidence_mcp.Prelude.{
  ◌≤◌, ◌≡◌, refl, false, true, none, some, ascii, arith, length, nat_beq,
}
use homelab_evidence_mcp.Audit.Rotating.{
  Disk, set, rename, Storage, Opening, RotatingFile, too_large, closed_pipe, storage_unavailable,
  open_regular_audit_file, open_rotating, shift, rotate_locked, reopen_locked, put_bytes,
  write_open, write, close,
}
use homelab_evidence_mcp.Audit.Rotating.Held.{IsCounted, IsHealthy}
use homelab_evidence_mcp.Audit.Rotating.Written.{EndsWith, write-IsCounted, write-EndsWith}
use homelab_evidence_mcp.Audit.Rotating.Recovers.{write-healthy}

program : Unit {0}
unfolding rename open_regular_audit_file open_rotating shift rotate_locked reopen_locked put_bytes
    write_open write close
program = tt

abbrev fine : Opening
fine = record {
  opens = true;
  lstat_ok = true;
  symlink = false;
  regular = true;
  stat_ok = true;
  same = true;
  chmod_ok = true;
  truncate_ok = true;
}

abbrev storage : Storage
storage = record {
  close_ok = true;
  remove_ok = λ i. true;
  rename_ok = λ i. true;
  reopening = fine;
  stat_ok = true;
  emptying = fine;
  written = 0;
  write_ok = true;
}

-- The primary file cannot be renamed.
abbrev stuck : Storage
stuck = record storage { rename_ok = λ i. nat_beq i 2 }

abbrev file : RotatingFile
file = record { max_bytes = 4; max_files = 3; size = 3; is_open = true; closed = false }

abbrev disk : Disk
disk = set 0 (some (ascii "abc")) (set 1 (some (ascii "old")) (λ i. none))

rotated : (write storage (ascii "de") (file, disk)).1.1 1 ≡ some (ascii "abc")
unfolding program
rotated = refl

oldest : (write storage (ascii "de") (file, disk)).1.1 2 ≡ some (ascii "old")
unfolding program
oldest = refl

too_long : (write storage (ascii "defgh") (file, disk)).0 ≡ (0, some too_large)
unfolding program
too_long = refl

after_close : (write storage (ascii "d") ((close storage file).1, disk)).0 ≡ (0, some closed_pipe)
unfolding program
after_close = refl

-- A rotation that stops between two files leaves the file closed.
abbrev stopped : RotatingFile × Disk
stopped = (write stuck (ascii "de") (file, disk)).1

stops : (write stuck (ascii "de") (file, disk)).0 ≡ (0, some storage_unavailable)
unfolding program
stops = refl

-- The next rotation then removes the file that had already moved.
lost : (write storage (ascii "de") stopped).1.1 2 ≡ none
unfolding program
lost = refl

counted : IsCounted (file, disk)
counted k = refl

write-IsCounted_example : IsCounted (write stuck (ascii "de") (file, disk)).1
write-IsCounted_example = write-IsCounted stuck (ascii "de") (file, disk) counted

written : (write storage (ascii "de") (file, disk)).0 ≡ (2, none)
unfolding program
written = refl

write-EndsWith_example :
    (2 ≡ length (ascii "de"))
    × EndsWith storage (ascii "de") 4 (ascii "abc") (write storage (ascii "de") (file, disk)).1.1
write-EndsWith_example = write-EndsWith storage (ascii "de") 2 file disk counted written

healthy : IsHealthy storage
healthy = (refl, (λ i. (refl, refl)), refl, refl, (refl, refl, refl), (refl, refl, refl))

left_open : stopped.0.closed ≡ false
unfolding program
left_open = refl

limit : length (ascii "de") ≤ stopped.0.max_bytes
unfolding program
limit = omega arith

write-healthy_example : (write storage (ascii "de") (stopped.0, stopped.1)).0 ≡ (2, none)
write-healthy_example =
    write-healthy storage (ascii "de") stopped.0 stopped.1 healthy left_open limit

rotates : (rotate_locked storage (file, disk)).0 ≡ none
unfolding program
rotates = refl
