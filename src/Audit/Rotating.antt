-- ===== src/Audit/Rotating.antt =====
-- `RotatingFile` of internal/audit/rotating.go on a disk with operations that may fail. A file is
-- named by the number after the path, zero for the path itself. Nothing else writes these files.
pub mod Shift
pub mod Held
pub mod Written
pub mod Recovers
mod Tests
use homelab_evidence_mcp.Prelude.{
  ℕ, zero, suc, ◌+◌, ◌-◌, ◌⊎◌, inl, inr, Bool, false, true, not, ◌&&◌, ◌||◌, List, [], ◌∷◌, ◌++◌,
  Option, none, some, Text, text_beq, nat_beq, ltb, leb, length, take, if◌then◌else◌,
}
use homelab_evidence_mcp.Prelude.Int.{ℤ, pos, pos_part, leb_ℤ}

abbrev pub Disk : Type 0
Disk = ℕ → Option Text

abbrev pub set : ℕ → Option Text → Disk → Disk
set i v d j = if nat_beq i j then v else d j

-- os.Rename, where a missing file is no error for the caller.
unfoldable pub rename : ℕ → ℕ → Disk → Disk
rename from to d = elim (d from) [ none ↦ d | some s ↦ set from none (set to (some s) d) ]

-- What each step of `openRegularAuditFile` gives.
pub record Opening : Type 0 where
  pub opens : Bool
  pub lstat_ok : Bool
  pub symlink : Bool
  pub regular : Bool
  pub stat_ok : Bool
  pub same : Bool
  pub chmod_ok : Bool
  pub truncate_ok : Bool

-- What the operations of one call give: `written` bounds the bytes that a write puts down.
pub record Storage : Type 0 where
  pub close_ok : Bool
  pub remove_ok : ℕ → Bool
  pub rename_ok : ℕ → Bool
  pub reopening : Opening
  pub stat_ok : Bool
  pub emptying : Opening
  pub written : ℕ
  pub write_ok : Bool

pub record RotatingFile : Type 0 where
  pub max_bytes : ℕ
  pub max_files : ℕ
  pub size : ℕ
  pub is_open : Bool
  pub closed : Bool

pub data AuditError : Type 0 where
  path_required directory_failed open_failed closed_pipe too_large storage_unavailable
        write_failed :
      AuditError

abbrev pub content : Option Text → Text
content none = []
content (some s) = s

-- The checks after the file was opened.
abbrev pub is_fine : Opening → Bool
is_fine o = o.lstat_ok && (not o.symlink && (o.regular && (o.stat_ok && (o.same && o.chmod_ok))))

-- `openRegularAuditFile`: whether there is a file, and the disk. It makes a file that is missing.
unfoldable pub open_regular_audit_file : Bool → Opening → Disk → Bool × Disk
open_regular_audit_file append_mode o d =
    if not o.opens
    then (false, d)
    else let made = set 0 (some (content (d 0))) d in
      if not (is_fine o)
      then (false, made)
      else if append_mode
      then (true, made)
      else if o.truncate_ok
      then (true, set 0 (some []) made)
      else (false, made)

unfoldable pub open_rotating :
    Text → Bool → Bool → ℤ → ℤ → Storage → Disk → (AuditError ⊎ RotatingFile) × Disk
open_rotating path directory_ok in_place max_bytes max_files st d =
    if text_beq path []
    then (inl path_required, d)
    else if not directory_ok && not in_place
    then (inl directory_failed, d)
    else let (opened, d') = open_regular_audit_file true st.reopening d in
      if not opened || not st.stat_ok then (inl open_failed, d') else (
        inr (record {
          max_bytes = if leb_ℤ max_bytes (pos 0) then 10485760 else pos_part max_bytes;
          max_files = if leb_ℤ max_files (pos 0) then 3 else pos_part max_files;
          size = length (content (d' 0));
          is_open = true;
          closed = false;
        }),
        d',
      )

-- The loop of `rotateLocked`, from the highest number down: whether it came through, and the disk.
unfoldable pub shift : Storage → ℕ → Disk → Bool × Disk
shift st zero d = (true, d)
shift st (suc i) d =
    let removed = set (suc i) none d in
    let rest = shift st i (rename i (suc i) removed) in
    if not (st.remove_ok (suc i))
    then (false, d)
    else if not (st.rename_ok (suc i))
    then (false, removed)
    else rest

unfoldable pub rotate_locked :
    Storage → RotatingFile × Disk → Option AuditError × (RotatingFile × Disk)
rotate_locked st (r, d) =
    let without = record r { is_open = false } in
    if r.is_open && not st.close_ok
    then (some storage_unavailable, (without, d))
    else let (moved, shifted) = shift st (r.max_files - 1) d in
      if not moved
      then (some storage_unavailable, (without, shifted))
      else let (opened, emptied) = open_regular_audit_file false st.emptying shifted in
        if not opened
        then (some storage_unavailable, (without, emptied))
        else (none, (record r { is_open = true; size = 0 }, emptied))

unfoldable pub reopen_locked :
    Storage → RotatingFile × Disk → Option AuditError × (RotatingFile × Disk)
reopen_locked st (r, d) =
    let (opened, d') = open_regular_audit_file true st.reopening d in
    if not opened || not st.stat_ok
    then (some storage_unavailable, (r, d'))
    else (none, (record r { is_open = true; size = length (content (d' 0)) }, d'))

-- r.f.Write(p) and the count.
unfoldable pub put_bytes :
    Storage → Text → RotatingFile × Disk → (ℕ × Option AuditError) × (RotatingFile × Disk)
put_bytes st p (r, d) =
    let part = if st.write_ok then p else take st.written p in
    (
      (length part, if st.write_ok then none else some write_failed),
      (record r { size = r.size + length part }, set 0 (some (content (d 0) ++ part)) d),
    )

-- The last part of `Write`, with the file open.
unfoldable pub write_open :
    Storage → Text → RotatingFile × Disk → (ℕ × Option AuditError) × (RotatingFile × Disk)
write_open st p (r, d) =
    if not (ltb r.max_bytes (r.size + length p))
    then put_bytes st p (r, d)
    else let (failed, s) = rotate_locked st (r, d) in
      elim failed [ some e ↦ ((0, some e), s) | none ↦ put_bytes st p s ]

-- `Write`: the number of bytes and the error.
unfoldable pub write :
    Storage → Text → RotatingFile × Disk → (ℕ × Option AuditError) × (RotatingFile × Disk)
write st p (r, d) =
    if r.closed
    then ((0, some closed_pipe), (r, d))
    else if ltb r.max_bytes (length p)
    then ((0, some too_large), (r, d))
    else if r.is_open
    then write_open st p (r, d)
    else let (failed, s) = reopen_locked st (r, d) in
      elim failed [ some e ↦ ((0, some e), s) | none ↦ write_open st p s ]

-- `Close`: whether it gave no error.
unfoldable pub close : Storage → RotatingFile → Bool × RotatingFile
close st r = (not r.is_open || st.close_ok, record r { closed = true; is_open = false })
