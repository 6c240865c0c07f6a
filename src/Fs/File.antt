-- ===== src/Fs/File.antt =====
-- fs/file.cc: open, mknod, read, write, truncate and unlink. Each handler is an action whose value is
-- the `int` that FUSE gets; `now` is what `time(0)` gives.
pub mod Outcomes
pub mod Written
pub mod Creation
pub mod Removal
use ndnfs_port.Prelude.{
  ℕ, ◌%◌, ℤ, pos, negsuc, neg, Bytes, Option, none, some, to_int, length, ◌==◌, ◌||◌, if◌then◌else◌,
  Bool, true, false,
}
use ndnfs_port.Exec.{Exec, pure, return, gets, call, ◌>>=◌, ◌>>◌}
use ndnfs_port.External.{Env}
use ndnfs_port.External.Types.{FileRow}
use ndnfs_port.External.Posix.{o_create, o_rdwr, o_rdonly}
use ndnfs_port.World.{World, buffer, sys, try, sys_read, set_files, set_versions, give}
use ndnfs_port.Mime.{mime_infer}
use ndnfs_port.Fs.Config.{abs_path, enoent, eacces, sqlite_row}
use ndnfs_port.Fs.FileType.{
  file_type_code, file_type_of_mode, signature_state_code, not_ready, format, s_ifreg, s_ififo,
}
use ndnfs_port.Fs.Version.{duplicate_version, remove_file_entry}

-- `fi->flags & O_ACCMODE`
abbrev pub access_mode : ℕ → ℕ
access_mode flags = flags % 4

-- Of the two negative results `duplicate_version` could have, any.
abbrev is_negative : ℤ → Bool
is_negative r = elim r [ pos _ ↦ false | negsuc _ ↦ true ]

abbrev or_enoent : {S A : Type 0} → Option A → Exec S A
or_enoent none = return (neg enoent)
or_enoent (some a) = pure a

-- The row that mknod inserts.
unfoldable pub new_row : Bytes → ℕ → ℤ → FileRow
unfolding file_type_of_mode file_type_code signature_state_code
new_row path mode ver = record {
  current_version = ver;
  mime_type = (mime_infer path).1;
  ready_signed = signature_state_code not_ready;
  file_type = file_type_code (file_type_of_mode mode);
}

module _ (E : Env) where
  -- SELECT current_version FROM file_system WHERE path = ?; no row is ENOENT.
  unfoldable pub current_row : Bytes → Exec (World E) FileRow
  current_row path = do row ← gets (λ w. E.files.select w.files path); or_enoent row

  unfoldable pub ndnfs_open : Bytes → ℕ → ℕ → Exec (World E) ℤ
  unfolding current_row abs_path duplicate_version
  ndnfs_open path flags now = do
    fd ← sys E (λ o. E.posix.open_file o (abs_path E path) flags 0)
    try E (λ o. E.posix.close_file o fd)
    row ← current_row path
    let mode = access_mode flags
    if mode == 1 || mode == 2
        then (do
          done ← call (duplicate_version E path row.current_version (to_int now))
          if is_negative done then return (neg eacces) else pure (pos 0))
        else pure (pos 0)

  -- The file itself: open with O_CREAT | O_EXCL, mkfifo, or mknod.
  unfoldable pub create_node : Bytes → ℕ → ℕ → Exec (World E) (Unit {0})
  unfolding format
  create_node full_path mode dev =
      if format mode == s_ifreg
      then (do
        fd ← sys E (λ o. E.posix.open_file o full_path o_create mode)
        sys E (λ o. E.posix.close_file o fd))
      else if format mode == s_ififo
      then sys E (λ o. E.posix.mkfifo o full_path mode)
      else sys E (λ o. E.posix.mknod o full_path mode dev)

  -- The rows are written before the file is made, and stay where that fails.
  unfoldable pub ndnfs_mknod : Bytes → ℕ → ℕ → ℕ → Exec (World E) ℤ
  unfolding create_node abs_path
  ndnfs_mknod path mode dev now = do
    row ← gets (λ w. E.files.select w.files path)
    elim row [
      | some _ ↦ return (neg enoent)
      | none ↦ do
        let ver = to_int now
        set_versions E (λ rows. E.versions.insert rows (path, ver) (record { size = none }))
        set_files E (λ rows. E.files.insert rows path (new_row path mode ver))
        create_node (abs_path E path) mode dev
        pure (pos 0)
    ]

  unfoldable pub ndnfs_read : Bytes → ℕ → ℤ → Exec (World E) ℤ
  unfolding current_row abs_path
  ndnfs_read path size offset = do
    current_row path
    fd ← sys E (λ o. E.posix.open_file o (abs_path E path) o_rdonly 0)
    bytes ← sys_read E (λ o. E.posix.pread o fd size offset)
    give E (buffer bytes)
    try E (λ o. E.posix.close_file o fd)
    pure (to_int (length bytes))

  unfoldable pub ndnfs_write : Bytes → Bytes → ℤ → Exec (World E) ℤ
  unfolding current_row abs_path
  ndnfs_write path buf offset = do
    current_row path
    fd ← sys E (λ o. E.posix.open_file o (abs_path E path) o_rdwr 0)
    written ← sys E (λ o. E.posix.pwrite o fd buf offset)
    try E (λ o. E.posix.close_file o fd)
    pure (to_int written)

  -- On success it returns the result code of the SELECT, which is SQLITE_ROW.
  unfoldable pub ndnfs_truncate : Bytes → ℤ → Exec (World E) ℤ
  unfolding current_row abs_path
  ndnfs_truncate path len = do
    current_row path
    sys E (λ o. E.posix.truncate o (abs_path E path) len)
    pure (pos sqlite_row)

  unfoldable pub ndnfs_unlink : Bytes → Exec (World E) ℤ
  unfolding remove_file_entry abs_path
  ndnfs_unlink path = do
    call (remove_file_entry E path)
    set_files E (λ rows. E.files.delete rows path)
    sys E (λ o. E.posix.unlink o (abs_path E path))
    pure (pos 0)
