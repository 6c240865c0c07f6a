-- ===== src/Fs/Version.antt =====
-- fs/version.cc: the rows of `file_versions`, and the stubs that the handlers still call.
use ndnfs_port.Prelude.{
  ℤ, pos, negsuc, ◌+◌, Bytes, Option, none, some, ◌==◌, Bool, ltb, eqb_ℤ, ◌||◌, to_u64, to_int,
  sub_int, if◌then◌else◌,
}
use ndnfs_port.Exec.{Exec, next, pure, gets, call, ◌>>=◌, ◌>>◌}
use ndnfs_port.External.{Env}
use ndnfs_port.World.{World, set_files, set_versions}
use ndnfs_port.Fs.Config.{sqlite_ok, sqlite_done}
use ndnfs_port.Fs.Segment.{seek_segment, segment_to_size, truncate_segment, remove_segments}

-- sqlite3_column_int, which reads NULL as 0.
abbrev pub column_int : Option ℤ → ℤ
column_int none = pos 0
column_int (some n) = n

-- `res != SQLITE_OK && res != SQLITE_DONE` is the failure.
abbrev pub succeeded : ℤ → Bool
succeeded res = eqb_ℤ res (pos sqlite_ok) || eqb_ℤ res (pos sqlite_done)

module _ (E : Env) where
  unfoldable pub duplicate_version : Bytes → ℤ → ℤ → Exec (World E) ℤ
  duplicate_version path from_ver to_ver = pure (pos 0)

  unfoldable write_version : Bytes → ℤ → Bytes → ℤ → Exec (World E) ℤ
  write_version path ver buf offset = pure (pos 0)

  -- What is done where the file gets shorter.
  shorten_version : Bytes → ℤ → ℤ → Exec (World E) ℤ
  unfolding seek_segment segment_to_size sub_int
  shorten_version path ver len = do
    let seg_end = seek_segment (to_int (to_u64 len))
    res ← λ w.
        let (r, rows) = E.update_size w.versions (path, ver) (to_int (to_u64 len)) seg_end in
        (next r, record w { versions = rows })
    if succeeded res
        then (do
          let tail = sub_int len (segment_to_size seg_end)
          call (truncate_segment E path ver seg_end tail)
          call (remove_segments E path ver (to_int (to_u64 seg_end + 1)))
          pure (pos 0))
        else pure (negsuc 0)

  -- The sizes are compared as `size_t`. No handler calls this function.
  unfoldable truncate_version : Bytes → ℤ → ℤ → Exec (World E) ℤ
  unfolding shorten_version
  truncate_version path ver len = do
    row ← gets (λ w. E.versions.select w.versions (path, ver))
    elim row [
      | none ↦ pure (negsuc 0)
      | some r ↦
          if to_u64 len == to_u64 (column_int r.size)
          then pure (pos 0)
          else if ltb (to_u64 len) (to_u64 (column_int r.size))
          then shorten_version path ver len
          else pure (negsuc 0)
    ]

  unfoldable remove_version : Bytes → ℤ → Exec (World E) ℤ
  unfolding remove_segments
  remove_version path ver = do
    call (remove_segments E path ver (pos 0))
    set_versions E (λ rows. E.versions.delete rows (path, ver))
    pure (pos 0)

  -- Deletes the row of `file_system`, and leaves versions and segments.
  unfoldable pub remove_file_entry : Bytes → Exec (World E) ℤ
  remove_file_entry path = do set_files E (λ rows. E.files.delete rows path); pure (pos 0)
