-- ===== src/Fs/File/Removal.antt =====
-- fs/file.cc, ndnfs_unlink: what it removes.
use ndnfs_port.Prelude.{pos, neg, Bytes, ◌≡◌, ◌≢◌, none, ◌∙◌, arith}
use ndnfs_port.Exec.{ok, err, returned, run}
use ndnfs_port.External.{Env}
use ndnfs_port.External.Table.{path_key}
use ndnfs_port.External.Table.Rows.{select-delete_self, select-delete_ne}
use ndnfs_port.External.Documented.{Documented}
use ndnfs_port.World.{World}
use ndnfs_port.Fs.Config.{abs_path}
use ndnfs_port.Fs.File.{ndnfs_unlink}

module _ (E : Env) (D : Documented E) where
  unlink_files :
      (path : Bytes) (w : World E)
      → (run (ndnfs_unlink E path) w).1.files ≡ E.files.delete (E.files.delete w.files path) path
  unfolding ndnfs_unlink
  unlink_files path w = ground arith

  unlink_rest :
      (path : Bytes) (w : World E)
      → ((run (ndnfs_unlink E path) w).1.versions ≡ w.versions)
        × ((run (ndnfs_unlink E path) w).1.segments ≡ w.segments)
        × ((run (ndnfs_unlink E path) w).0 ≡ elim (E.posix.unlink w.os (abs_path E path)).0 [
          | ok _ ↦ returned (pos 0)
          | err e ↦ returned (neg e)
        ])
  unfolding ndnfs_unlink
  unlink_rest path w = (ground arith, ground arith, ground arith)

  -- Unlinking a path removes its row, and no other one, from file_system, even where the system call fails;
  -- the versions and the signatures stay. The result is that of the call.
  pub ndnfs_unlink_lem :
      (path : Bytes) (w : World E)
      → let x = run (ndnfs_unlink E path) w in
        (E.files.select x.1.files path ≡ none)
        × ((p : Bytes) → path ≢ p → E.files.select x.1.files p ≡ E.files.select w.files p)
        × (x.1.versions ≡ w.versions)
        × (x.1.segments ≡ w.segments)
        × (x.0 ≡ elim (E.posix.unlink w.os (abs_path E path)).0 [
          | ok _ ↦ returned (pos 0)
          | err e ↦ returned (neg e)
        ])
  ndnfs_unlink_lem path w = (
    rw (unlink_files path w) (select-delete_self E.files D.files _ path),
    λ p ne. rw (unlink_files path w) (
        select-delete_ne E.files D.files _ path p ne
        ∙ select-delete_ne E.files D.files w.files path p ne),
    (unlink_rest path w).0,
    (unlink_rest path w).1,
    (unlink_rest path w).2,
  )
