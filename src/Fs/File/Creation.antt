-- ===== src/Fs/File/Creation.antt =====
-- fs/file.cc, ndnfs_mknod: creating a file, and trying again.
use ndnfs_port.Prelude.{
  ◌/◌, ◌%◌, ◌==◌, true, ap, sym, ◌∙◌, pos, [], ℕ, neg, Bytes, ◌≡◌, ◌≢◌, refl, none, some, arith,
  to_int,
}
use ndnfs_port.Exec.{ok, returned, run}
use ndnfs_port.External.{Env}
use ndnfs_port.External.Table.{path_key, version_key}
use ndnfs_port.External.Table.Rows.{select-insert_self}
use ndnfs_port.External.Documented.{Documented}
use ndnfs_port.World.{World}
use ndnfs_port.External.Posix.{o_create}
use ndnfs_port.Fs.Config.{abs_path, enoent}
use ndnfs_port.Fs.FileType.{format, s_ifreg}
use ndnfs_port.Fs.File.{new_row, create_node, ndnfs_mknod}

module _ (E : Env) (D : Documented E) (path : Bytes) (mode dev now : ℕ) (w : World E) where
  -- The state after mknod.
  abbrev made : World E
  made = (run (ndnfs_mknod E path mode dev now) w).1

  mknod-files :
      E.files.select w.files path ≡ none
      → made.files ≡ E.files.insert w.files path (new_row path mode (to_int now))
  unfolding ndnfs_mknod
  mknod-files free = ground arith

  mknod-taken :
      (mode' dev' now' : ℕ) (v : World E)
      → E.files.select v.files path ≢ none
      → run (ndnfs_mknod E path mode' dev' now') v ≡ (returned (neg enoent), v)
  unfolding ndnfs_mknod
  mknod-taken mode' dev' now' v taken = ground arith

  -- On a path that has no row mknod leaves one, with the time as the current version, also where the file
  -- itself could not be made; a second mknod on that path then changes nothing and says ENOENT.
  pub ndnfs_mknod-again :
      (mode' dev' now' : ℕ)
      → E.files.select w.files path ≡ none
      → (E.files.select made.files path ≡ some (new_row path mode (to_int now)))
        × (run (ndnfs_mknod E path mode' dev' now') made ≡ (returned (neg enoent), made))
  ndnfs_mknod-again mode' dev' now' free =
      let there : E.files.select made.files path ≡ some (new_row path mode (to_int now)) =
        rw
          (
            mknod-files free,
            select-insert_self E.files D.files w.files path (new_row path mode (to_int now)),
            free,
          )
          refl in
      (there, mknod-taken mode' dev' now' made (λ gone. cc))

  -- A regular file is made, closed again, and empty.
  pub ndnfs_mknod-regular :
      {fd : ℕ} {o o' : E.posix.Os}
      → E.files.select w.files path ≡ none
      → format mode ≡ s_ifreg
      → mode / 256 % 2 ≡ 1
      → E.posix.open_file w.os (abs_path E path) o_create mode ≡ (ok fd, o)
      → E.posix.close_file o fd ≡ (ok tt, o')
      → (run (ndnfs_mknod E path mode dev now) w ≡ (
        returned (pos 0),
        record w {
          files = E.files.insert w.files path (new_row path mode (to_int now));
          versions = E.versions.insert w.versions (path, to_int now) (record { size = none });
          os = o';
        },
      ))
        × (D.view.content o' (abs_path E path) ≡ some [])
  unfolding ndnfs_mknod create_node
  ndnfs_mknod-regular {fd} {o} {o'} free regular readable opened closed =
      let shut : (E.posix.close_file o fd).1 ≡ o' = ap (λ r. r.1) closed in
      let kind : (format mode == s_ifreg) ≡ true = ground arith in
      (
        rw (free, ndnfs_mknod, kind, create_node, opened, closed) refl,
        ap (λ x. D.view.content x (abs_path E path)) (sym shut)
            ∙ D.reads.close-content o fd (abs_path E path)
            ∙ D.writes.create-content w.os (abs_path E path) mode readable opened,
      )
