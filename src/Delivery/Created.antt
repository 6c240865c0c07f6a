-- ===== src/Delivery/Created.antt =====
-- fs/file.cc and server/servermodule.cc together: a new file, from mknod to the interests for it.
use mathlib.Core.List.{append-nil}
use ndnfs_port.Prelude.{
  ℕ, zero, suc, ◌<◌, ◌/◌, ◌%◌, ◌+◌, pos, Bytes, ◌≡◌, ◌≢◌, refl, ap, sym, subst, ◌∙◌, none, some, [],
  ◌++◌, take, drop, length, length-take, arith, to_int,
}
use ndnfs_port.Exec.{ok, run}
use ndnfs_port.External.{Env}
use ndnfs_port.External.Types.{Name}
use ndnfs_port.External.Table.{path_key, version_key}
use ndnfs_port.External.Table.Rows.{select-insert_self}
use ndnfs_port.External.Posix.{o_rdwr, o_create, overwrite}
use ndnfs_port.External.Documented.{Documented}
use ndnfs_port.World.{World, contents}
use ndnfs_port.Fs.Config.{abs_path}
use ndnfs_port.Fs.FileType.{format, s_ifreg}
use ndnfs_port.Fs.File.{access_mode, new_row, ndnfs_mknod}
use ndnfs_port.Fs.File.Creation.{ndnfs_mknod-regular}
use ndnfs_port.Server.Config.{server_path}
use ndnfs_port.Server.Name.Forms.{ArePlain, joined}
use ndnfs_port.Delivery.{on_interests, segment_interests}
use ndnfs_port.Delivery.Written.{saved, ndnfs_write-on_interests}

-- Nothing is left of an empty file.
overwrite-nil : (x : Bytes) → overwrite [] 0 x ≡ x
overwrite-nil x = ap (λ t. x ++ t) (drop-nil (length x)) ∙ append-nil x
  where
    drop-nil : (n : ℕ) → ◌≡◌ {A = Bytes} (drop n []) []
    drop-nil zero = refl
    drop-nil (suc n) = refl

module _ (E : Env) (D : Documented E) (cs : Name) (path buf : Bytes)
    (mode dev made now flags : ℕ) where
  -- The path's new file, with its rows.
  abbrev pub with_file : World E → E.posix.Os → World E
  with_file w o = record w {
    files = E.files.insert w.files path (new_row path mode (to_int made));
    versions = E.versions.insert w.versions (path, to_int made) (record { size = none });
    os = o;
  }

  -- A regular file that its owner can read is made at time `made` on a path that has no row; the file
  -- does not exist yet, and can be opened and closed. Less than 2 GiB are written to its start, of
  -- which `pwrite` writes `k` bytes, at least one, and it is released after writing, at a time below
  -- 2 ^ 31. The server finds it in the same directory, and the client's name for it, of components
  -- without markers, spells the server's prefix and the path, which is not empty. If interests for
  -- all segments of that version then arrive in order, the contents of the packets sent, one behind
  -- the other, are the first `k` bytes of the buffer.
  pub ndnfs_mknod-on_interests :
      (w : World E) {k fd fd' : ℕ} {o o' p p' : E.posix.Os}
      → E.files.select w.files path ≡ none
      → format mode ≡ s_ifreg
      → mode / 256 % 2 ≡ 1
      → E.posix.open_file w.os (abs_path E path) o_create mode ≡ (ok fd, o)
      → E.posix.close_file o fd ≡ (ok tt, o')
      → E.posix.open_file o' (abs_path E path) o_rdwr 0 ≡ (ok fd', p)
      → E.posix.pwrite p fd' buf (pos 0) ≡ (ok k, p')
      → 0 < k
      → length buf < 2147483648
      → access_mode flags ≢ 0
      → server_path E path ≡ abs_path E path
      → now < 2147483648
      → ArePlain cs
      → joined E cs ≡ E.fs_prefix ++ path
      → path ≢ []
      → contents
          (on_interests E
            (saved E D cs path buf 0 now flags (run (ndnfs_mknod E path mode dev made) w).1)
            (segment_interests E cs now 0 (length (take k buf) / 8192 + 1))).sent
        ≡ contents w.sent ++ take k buf
  ndnfs_mknod-on_interests w {k} {fd} {fd'} {o} {o'} free regular readable opened closed reopened
        written more small writes same_dir recent plain spelled some_path =
      let (e, empty) =
        ndnfs_mknod-regular E D path mode dev made w free regular readable opened closed in
      let new = new_row path mode (to_int made) in
      let found : E.files.select (with_file w o').files path ≡ some new =
        rw (select-insert_self E.files D.files w.files path new, free) refl in
      let whole : overwrite [] 0 (take k buf) ≡ take k buf = overwrite-nil (take k buf) in
      let short : length (overwrite [] 0 (take k buf)) < 2147483648 =
        rw whole (omega (arith, length-take k buf)) in
      let served =
        ndnfs_write-on_interests E D cs path buf 0 now flags (with_file w o') found empty reopened
          written more small writes same_dir short recent plain spelled some_path in
      subst
        (λ r.
          contents
            (on_interests E (saved E D cs path buf 0 now flags r.1)
              (segment_interests E cs now 0 (length (take k buf) / 8192 + 1))).sent
          ≡ contents w.sent ++ take k buf)
        (sym e)
        (subst
          (λ x.
            contents
              (on_interests E (saved E D cs path buf 0 now flags (with_file w o'))
                (segment_interests E cs now 0 (length x / 8192 + 1))).sent
            ≡ contents w.sent ++ x)
          whole served)
