-- ===== src/Fs/Requests/Listed.antt =====
-- The invariant of the database that the server relies on: a file's current version is one of its
-- versions.
use mathlib.Core.Path.{subst₂}
use ndnfs_port.Prelude.{
  ℕ, ℤ, Bytes, ◌≡◌, sym, none, arith, inl, inr, Option-cases, to_int, List, [], ◌∷◌,
}
use ndnfs_port.Exec.{Exec, run}
use ndnfs_port.External.{Env}
use ndnfs_port.External.Table.{path_key, version_key}
use ndnfs_port.External.Documented.{Documented}
use ndnfs_port.World.{World}
use ndnfs_port.Fs.Requests.{
  Request, getattr, chmod, setxattr, open_file, read, readdir, mknod, write, truncate, release,
  unlink, mkdir, rmdir, statfs, access, utimens, link, readlink, symlink, rename, handle, serve,
}
use ndnfs_port.Fs.Requests.Frame.{
  Keeps, getattr-Keeps, chmod-Keeps, open-Keeps, read-Keeps, write-Keeps, truncate-Keeps,
  readdir-Keeps, mkdir-Keeps, rmdir-Keeps, statfs-Keeps, access-Keeps, utimens-Keeps, link-Keeps,
  symlink-Keeps, readlink-Keeps,
}
use ndnfs_port.Fs.Attribute.{ndnfs_setxattr}
use ndnfs_port.Fs.Release.{ndnfs_release}
use ndnfs_port.Fs.Release.Frame.{release_rows}
use ndnfs_port.Fs.Link.{ndnfs_rename}
use ndnfs_port.Fs.File.{new_row, ndnfs_mknod, ndnfs_unlink}
use ndnfs_port.Fs.Requests.Rows.{
  IsListed, update-IsListed, insert-IsListed, delete-IsListed, rename-IsListed,
}

module _ (E : Env) (D : Documented E) where
  -- A rename whose target has rows is not admitted.
  abbrev pub IsAdmitted : World E → Request → Type 0
  IsAdmitted w (rename from to) =
      (E.files.select w.files to ≡ none) × ((v : ℤ) → E.versions.select w.versions (to, v) ≡ none)
  IsAdmitted w _ = Unit

  -- At each request of a run.
  abbrev pub AreAdmitted : World E → List Request → Type 0
  AreAdmitted w [] = Unit
  AreAdmitted w (r ∷ rest) = IsAdmitted w r × AreAdmitted (run (handle E r) w).1 rest

  abbrev Good : World E → Type 0
  Good w = IsListed E w.files w.versions

  Keeps-Good : (m : Exec (World E) ℤ) (w : World E) → Keeps E m → Good w → Good (run m w).1
  Keeps-Good m w k h = rw (k.files w, k.versions w) h

  mknod-Good :
      (path : Bytes) (mode dev now : ℕ) (w : World E)
      → Good w
      → Good (run (ndnfs_mknod E path mode dev now) w).1
  unfolding ndnfs_mknod new_row
  mknod-Good path mode dev now w h = elim (Option-cases (E.files.select w.files path)) [
    | inl absent ↦
        let f : (run (ndnfs_mknod E path mode dev now) w).1.files
            ≡ E.files.insert w.files path (new_row path mode (to_int now)) =
          ground arith in
        let v : (run (ndnfs_mknod E path mode dev now) w).1.versions
            ≡ E.versions.insert w.versions (path, to_int now) (record { size = none }) =
          ground arith in
        subst₂ (IsListed E) (sym f) (sym v) (
          insert-IsListed E D w.files w.versions path (new_row path mode (to_int now))
            (record { size = none }) h absent)
    | inr (_, found) ↦
        let f : (run (ndnfs_mknod E path mode dev now) w).1.files ≡ w.files = ground arith in
        let v : (run (ndnfs_mknod E path mode dev now) w).1.versions ≡ w.versions = ground arith in
        subst₂ (IsListed E) (sym f) (sym v) h
  ]

  release-Good :
      (path : Bytes) (flags now : ℕ) (w : World E)
      → Good w
      → Good (run (ndnfs_release E path flags now) w).1
  release-Good path flags now w h = elim (release_rows E D path flags now w) [
    | inl (f, v) ↦ rw (f, v) h
    | inr (f, v) ↦
        rw (f, v)
          (update-IsListed E D w.files w.versions path (to_int now) (record { size = none }) h)
  ]

  unlink-Good : (path : Bytes) (w : World E) → Good w → Good (run (ndnfs_unlink E path) w).1
  unfolding ndnfs_unlink
  unlink-Good path w h =
      let f : (run (ndnfs_unlink E path) w).1.files
          ≡ E.files.delete (E.files.delete w.files path) path =
        ground arith in
      let v : (run (ndnfs_unlink E path) w).1.versions ≡ w.versions = ground arith in
      subst₂ (IsListed E) (sym f) (sym v)
        (delete-IsListed E D _ w.versions path (delete-IsListed E D w.files w.versions path h))

  rename-Good :
      (from to : Bytes) (w : World E)
      → IsAdmitted w (rename from to)
      → Good w
      → Good (run (ndnfs_rename E from to) w).1
  unfolding ndnfs_rename
  rename-Good from to w (free, free_versions) h =
      let f : (run (ndnfs_rename E from to) w).1.files ≡ E.files.rename w.files to from =
        ground arith in
      let v : (run (ndnfs_rename E from to) w).1.versions ≡ E.versions.rename w.versions to from =
        ground arith in
      subst₂ (IsListed E) (sym f) (sym v)
        (rename-IsListed E D w.files w.versions from to h free free_versions)

  pub handle-Good :
      (r : Request) (w : World E) → IsAdmitted w r → Good w → Good (run (handle E r) w).1
  unfolding handle
  handle-Good (getattr path) w a = Keeps-Good _ w (getattr-Keeps E path)
  handle-Good (chmod path mode) w a = Keeps-Good _ w (chmod-Keeps E path mode)
  handle-Good (setxattr path name value flags) w a = λ h. unfold ndnfs_setxattr in h
  handle-Good (open_file path flags now) w a = Keeps-Good _ w (open-Keeps E path flags now)
  handle-Good (read path size offset) w a = Keeps-Good _ w (read-Keeps E path size offset)
  handle-Good (readdir path full) w a = Keeps-Good _ w (readdir-Keeps E path full)
  handle-Good (mknod path mode dev now) w a = mknod-Good path mode dev now w
  handle-Good (write path buf offset) w a = Keeps-Good _ w (write-Keeps E path buf offset)
  handle-Good (truncate path len) w a = Keeps-Good _ w (truncate-Keeps E path len)
  handle-Good (release path flags now) w a = release-Good path flags now w
  handle-Good (unlink path) w a = unlink-Good path w
  handle-Good (mkdir path mode) w a = Keeps-Good _ w (mkdir-Keeps E path mode)
  handle-Good (rmdir path) w a = Keeps-Good _ w (rmdir-Keeps E path)
  handle-Good (statfs path) w a = Keeps-Good _ w (statfs-Keeps E path)
  handle-Good (access path mask) w a = Keeps-Good _ w (access-Keeps E path mask)
  handle-Good (utimens path accessed modified) w a =
      Keeps-Good _ w (utimens-Keeps E path accessed modified)
  handle-Good (link from to) w a = Keeps-Good _ w (link-Keeps E from to)
  handle-Good (readlink path size) w a = Keeps-Good _ w (readlink-Keeps E path size)
  handle-Good (symlink from to) w a = Keeps-Good _ w (symlink-Keeps E from to)
  handle-Good (rename from to) w a = rename-Good from to w a

  -- From a database in which every file's current version is one of its versions, any run of requests, failing
  -- or not, leads to such a database, provided that no rename in it has a target with rows.
  serve-IsListed :
      (w : World E) (rs : List Request)
      → AreAdmitted w rs
      → IsListed E w.files w.versions
      → IsListed E (serve E w rs).files (serve E w rs).versions
  unfolding serve
  serve-IsListed w [] a h = h
  serve-IsListed w (r ∷ rest) (a, more) h =
      serve-IsListed (run (handle E r) w).1 rest more (handle-Good r w a h)
