-- ===== src/Fs/Requests/Descriptors.antt =====
-- The descriptors that the requests leave open.
use ndnfs_port.Prelude.{
  ℕ, suc, ◌+◌, ◌≤◌, ℤ, Bytes, ◌≡◌, refl, ap, ◌⊎◌, inl, inr, List, [], ◌∷◌, arith, to_int, none,
}
use ndnfs_port.Exec.{Exec, ok, err, Sys-cases, run}
use ndnfs_port.External.{Env}
use ndnfs_port.External.Posix.{View, Counts, Paths, o_rdonly, o_rdwr, o_create}
use ndnfs_port.World.{World}
use ndnfs_port.Fs.Config.{abs_path}
use ndnfs_port.Fs.File.{current_row, create_node}
use ndnfs_port.Fs.File
use ndnfs_port.Fs.Attribute
use ndnfs_port.Fs.Directory
use ndnfs_port.Fs.Link
use ndnfs_port.Fs.Version.{remove_file_entry, duplicate_version}
use ndnfs_port.Fs.Release.{
  publish_within, release_within, max_rounds, publish, set_current_version, ndnfs_release,
}
use ndnfs_port.Fs.Release.Descriptors.{sign_loop-os}
use ndnfs_port.Fs.Requests.{
  Request, read, write, release, handle, serve, getattr, chmod, setxattr, open_file, readdir, mknod,
  truncate, unlink, mkdir, rmdir, statfs, access, utimens, link, readlink, symlink, rename,
}

-- The requests whose handlers return between `open` and `close` where a call fails.
pub unclosed : List Request → ℕ
unclosed [] = 0
unclosed (read _ _ _ ∷ rest) = suc (unclosed rest)
unclosed (write _ _ _ ∷ rest) = suc (unclosed rest)
unclosed (release _ _ _ ∷ rest) = suc (unclosed rest)
unclosed (_ ∷ rest) = unclosed rest

module _ (E : Env) (V : View E.posix) (C : Counts E.posix V) (S : Paths E.posix V) where
  -- As many descriptors stay open as before, and up to `n` more.
  record Leaves (n : ℕ) (m : Exec (World E) ℤ) : Type 0 where
    least : (w : World E) → V.descriptors w.os ≤ V.descriptors (run m w).1.os
    most : (w : World E) → V.descriptors (run m w).1.os ≤ V.descriptors w.os + n

  Opening : E.posix.Os → Bytes → ℕ → ℕ → Type 0
  Opening o p f m =
      ((fd : ℕ) × (o' : E.posix.Os) × (E.posix.open_file o p f m ≡ (ok fd, o'))
        × (V.descriptors o' ≡ V.descriptors o + 1)
        × (V.descriptors (E.posix.close_file o' fd).1 ≡ V.descriptors o))
      ⊎ ((e : ℕ) × (o' : E.posix.Os) × (E.posix.open_file o p f m ≡ (err e, o'))
          × (V.descriptors o' ≡ V.descriptors o))

  opening : (o : E.posix.Os) (p : Bytes) (f m : ℕ) → Opening o p f m
  unfolding Opening
  opening o p f m =
      let o' = (E.posix.open_file o p f m).1 in
      elim (Sys-cases (E.posix.open_file o p f m).0) [
        | inl (fd, e) ↦
            let opened : E.posix.open_file o p f m ≡ (ok fd, o') = ap (λ r. (r, o')) e in
            inl (fd, o', opened, C.open-grows o p f m opened, C.open-close o p f m opened)
        | inr (n, e) ↦
            let failed : E.posix.open_file o p f m ≡ (err n, o') = ap (λ r. (r, o')) e in
            inr (n, o', failed, C.open-err o p f m failed)
      ]

  steady :
      {m : Exec (World E) ℤ}
      → ((w : World E) → V.descriptors (run m w).1.os ≡ V.descriptors w.os)
      → Leaves 0 m
  steady h = record {
    least = λ w. let e = h w in omega arith;
    most = λ w. let e = h w in omega arith;
  }

  open-Leaves : (path : Bytes) (flags now : ℕ) → Leaves 0 (File.ndnfs_open E path flags now)
  unfolding File.ndnfs_open current_row duplicate_version Opening
  open-Leaves path flags now = steady (λ w. elim (opening w.os (abs_path E path) flags 0) [
    | inl (fd, o', e, grows, closes) ↦ ground (arith, e, closes)
    | inr (n, o', e, same) ↦ ground (arith, e, same)
  ])

  mknod-Leaves : (path : Bytes) (mode dev now : ℕ) → Leaves 0 (File.ndnfs_mknod E path mode dev now)
  unfolding File.ndnfs_mknod create_node Opening
  mknod-Leaves path mode dev now = steady (λ w.
      elim (opening w.os (abs_path E path) o_create mode) [
        | inl (fd, o', e, grows, closes) ↦ ground (
          arith,
          e,
          closes,
          S.mkfifo-descriptors w.os (abs_path E path) mode,
          S.mknod-descriptors w.os (abs_path E path) mode dev,
        )
        | inr (n, o', e, same) ↦ ground (
          arith,
          e,
          same,
          S.mkfifo-descriptors w.os (abs_path E path) mode,
          S.mknod-descriptors w.os (abs_path E path) mode dev,
        )
      ])

  between :
      {n : ℕ} {m : Exec (World E) ℤ}
      → ((w : World E)
          → (V.descriptors w.os ≤ V.descriptors (run m w).1.os)
            × (V.descriptors (run m w).1.os ≤ V.descriptors w.os + n))
      → Leaves n m
  between h = record { least = λ w. (h w).0; most = λ w. (h w).1 }

  truncate-Leaves : (path : Bytes) (len : ℤ) → Leaves 0 (File.ndnfs_truncate E path len)
  unfolding File.ndnfs_truncate current_row
  truncate-Leaves path len =
      steady (λ w. ground (arith, S.truncate-descriptors w.os (abs_path E path) len))

  unlink-Leaves : (path : Bytes) → Leaves 0 (File.ndnfs_unlink E path)
  unfolding File.ndnfs_unlink remove_file_entry
  unlink-Leaves path = steady (λ w. ground (arith, S.unlink-descriptors w.os (abs_path E path)))

  read-Leaves :
      (path : Bytes) (size : ℕ) (offset : ℤ) → Leaves 1 (File.ndnfs_read E path size offset)
  unfolding File.ndnfs_read current_row Opening
  read-Leaves path size offset = between (λ w. elim (opening w.os (abs_path E path) o_rdonly 0) [
    | inl (fd, o', e, grows, closes) ↦
        (ground (arith, e, grows, closes), ground (arith, e, grows, closes))
    | inr (n, o', e, same) ↦ (ground (arith, e, same), ground (arith, e, same))
  ])

  write-Leaves : (path buf : Bytes) (offset : ℤ) → Leaves 1 (File.ndnfs_write E path buf offset)
  unfolding File.ndnfs_write current_row Opening
  write-Leaves path buf offset = between (λ w. elim (opening w.os (abs_path E path) o_rdwr 0) [
    | inl (fd, o', e, grows, closes) ↦
        let after = C.pwrite-close o' fd fd buf offset in
        let still = C.pwrite-descriptors o' fd buf offset in
        (
          ground (arith, e, grows, closes, after, still),
          ground (arith, e, grows, closes, after, still),
        )
    | inr (n, o', e, same) ↦ (ground (arith, e, same), ground (arith, e, same))
  ])

  -- Whether or not the loop reads to its end.
  publish-Leaves : (path : Bytes) (ver : ℤ) → Leaves 1 (publish E path ver)
  unfolding publish_within set_current_version Opening
  publish-Leaves path ver = between (λ w. elim (opening w.os (abs_path E path) o_rdonly 0) [
    | inl (fd, o', e, grows, closes) ↦
        let loop = sign_loop-os E max_rounds fd path ver 0 (record w {
          files = (E.files.update w.files path (λ row. record row { current_version = ver })).1;
          versions = E.versions.insert w.versions (path, ver) (record { size = none });
          os = o';
        }) in
        (ground (arith, e, grows, closes, loop), ground (arith, e, grows, closes, loop))
    | inr (n, o', e, same) ↦ (ground (arith, e, same), ground (arith, e, same))
  ])

  release-Leaves : (path : Bytes) (flags now : ℕ) → Leaves 1 (ndnfs_release E path flags now)
  unfolding release_within current_row
  release-Leaves path flags now = between (λ w.
      let least = (publish-Leaves path (to_int now)).least w in
      let most = (publish-Leaves path (to_int now)).most w in (ground arith, ground arith))

  -- What a request leaves, by the handler that FUSE calls for it.
  handle-Leaves : (r : Request) → Leaves (unclosed (r ∷ [])) (handle E r)
  unfolding handle unclosed Attribute.ndnfs_getattr Attribute.ndnfs_chmod Attribute.ndnfs_setxattr
      Directory.ndnfs_readdir Directory.ndnfs_mkdir Directory.ndnfs_rmdir Link.ndnfs_statfs
      Link.ndnfs_access Link.ndnfs_utimens Link.ndnfs_link Link.ndnfs_readlink Link.ndnfs_symlink
      Link.ndnfs_rename
  handle-Leaves (getattr path) = steady (λ w. ground arith)
  handle-Leaves (chmod path mode) =
      steady (λ w. ground (arith, S.chmod-descriptors w.os (abs_path E path) mode))
  handle-Leaves (setxattr path name value flags) = steady (λ w. refl)
  handle-Leaves (open_file path flags now) = open-Leaves path flags now
  handle-Leaves (read path size offset) = read-Leaves path size offset
  handle-Leaves (readdir path full) = steady (λ w. ground arith)
  handle-Leaves (mknod path mode dev now) = mknod-Leaves path mode dev now
  handle-Leaves (write path buf offset) = write-Leaves path buf offset
  handle-Leaves (truncate path len) = truncate-Leaves path len
  handle-Leaves (release path flags now) = release-Leaves path flags now
  handle-Leaves (unlink path) = unlink-Leaves path
  handle-Leaves (mkdir path mode) =
      steady (λ w. ground (arith, S.mkdir-descriptors w.os (abs_path E path) mode))
  handle-Leaves (rmdir path) =
      steady (λ w. ground (arith, S.rmdir-descriptors w.os (abs_path E path)))
  handle-Leaves (statfs path) = steady (λ w. ground arith)
  handle-Leaves (access path mask) = steady (λ w. ground arith)
  handle-Leaves (utimens path accessed modified) = steady (λ w. ground (
    arith,
    S.utimes-descriptors w.os (abs_path E path) (Link.to_timeval accessed)
        (Link.to_timeval modified),
  ))
  handle-Leaves (link from to) =
      steady (λ w. ground (arith, S.link-descriptors w.os (abs_path E from) (abs_path E to)))
  handle-Leaves (readlink path size) = steady (λ w. ground arith)
  handle-Leaves (symlink from to) =
      steady (λ w. ground (arith, S.symlink-descriptors w.os (abs_path E from) (abs_path E to)))
  handle-Leaves (rename from to) =
      steady (λ w. ground (arith, S.rename-descriptors w.os (abs_path E from) (abs_path E to)))

  unclosed-cons :
      (r : Request) (rs : List Request) → unclosed (r ∷ rs) ≡ unclosed (r ∷ []) + unclosed rs
  unfolding unclosed
  unclosed-cons r rs = ground arith

  -- Requests, failing or not, come in any order. They leave no fewer descriptors open than there were, and
  -- at most one more for each read, write and release among them: no other request leaves one open.
  pub serve-descriptors :
      (w : World E) (rs : List Request)
      → (V.descriptors w.os ≤ V.descriptors (serve E w rs).os)
        × (V.descriptors (serve E w rs).os ≤ V.descriptors w.os + unclosed rs)
  unfolding serve unclosed
  serve-descriptors w [] = (omega arith, omega arith)
  serve-descriptors w (r ∷ rs) =
      let w' = (run (handle E r) w).1 in
      let (low, high) = serve-descriptors w' rs in
      let least = (handle-Leaves r).least w in
      let most = (handle-Leaves r).most w in
      let both = unclosed-cons r rs in (omega arith, omega arith)
