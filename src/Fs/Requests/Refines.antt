-- ===== src/Fs/Requests/Refines.antt =====
-- fs/ndnfs.cc and the handlers behind its table: what they do to the database is what the catalogue
-- allows.
use mathlib.Core.Path.{fun_ext}
use ndnfs_port.Prelude.{
  Option, some, if◌then◌else◌, ap, sym, ◌∙◌, ◌==◌, false, ℕ, ℤ, Bytes, ◌≡◌, refl, false, none, inl,
  inr, arith, Bool-cases, Option-cases, to_int, List, [], ◌∷◌, eqb, eqb_iff,
}
use ndnfs_port.Exec.{Exec, run}
use ndnfs_port.External.{Env}
use ndnfs_port.External.Table.{VersionKey, path_key, version_key}
use ndnfs_port.External.Documented.{Documented}
use ndnfs_port.World.{World}
use ndnfs_port.Fs.Requests.{
  Request, getattr, chmod, setxattr, open_file, read, readdir, mknod, write, truncate, release,
  unlink, mkdir, rmdir, statfs, access, utimens, link, readlink, symlink, rename, handle, serve,
}
use ndnfs_port.Fs.Requests.Frame.{
  Keeps, getattr-Keeps, chmod-Keeps, open-Keeps, read-Keeps, write-Keeps, truncate-Keeps,
  readdir-Keeps, mkdir-Keeps, rmdir-Keeps, statfs-Keeps, access-Keeps, utimens-Keeps, link-Keeps,
  symlink-Keeps, readlink-Keeps,
}
use ndnfs_port.Fs.Requests.Listed.{IsAdmitted, AreAdmitted}
use ndnfs_port.Fs.Requests.Catalogue.{
  Catalogue, created, published, removed, moved, if_present, no_size, stamped, change, change_all,
}
use ndnfs_port.Fs.Attribute.{ndnfs_setxattr}
use ndnfs_port.Fs.Release.{ndnfs_release}
use ndnfs_port.Fs.Release.Frame.{release-SameRows, release-Recorded}
use ndnfs_port.Fs.Link.{ndnfs_rename}
use ndnfs_port.Fs.File.Removal.{ndnfs_unlink_lem}
use native.Mathlib.Decide.{ℕ_discrete}
use ndnfs_port.Fs.File.{access_mode, new_row, ndnfs_mknod, ndnfs_unlink}

if_present-none :
    {A B : Type 0} (o : Option A) (here absent : B) → o ≡ none → if_present o here absent ≡ absent
if_present-none none here absent e = refl
if_present-none (some _) here absent e = cc

if_present-some :
    {A B : Type 0} (o : Option A) (here absent : B) {a : A}
    → o ≡ some a
    → if_present o here absent ≡ here
if_present-some none here absent e = cc
if_present-some (some _) here absent e = refl

module _ (E : Env) where
  -- The catalogue that the two tables hold.
  unfoldable pub catalogue_of : World E → Catalogue
  catalogue_of w = record {
    file = λ p. E.files.select w.files p;
    version = λ k. E.versions.select w.versions k;
  }

module _ (E : Env) (D : Documented E) where
  abbrev Does : Request → World E → World E → Type 0
  Does r w w' = catalogue_of E w' ≡ change r (catalogue_of E w)

  -- A catalogue by what the tables hold.
  holds :
      (c : Catalogue) (w : World E)
      → ((p : Bytes) → E.files.select w.files p ≡ c.file p)
      → ((k : VersionKey) → E.versions.select w.versions k ≡ c.version k)
      → catalogue_of E w ≡ c
  unfolding catalogue_of
  holds c w f v = rw (fun_ext f, fun_ext v) refl

  -- Tables that are as before.
  pub unchanged :
      (w w' : World E)
      → w'.files ≡ w.files
      → w'.versions ≡ w.versions
      → catalogue_of E w' ≡ catalogue_of E w
  unfolding catalogue_of
  unchanged w w' f v = rw (f, v) refl

  mknod-Does :
      (path : Bytes) (mode dev now : ℕ) (w : World E)
      → Does (mknod path mode dev now) w (run (ndnfs_mknod E path mode dev now) w).1
  unfolding ndnfs_mknod catalogue_of
  mknod-Does path mode dev now w =
      let w' : World E = (run (ndnfs_mknod E path mode dev now) w).1 in
      let c = catalogue_of E w in
      elim (Option-cases (E.files.select w.files path)) [
        | inl absent ↦
            let new = new_row path mode (to_int now) in
            let f : w'.files ≡ E.files.insert w.files path new = ground arith in
            let v : w'.versions ≡ E.versions.insert w.versions (path, to_int now) no_size =
              ground arith in
            let does = if_present-none (c.file path) c (created path mode now c) absent in
            holds (created path mode now c) w'
              (λ p. rw (f, D.files.select-insert w.files path p new, absent))
              (λ k. rw (v, D.versions.select-insert w.versions (path, to_int now) k no_size))
            ∙ sym does
        | inr (_, found) ↦
            let does = if_present-some (c.file path) c (created path mode now c) found in
            unchanged w w' (ground arith) (ground arith) ∙ sym does
      ]

  release-Does :
      (path : Bytes) (flags now : ℕ) (w : World E)
      → Does (release path flags now) w (run (ndnfs_release E path flags now) w).1
  unfolding catalogue_of
  release-Does path flags now w =
      let w' : World E = (run (ndnfs_release E path flags now) w).1 in
      let c = catalogue_of E w in
      let written : Catalogue = if access_mode flags == 0 then c else published path now c in
      elim (Option-cases (E.files.select w.files path)) [
        | inl absent ↦
            let (f, v) = release-SameRows E path flags now w (inl absent) in
            let does = if_present-none (c.file path) written c absent in
            unchanged w w' f v ∙ sym does
        | inr (_, found) ↦ elim (ℕ_discrete (access_mode flags) 0) [
          | yes reads ↦
              let (f, v) = release-SameRows E path flags now w (inr reads) in
              let does : written ≡ c = rw reads refl in
              unchanged w w' f v ∙ sym (if_present-some (c.file path) written c found ∙ does)
          | no writes ↦
              let (f, v) = release-Recorded E D path flags now w found writes in
              let other : (access_mode flags == 0) ≡ false = ground arith in
              let does : written ≡ published path now c = rw other refl in
              holds (published path now c) w'
                (λ p. rw (f, D.files.select-update w.files path p (stamped (to_int now))))
                (λ k. rw (v, D.versions.select-insert w.versions (path, to_int now) k no_size))
              ∙ sym (if_present-some (c.file path) written c found ∙ does)
        ]
      ]

  unlink-Does : (path : Bytes) (w : World E) → Does (unlink path) w (run (ndnfs_unlink E path) w).1
  unfolding catalogue_of
  unlink-Does path w =
      let (gone, others, v, _, _) = ndnfs_unlink_lem E D path w in
      holds (removed path (catalogue_of E w)) (run (ndnfs_unlink E path) w).1
        (λ p. elim (Bool-cases (eqb path p)) [
          | inl e ↦ rw (e, ← (eqb_iff path p).0 e, gone)
          | inr e ↦ rw (e, others p (λ same. cc ((eqb_iff path p).1 same)))
        ])
        (λ k. rw v)

  rename-Does :
      (from to : Bytes) (w : World E)
      → IsAdmitted E D w (rename from to)
      → Does (rename from to) w (run (ndnfs_rename E from to) w).1
  unfolding ndnfs_rename catalogue_of
  rename-Does from to w (free, free_versions) =
      let w' : World E = (run (ndnfs_rename E from to) w).1 in
      let f : w'.files ≡ E.files.rename w.files to from = ground arith in
      let v : w'.versions ≡ E.versions.rename w.versions to from = ground arith in
      holds (moved from to (catalogue_of E w)) w'
        (λ p. rw (f, D.files.select-rename w.files to from p (λ c e. rw e free)))
        (λ k. rw (v, D.versions.select-rename w.versions to from k versions_free))
    where
      versions_free : (c : VersionKey) → c.0 ≡ to → E.versions.select w.versions c ≡ none
      versions_free (p, v) e = rw e (free_versions v)

  keep-Does :
      (m : Exec (World E) ℤ) (w : World E)
      → Keeps E m
      → catalogue_of E (run m w).1 ≡ catalogue_of E w
  keep-Does m w k = unchanged w (run m w).1 (k.files w) (k.versions w)

  -- One request.
  pub handle-Does :
      (r : Request) (w : World E) → IsAdmitted E D w r → Does r w (run (handle E r) w).1
  unfolding handle
  handle-Does (getattr path) w a = keep-Does _ w (getattr-Keeps E path)
  handle-Does (chmod path mode) w a = keep-Does _ w (chmod-Keeps E path mode)
  handle-Does (setxattr path name value flags) w a = unfold ndnfs_setxattr in refl
  handle-Does (open_file path flags now) w a = keep-Does _ w (open-Keeps E path flags now)
  handle-Does (read path size offset) w a = keep-Does _ w (read-Keeps E path size offset)
  handle-Does (readdir path full) w a = keep-Does _ w (readdir-Keeps E path full)
  handle-Does (mknod path mode dev now) w a = mknod-Does path mode dev now w
  handle-Does (write path buf offset) w a = keep-Does _ w (write-Keeps E path buf offset)
  handle-Does (truncate path len) w a = keep-Does _ w (truncate-Keeps E path len)
  handle-Does (release path flags now) w a = release-Does path flags now w
  handle-Does (unlink path) w a = unlink-Does path w
  handle-Does (mkdir path mode) w a = keep-Does _ w (mkdir-Keeps E path mode)
  handle-Does (rmdir path) w a = keep-Does _ w (rmdir-Keeps E path)
  handle-Does (statfs path) w a = keep-Does _ w (statfs-Keeps E path)
  handle-Does (access path mask) w a = keep-Does _ w (access-Keeps E path mask)
  handle-Does (utimens path accessed modified) w a =
      keep-Does _ w (utimens-Keeps E path accessed modified)
  handle-Does (link from to) w a = keep-Does _ w (link-Keeps E from to)
  handle-Does (readlink path size) w a = keep-Does _ w (readlink-Keeps E path size)
  handle-Does (symlink from to) w a = keep-Does _ w (symlink-Keeps E from to)
  handle-Does (rename from to) w a = rename-Does from to w a

  -- Any run of requests, failing or not, in which no rename has a target with rows does to the files
  -- and the versions of the database what the requests do to the catalogue: mknod adds a file that
  -- is not there, with its version; release gives a file that is there and was open for writing a
  -- new current version; unlink takes a file's row away and no version; rename moves a path's
  -- entries; no other request changes it.
  pub serve-change_all :
      (w : World E) (rs : List Request)
      → AreAdmitted E D w rs
      → catalogue_of E (serve E w rs) ≡ change_all rs (catalogue_of E w)
  unfolding serve
  serve-change_all w [] a = refl
  serve-change_all w (r ∷ rest) (a, more) =
      serve-change_all (run (handle E r) w).1 rest more ∙ ap (change_all rest) (handle-Does r w a)
