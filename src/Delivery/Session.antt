-- ===== src/Delivery/Session.antt =====
-- fs/file.cc and server/servermodule.cc together: a file that is written to many times while it is open,
-- and released at the end.
use ndnfs_port.Prelude.{
  ℕ, zero, suc, ◌<◌, ◌/◌, ◌+◌, pos, neg, Bytes, ◌≡◌, ◌≢◌, ◌∙◌, refl, sym, ap, subst, some, [], ◌++◌,
  take, length, inl, inr, arith, to_int, to_int-of_lt,
}
use ndnfs_port.Exec.{ok, err, Sys-cases, run, returned}
use ndnfs_port.External.{Env}
use ndnfs_port.External.Types.{Name, FileRow}
use ndnfs_port.External.Posix.{o_rdwr, overwrite}
use ndnfs_port.External.Documented.{Documented}
use ndnfs_port.World.{World, contents}
use ndnfs_port.Fs.Config.{abs_path}
use ndnfs_port.Fs.File.{access_mode, current_row, ndnfs_write}
use ndnfs_port.Fs.File.Written.{ndnfs_write-content}
use ndnfs_port.Fs.Release.{ndnfs_release}
use ndnfs_port.Server.Config.{server_path}
use ndnfs_port.Server.Name.Forms.{ArePlain, joined}
use ndnfs_port.Delivery.{on_interests, segment_interests, ndnfs_release-on_interests}

module _ (E : Env) (D : Documented E) (path : Bytes) where
  -- Writes one behind the other, each of which returned how much it wrote, with the content that they
  -- make of the first one.
  pub data Overwrites : World E → Bytes → World E → Bytes → Type 0 where
    begun : {w : World E} {b : Bytes} → Overwrites w b w b
    wrote :
        {w v w' : World E} {b b' : Bytes} (buf : Bytes) (i k : ℕ)
        → run (ndnfs_write E path buf (pos i)) w ≡ (returned (pos k), v)
        → 0 < k
        → length buf < 2147483648
        → Overwrites v (overwrite b i (take k buf)) w' b'
        → Overwrites w b w' b'

  open_fails :
      (buf : Bytes) (i : ℕ) (w : World E) {row : FileRow} {n : ℕ}
      → E.files.select w.files path ≡ some row
      → (E.posix.open_file w.os (abs_path E path) o_rdwr 0).0 ≡ err n
      → (run (ndnfs_write E path buf (pos i)) w).0 ≡ returned (neg n)
  unfolding ndnfs_write current_row
  open_fails buf i w found e = ground (arith, e)

  pwrite_returns :
      (buf : Bytes) (i : ℕ) (w : World E) {row : FileRow} {fd : ℕ} {o : E.posix.Os}
      → E.files.select w.files path ≡ some row
      → E.posix.open_file w.os (abs_path E path) o_rdwr 0 ≡ (ok fd, o)
      → (run (ndnfs_write E path buf (pos i)) w).0 ≡ elim (E.posix.pwrite o fd buf (pos i)).0 [
        | ok m ↦ returned (to_int m)
        | err n ↦ returned (neg n)
      ]
  unfolding ndnfs_write current_row
  pwrite_returns buf i w found e = ground (arith, e)

  neg-ne-pos : (n k : ℕ) → 0 < k → returned (neg n) ≢ returned (pos k)
  neg-ne-pos zero k more e = let z : 0 ≡ k = cc in omega arith
  neg-ne-pos (suc n) k more e = cc

  -- What a write that returned more than 0 went through.
  pwrite_succeeds :
      (buf : Bytes) (i k : ℕ) (w : World E) {row : FileRow} {b : Bytes}
      → E.files.select w.files path ≡ some row
      → D.view.content w.os (abs_path E path) ≡ some b
      → (run (ndnfs_write E path buf (pos i)) w).0 ≡ returned (pos k)
      → 0 < k
      → length buf < 2147483648
      → (fd : ℕ) × (o : E.posix.Os) × (o' : E.posix.Os) × (E.posix.open_file w.os
            (abs_path E path)
            o_rdwr
            0
          ≡ (ok fd, o))
        × (E.posix.pwrite o fd buf (pos i) ≡ (ok k, o'))
  pwrite_succeeds buf i k w {row} {b} found there returns more small =
      let o = (E.posix.open_file w.os (abs_path E path) o_rdwr 0).1 in
      elim (Sys-cases (E.posix.open_file w.os (abs_path E path) o_rdwr 0).0) [
        | inr (n, e) ↦ absurd (neg-ne-pos n k more (sym (open_fails buf i w found e) ∙ returns))
        | inl (fd, e) ↦
            let opens : E.posix.open_file w.os (abs_path E path) o_rdwr 0 ≡ (ok fd, o) =
              ap (λ r. (r, o)) e in
            let gives = pwrite_returns buf i w found opens in
            let o' = (E.posix.pwrite o fd buf (pos i)).1 in
            elim (Sys-cases (E.posix.pwrite o fd buf (pos i)).0) [
              | inr (n, e') ↦
                  let fails : (run (ndnfs_write E path buf (pos i)) w).0 ≡ returned (neg n) =
                    rw e' at gives in
                  absurd (neg-ne-pos n k more (sym fails ∙ returns))
              | inl (m, e') ↦
                  let given : (run (ndnfs_write E path buf (pos i)) w).0 ≡ returned (to_int m) =
                    rw e' at gives in
                  let writes : E.posix.pwrite o fd buf (pos i) ≡ (ok m, o') =
                    ap (λ r. (r, o')) e' in
                  let within =
                    (D.writes.pwrite-content w.os (abs_path E path) buf i there opens writes).0 in
                  let whole : to_int m ≡ pos m = to_int-of_lt m (omega arith) in
                  let same : returned (pos m) ≡ returned (pos k) =
                    ap returned (sym whole) ∙ (sym given ∙ returns) in
                  let equal : m ≡ k = cc in
                  (
                    fd,
                    o,
                    o',
                    opens,
                    subst (λ n. E.posix.pwrite o fd buf (pos i) ≡ (ok n, o')) equal writes,
                  )
            ]
      ]

  Kept : World E → World E → Bytes → Type 0
  Kept w v b =
      (v.files ≡ w.files) × (v.sent ≡ w.sent) × (D.view.content v.os (abs_path E path) ≡ some b)

  ndnfs_write-Kept :
      (buf : Bytes) (i k : ℕ) (w v : World E) {row : FileRow} {b : Bytes}
      → E.files.select w.files path ≡ some row
      → D.view.content w.os (abs_path E path) ≡ some b
      → run (ndnfs_write E path buf (pos i)) w ≡ (returned (pos k), v)
      → 0 < k
      → length buf < 2147483648
      → Kept w v (overwrite b i (take k buf))
  unfolding Kept
  ndnfs_write-Kept buf i k w v {row} {b} found there returns more small =
      let (fd, o, o', opens, writes) =
        pwrite_succeeds buf i k w found there (ap (λ r. r.0) returns) more small in
      let (p, e, content, _) =
        ndnfs_write-content E D.view D.reads D.writes path buf i w (λ gone. cc) there opens writes
          more small in
      subst (λ u. Kept w u (overwrite b i (take k buf))) (ap (λ r. r.1) (sym e ∙ returns))
        (refl, refl, content)

  Overwrites-Kept :
      {w w' : World E} {b b' : Bytes} {row : FileRow}
      → E.files.select w.files path ≡ some row
      → D.view.content w.os (abs_path E path) ≡ some b
      → Overwrites w b w' b'
      → Kept w w' b'
  unfolding Kept
  Overwrites-Kept found there begun = (refl, refl, there)
  Overwrites-Kept {w} {row = row} found there (wrote {v = v} buf i k returns more small rest) =
      let (files, sent, content) = ndnfs_write-Kept buf i k w v found there returns more small in
      let kept : E.files.select v.files path ≡ some row = rw files found in
      let (files', sent', content') = Overwrites-Kept kept content rest in
      (files' ∙ files, sent' ∙ sent, content')

  -- A file that has a row is written to again and again, each time with less than 2 GiB, at any offset, and
  -- each write returns how many bytes it wrote, at least one. The file, which then has less than 2 GiB, is
  -- released after writing, at a time below 2 ^ 31. The server finds it in the same directory, and the
  -- client's name for it, of components without markers, spells the server's prefix and the path, which is
  -- not empty. If interests for all segments of the new version then arrive in order, the contents of the
  -- packets sent, one behind the other, are the first content with the bytes of each write, as many as it
  -- returned, put in their place one after another.
  pub ndnfs_writes-on_interests :
      (cs : Name) (now flags : ℕ) (w w' : World E) (b b' : Bytes) {row : FileRow}
      → E.files.select w.files path ≡ some row
      → D.view.content w.os (abs_path E path) ≡ some b
      → Overwrites w b w' b'
      → access_mode flags ≢ 0
      → server_path E path ≡ abs_path E path
      → length b' < 2147483648
      → now < 2147483648
      → ArePlain cs
      → joined E cs ≡ E.fs_prefix ++ path
      → path ≢ []
      → contents
          (on_interests E
            (run (ndnfs_release E path flags now) w').1
            (segment_interests E cs now 0 (length b' / 8192 + 1))).sent
        ≡ contents w.sent ++ b'
  unfolding Kept
  ndnfs_writes-on_interests cs now flags w w' b b' {row} found there session writes same_dir small
        recent plain spelled some_path =
      let (files, sent, content) = Overwrites-Kept found there session in
      let kept : E.files.select w'.files path ≡ some row = rw files found in
      ndnfs_release-on_interests E D cs path now flags w' kept writes content same_dir small recent
        plain spelled some_path
      ∙ ap (λ s. contents s ++ b') sent
