-- ===== src/Fs/File/Written.antt =====
-- fs/file.cc: what write leaves in a file, and what read then gives.
use ndnfs_port.Prelude.{
  ℕ, zero, suc, ◌<◌, ◌≤◌, pos, Bytes, ◌≡◌, ◌≢◌, ◌∙◌, some, [], ◌∷◌, ◌++◌, arith, take, drop, length,
  to_int-of_lt, length-take, refl, ap, sym, none,
}
use ndnfs_port.Exec.{ok, returned, run}
use ndnfs_port.External.{Env}
use ndnfs_port.External.Posix.{o_rdwr, overwrite, View, Reads, Writes}
use ndnfs_port.World.{World, buffer}
use ndnfs_port.Fs.Config.{abs_path}
use ndnfs_port.Fs.File.{current_row, ndnfs_read, ndnfs_write}
use ndnfs_port.Fs.File.Outcomes.{ndnfs_read-content}

take-append-length : (x y : Bytes) → take (length x) (x ++ y) ≡ x
take-append-length [] y = refl
take-append-length (c ∷ x) y = ap (λ t. c ∷ t) (take-append-length x y)

-- The bytes written are found where they were written.
take-overwrite : (b : Bytes) (i : ℕ) (x : Bytes) → take (length x) (drop i (overwrite b i x)) ≡ x
take-overwrite b zero x = take-append-length x (drop (length x) b)
take-overwrite [] (suc i) x = take-overwrite [] i x
take-overwrite (c ∷ b) (suc i) x = take-overwrite b i x

module _ (E : Env) (V : View E.posix) (R : Reads E.posix V) (W : Writes E.posix V) where
  -- Only the files change.
  pub ndnfs_write-content :
      (path buf : Bytes) (i : ℕ) (w : World E) {b : Bytes} {k fd : ℕ} {o o' : E.posix.Os}
      → E.files.select w.files path ≢ none
      → V.content w.os (abs_path E path) ≡ some b
      → E.posix.open_file w.os (abs_path E path) o_rdwr 0 ≡ (ok fd, o)
      → E.posix.pwrite o fd buf (pos i) ≡ (ok k, o')
      → 0 < k
      → length buf < 2147483648
      → (o'' : E.posix.Os) × (run (ndnfs_write E path buf (pos i)) w
          ≡ (returned (pos k), record w { os = o'' }))
        × (V.content o'' (abs_path E path) ≡ some (overwrite b i (take k buf)))
        × (k ≤ length buf)
  unfolding ndnfs_write current_row
  ndnfs_write-content path buf i w {b} {k} {fd} {o} {o'} found there opens written more small =
      let (within, filled) = W.pwrite-content w.os (abs_path E path) buf i there opens written in
      (
        (E.posix.close_file o' fd).1,
        ground (arith, opens, written, to_int-of_lt k (omega arith)),
        R.close-content o' fd (abs_path E path) ∙ filled more,
        within,
      )

  -- A write of less than 2 GiB to a file with a row, whose `open` succeeds and whose `pwrite` writes `k`
  -- bytes, at least one, returns `k` and changes no table. The file then has the first `k` bytes
  -- of the buffer from the offset on, in a gap in front of them zeros, and elsewhere what it had;
  -- reading `k` bytes at that offset gives the bytes written and returns `k`.
  pub ndnfs_write-ndnfs_read :
      (path buf : Bytes) (i : ℕ) (w : World E) {b : Bytes} {k fd : ℕ} {o o' : E.posix.Os}
      → E.files.select w.files path ≢ none
      → V.content w.os (abs_path E path) ≡ some b
      → E.posix.open_file w.os (abs_path E path) o_rdwr 0 ≡ (ok fd, o)
      → E.posix.pwrite o fd buf (pos i) ≡ (ok k, o')
      → 0 < k
      → length buf < 2147483648
      → (p : E.posix.Os) × (run (ndnfs_write E path buf (pos i)) w
          ≡ (returned (pos k), record w { os = p }))
        × (V.content p (abs_path E path) ≡ some (overwrite b i (take k buf)))
        × (q : E.posix.Os) × (run (ndnfs_read E path k (pos i)) (record w { os = p })
            ≡ (returned (pos k), record w { os = q; out = buffer (take k buf) }))
  ndnfs_write-ndnfs_read path buf i w {b} {k} found there opens written more small =
      let (p, e, now, within) =
        ndnfs_write-content path buf i w found there opens written more small in
      let n : length (take k buf) ≡ k = omega (arith, length-take k buf) in
      let back : take k (drop i (overwrite b i (take k buf))) ≡ take k buf =
        ap (λ m. take m (drop i (overwrite b i (take k buf)))) (sym n)
        ∙ take-overwrite b i (take k buf) in
      let (q, r, _) =
        ndnfs_read-content E V R path k i (record w { os = p }) found now (omega arith) in
      (p, e, now, q, r ∙ rw (back, n) refl)
