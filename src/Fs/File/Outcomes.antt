-- ===== src/Fs/File/Outcomes.antt =====
-- fs/file.cc: what read gives back, and what write leaves behind.
use ndnfs_port.Prelude.{
  ℕ, ◌+◌, ◌<◌, ℤ, pos, Bytes, ◌≡◌, ◌≢◌, ◌∙◌, none, some, arith, take, drop, length, to_int-of_lt,
  length-take,
}
use ndnfs_port.Exec.{ok, err, returned, run}
use ndnfs_port.External.{Env}
use ndnfs_port.External.Posix.{o_rdwr, View, Reads, Counts}
use ndnfs_port.World.{World, buffer}
use ndnfs_port.Fs.Config.{abs_path}
use ndnfs_port.Fs.File.{current_row, ndnfs_read, ndnfs_write}

module _ (E : Env) (V : View E.posix) (R : Reads E.posix V) where
  -- Reading gives the bytes of the file from the offset on, at most as many as asked for, and their
  -- number.
  pub ndnfs_read-content :
      (path : Bytes) (n i : ℕ) (w : World E) {b : Bytes}
      → E.files.select w.files path ≢ none
      → V.content w.os (abs_path E path) ≡ some b
      → n < 2147483648
      → (o : E.posix.Os) × (run (ndnfs_read E path n (pos i)) w ≡ (
        returned (pos (length (take n (drop i b)))),
        record w { os = o; out = buffer (take n (drop i b)) },
      ))
        × ((q : Bytes) → V.content o q ≡ V.content w.os q)
  unfolding ndnfs_read current_row
  ndnfs_read-content path n i w {b} found there small =
      let (fd, o, e, c, same) = R.open-content w.os (abs_path E path) there in
      let short : length (take n (drop i b)) < 2147483648 =
        omega (arith, length-take n (drop i b)) in
      (
        (E.posix.close_file o fd).1,
        ground
            (arith, e, R.pread-content o fd n i c, to_int-of_lt (length (take n (drop i b))) short),
        λ q. R.close-content o fd q ∙ same q,
      )

module _ (E : Env) (V : View E.posix) (C : Counts E.posix V) where
  -- A write to a file with a row gives its descriptor back, unless `pwrite` fails: then the descriptor
  -- stays open.
  pub ndnfs_write-descriptors :
      (path buf : Bytes) (offset : ℤ) (w : World E) {fd : ℕ} {o : E.posix.Os}
      → E.files.select w.files path ≢ none
      → E.posix.open_file w.os (abs_path E path) o_rdwr 0 ≡ (ok fd, o)
      → V.descriptors (run (ndnfs_write E path buf offset) w).1.os
        ≡ elim (E.posix.pwrite o fd buf offset).0 [
          | ok _ ↦ V.descriptors w.os
          | err _ ↦ V.descriptors w.os + 1
        ]
  unfolding ndnfs_write current_row
  ndnfs_write-descriptors path buf offset w {fd} {o} found opened = ground (
    arith,
    C.open-close w.os (abs_path E path) o_rdwr 0 opened,
    C.open-grows w.os (abs_path E path) o_rdwr 0 opened,
    C.pwrite-close o fd fd buf offset,
    C.pwrite-descriptors o fd buf offset,
  )
