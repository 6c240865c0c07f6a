-- ===== src/Fs/Release/Overflow.antt =====
-- fs/file.cc, ndnfs_release: files of 2 GiB and more, whose last offsets an `int` does not hold.
use ndnfs_port.Prelude.{
  ℕ, zero, suc, ◌+◌, ◌≤◌, ◌<◌, ℤ, pos, negsuc, Bytes, ◌≡◌, ◌≢◌, ap, ◌∙◌, some, length, to_int,
  arith, true, ◌==◌, ==_iff, if◌then◌else◌, Bool-cases, inl, inr, ltb,
}
use ndnfs_port.Exec.{ret, returned, run}
use ndnfs_port.External.{Env}
use ndnfs_port.External.Types.{FileRow}
use ndnfs_port.External.Documented.{Documented}
use ndnfs_port.External.Posix.{View, Reads}
use ndnfs_port.World.{World}
use ndnfs_port.Fs.Config.{seg_size, abs_path}
use ndnfs_port.Fs.Segment.Offsets.{segment_to_size_overflow}
use ndnfs_port.Fs.File.{access_mode}
use ndnfs_port.Fs.Release.{publish_within, sign_loop, publish, set_current_version, ndnfs_release}
use ndnfs_port.Fs.Release.Signing.{chunk, length-chunk, sign_one, sign_loop-step}
use ndnfs_port.Fs.Release.Publishing.{published, release-eq-publish, publish-eq}

module _ (E : Env) (V : View E.posix) (R : Reads E.posix V) where
  -- At segment 2 ^ 18 the offset is negative, and pread refuses it.
  sign_loop-negative :
      (fuel fd : ℕ) (path : Bytes) (ver : ℤ) (b : Bytes) (w : World E)
      → V.fd_content w.os fd ≡ some b
      → (sign_loop E (suc fuel) fd path ver 262144 w).0 ≡ ret (negsuc 21)
  unfolding sign_loop
  sign_loop-negative fuel fd path ver b w opened = ground (
    arith,
    segment_to_size_overflow 262144 (omega arith) (omega arith),
    R.pread-negative w.os fd seg_size 2147483647 opened,
  )

  full_chunk :
      (b : Bytes) (i : ℕ)
      → 2147483648 ≤ length b
      → i < 262144
      → (length (chunk b i) == seg_size) ≡ true
  full_chunk b i large low =
      let e : length (chunk b i) ≡ seg_size = omega (arith, length-chunk b i) in (==_iff _ _).1 e

  pub sign_loop-overflow :
      (n fd : ℕ) (path : Bytes) (ver : ℤ) (b : Bytes) (i : ℕ) (w : World E)
      → 2147483648 ≤ length b
      → i + n ≡ 262144
      → V.fd_content w.os fd ≡ some b
      → (sign_loop E (suc n) fd path ver i w).0 ≡ ret (negsuc 21)
  sign_loop-overflow zero fd path ver b i w large at opened =
      let e : i ≡ 262144 = omega arith in rw e (sign_loop-negative 0 fd path ver b w opened)
  sign_loop-overflow (suc n) fd path ver b i w large at opened =
      let low : i < 262144 = omega arith in
      ap (λ r. r.0) (sign_loop-step E V R (suc n) fd path ver b i w low opened)
      ∙ rw (full_chunk b i large low) (
          sign_loop-overflow n fd path ver b (suc i) (sign_one E path ver b i w) large (omega arith)
            opened)

module _ (E : Env) (D : Documented E) (path : Bytes) (w : World E) where
  publish_overflow :
      (ver : ℤ) (b : Bytes)
      → 2147483648 ≤ length b
      → D.view.content w.os (abs_path E path) ≡ some b
      → (run (publish E path ver) w).0 ≡ returned (negsuc 21)
  unfolding publish_within set_current_version
  publish_overflow ver b large there =
      let (fd, o, e, c, same) = D.reads.open-content w.os (abs_path E path) there in
      let loop =
        sign_loop-overflow E D.view D.reads 262144 fd path ver b 0 (published E D path w ver o)
          large (omega arith) c in
      ground (
        arith,
        e,
        loop,
        D.files.update_done w.files path (λ row. record row { current_version = ver }),
      )

  -- The release of a file that was open for writing and has a row ends, whatever the size of its content:
  -- with 0 below 2 GiB, and with -22, which is -EINVAL, from there on.
  pub ndnfs_release-outcome :
      (flags now : ℕ) {row : FileRow} {b : Bytes}
      → E.files.select w.files path ≡ some row
      → access_mode flags ≢ 0
      → D.view.content w.os (abs_path E path) ≡ some b
      → (run (ndnfs_release E path flags now) w).0
        ≡ returned (if ltb (length b) 2147483648 then pos 0 else negsuc 21)
  ndnfs_release-outcome flags now {row} {b} found writes there =
      ap (λ r. r.0) (release-eq-publish E D path w flags now found writes)
      ∙ elim (Bool-cases (ltb (length b) 2147483648)) [
        | inl e ↦ rw e (ap (λ r. r.0) (publish-eq E D path w (to_int now) b (ground arith) there).1)
        | inr e ↦ rw e (publish_overflow (to_int now) b (ground arith) there)
      ]
