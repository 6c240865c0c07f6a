-- ===== src/Fs/Release/Descriptors.antt =====
-- fs/file.cc, ndnfs_release: the descriptor that it opens.
use ndnfs_port.Prelude.{
  ℕ, zero, suc, ◌+◌, ◌≤◌, ◌<◌, ℤ, Bytes, ◌≡◌, ◌≢◌, refl, ap, ◌∙◌, some, length, to_int, arith,
  Bool-cases, inl, inr, ltb, if◌then◌else◌,
}
use ndnfs_port.Exec.{run, Sys-cases}
use ndnfs_port.External.{Env}
use ndnfs_port.External.Types.{FileRow}
use ndnfs_port.External.Documented.{Documented}
use ndnfs_port.External.Posix.{o_rdonly}
use ndnfs_port.World.{World}
use ndnfs_port.Fs.Config.{seg_size, abs_path}
use ndnfs_port.Fs.Segment.{sign_segment, segment_to_size}
use ndnfs_port.Fs.Segment.Names.{sign_segment-eq}
use ndnfs_port.Fs.File.{access_mode}
use ndnfs_port.Fs.Release.{
  publish_within, max_rounds, sign_loop, publish, set_current_version, ndnfs_release,
}
use ndnfs_port.Fs.Release.Signing.{sign_loop-content}
use ndnfs_port.Fs.Release.Overflow.{sign_loop-overflow}
use ndnfs_port.Fs.Release.Publishing.{published, release-eq-publish}

module _ (E : Env) where
  -- The loop only reads.
  pub sign_loop-os :
      (fuel fd : ℕ) (path : Bytes) (ver : ℤ) (seg : ℕ) (w : World E)
      → (sign_loop E fuel fd path ver seg w).1.os ≡ w.os
  unfolding sign_loop
  sign_loop-os zero fd path ver seg w = refl
  sign_loop-os (suc fuel) fd path ver seg w =
      elim (Sys-cases (E.posix.pread w.os fd seg_size (segment_to_size (to_int seg)))) [
        | inl (c, e) ↦ ground (
          arith,
          sign_segment-eq E path ver (to_int seg) c w,
          sign_loop-os fuel fd path ver (suc seg) (sign_segment E path ver (to_int seg) c w).1,
        )
        | inr (_, e) ↦ ground arith
      ]

module _ (E : Env) (D : Documented E) (path : Bytes) (w : World E) where
  publish_balanced :
      (ver : ℤ) (b : Bytes)
      → length b < 2147483648
      → D.view.content w.os (abs_path E path) ≡ some b
      → D.view.descriptors (run (publish E path ver) w).1.os ≡ D.view.descriptors w.os
  unfolding publish_within set_current_version
  publish_balanced ver b small there =
      let (fd, o, e, c, same) = D.reads.open-content w.os (abs_path E path) there in
      let loop =
        sign_loop-content E D.view D.reads max_rounds fd path ver b 0 (published E D path w ver o)
          small (omega arith) (omega arith) c in
      ground (
        arith,
        e,
        loop,
        D.files.update_done w.files path (λ row. record row { current_version = ver }),
        D.counts.open-close w.os (abs_path E path) o_rdonly 0 e,
      )

  publish_leak :
      (ver : ℤ) (b : Bytes)
      → 2147483648 ≤ length b
      → D.view.content w.os (abs_path E path) ≡ some b
      → D.view.descriptors (run (publish E path ver) w).1.os ≡ D.view.descriptors w.os + 1
  unfolding publish_within set_current_version
  publish_leak ver b large there =
      let (fd, o, e, c, same) = D.reads.open-content w.os (abs_path E path) there in
      let loop =
        sign_loop-overflow E D.view D.reads 262144 fd path ver b 0 (published E D path w ver o)
          large (omega arith) c in
      let os = sign_loop-os E max_rounds fd path ver 0 (published E D path w ver o) in
      ground (
        arith,
        e,
        loop,
        os,
        D.files.update_done w.files path (λ row. record row { current_version = ver }),
        D.counts.open-grows w.os (abs_path E path) o_rdonly 0 e,
      )

  -- The release of a file that was open for writing and has a row leaves as many descriptors open as before if
  -- the content has less than 2 GiB, and one more from there on.
  pub ndnfs_release-descriptors :
      (flags now : ℕ) {row : FileRow} {b : Bytes}
      → E.files.select w.files path ≡ some row
      → access_mode flags ≢ 0
      → D.view.content w.os (abs_path E path) ≡ some b
      → D.view.descriptors (run (ndnfs_release E path flags now) w).1.os ≡ (
          if ltb (length b) 2147483648
          then D.view.descriptors w.os
          else D.view.descriptors w.os + 1)
  ndnfs_release-descriptors flags now {row} {b} found writes there =
      ap (λ r. D.view.descriptors r.1.os) (release-eq-publish E D path w flags now found writes)
      ∙ elim (Bool-cases (ltb (length b) 2147483648)) [
        | inl e ↦ rw e (publish_balanced (to_int now) b (ground arith) there)
        | inr e ↦ rw e (publish_leak (to_int now) b (ground arith) there)
      ]
