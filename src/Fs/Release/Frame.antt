-- ===== src/Fs/Release/Frame.antt =====
-- fs/file.cc, ndnfs_release: what it does to `file_system` and `file_versions`, however it ends.
use native.Mathlib.Decide.{ℕ_discrete}
use ndnfs_port.Fs.File.{access_mode}
use ndnfs_port.Prelude.{
  ◌≢◌, some, false, sym, subst, ◌==◌, Option-cases, ℕ, zero, suc, ℤ, Bytes, ◌≡◌, refl, ◌⊎◌, inl,
  inr, none, arith, to_int,
}
use ndnfs_port.Exec.{Sys, run, Sys-cases}
use ndnfs_port.External.Types.{FileRow}
use ndnfs_port.Fs.Segment.{sign_segment}
use ndnfs_port.External.{Env}
use ndnfs_port.External.Posix.{o_rdonly}
use ndnfs_port.External.Documented.{Documented}
use ndnfs_port.World.{World}
use ndnfs_port.Fs.Config.{seg_size, abs_path}
use ndnfs_port.Fs.Segment.{segment_to_size}
use ndnfs_port.Fs.Segment.Names.{sign_segment-eq}
use ndnfs_port.Fs.Release.{
  publish_within, release_within, max_rounds, sign_loop, set_current_version, publish,
  ndnfs_release,
}

module _ (E : Env) where
  abbrev pub SameRows : World E → World E → Type 0
  SameRows w w' = (w'.files ≡ w.files) × (w'.versions ≡ w.versions)

  sign_loop-SameRows :
      (fuel fd : ℕ) (path : Bytes) (ver : ℤ) (seg : ℕ) (w : World E)
      → SameRows w (sign_loop E fuel fd path ver seg w).1
  unfolding sign_loop
  sign_loop-SameRows zero fd path ver seg w = (refl, refl)
  sign_loop-SameRows (suc fuel) fd path ver seg w =
      elim (Sys-cases (E.posix.pread w.os fd seg_size (segment_to_size (to_int seg)))) [
        | inl (c, e) ↦ ground (
          arith,
          sign_segment-eq E path ver (to_int seg) c w,
          sign_loop-SameRows fuel fd path ver (suc seg)
              (sign_segment E path ver (to_int seg) c w).1,
        )
        | inr (_, e) ↦ ground arith
      ]

  -- The time is recorded in both tables, and no other row changes.
  abbrev pub Recorded : Bytes → ℤ → World E → World E → Type 0
  Recorded path ver w w' =
      (w'.files ≡ (E.files.update w.files path (λ row. record row { current_version = ver })).1)
      × (w'.versions ≡ E.versions.insert w.versions (path, ver) (record { size = none }))

  publish-Recorded :
      Documented E
      → (path : Bytes) (ver : ℤ) (w : World E) → Recorded path ver w (run (publish E path ver) w).1
  unfolding publish_within set_current_version
  publish-Recorded D path ver w = elim (Sys-cases opened.0) [
    | inl (fd, e) ↦ ground (
      arith,
      D.files.update_done w.files path stamp,
      sign_loop-SameRows max_rounds fd path ver 0 (record w {
        files = (E.files.update w.files path stamp).1;
        versions = E.versions.insert w.versions (path, ver) (record { size = none });
        os = opened.1;
      }),
    )
    | inr (_, e) ↦ ground (arith, D.files.update_done w.files path stamp)
  ]
    where
      opened : Sys ℕ × E.posix.Os
      opened = E.posix.open_file w.os (abs_path E path) o_rdonly 0

      stamp : FileRow → FileRow
      stamp row = record row { current_version = ver }

  -- Only a file that has a row and was open for writing gets a new version.
  pub release-SameRows :
      (path : Bytes) (flags now : ℕ) (w : World E)
      → (E.files.select w.files path ≡ none) ⊎ (access_mode flags ≡ 0)
      → SameRows w (run (ndnfs_release E path flags now) w).1
  unfolding release_within
  release-SameRows path flags now w (inl absent) = (ground arith, ground arith)
  release-SameRows path flags now w (inr reads) =
      elim (Option-cases (E.files.select w.files path)) [
        | inl absent ↦ (ground arith, ground arith)
        | inr (_, found) ↦ (ground arith, ground arith)
      ]

  release_publishes :
      (path : Bytes) (flags now : ℕ) (w : World E) {row : FileRow}
      → E.files.select w.files path ≡ some row
      → access_mode flags ≢ 0
      → run (ndnfs_release E path flags now) w ≡ run (publish E path (to_int now)) w
  unfolding release_within
  release_publishes path flags now w found writes =
      let other : (access_mode flags == 0) ≡ false = ground arith in rw (found, other) refl

  pub release-Recorded :
      Documented E
      → (path : Bytes) (flags now : ℕ) (w : World E) {row : FileRow}
      → E.files.select w.files path ≡ some row
      → access_mode flags ≢ 0
      → Recorded path (to_int now) w (run (ndnfs_release E path flags now) w).1
  release-Recorded D path flags now w found writes =
      subst (λ r. Recorded path (to_int now) w r.1)
        (sym (release_publishes path flags now w found writes))
        (publish-Recorded D path (to_int now) w)

  -- Either both tables are as they were, or the time is recorded in both.
  pub release_rows :
      Documented E
      → (path : Bytes) (flags now : ℕ) (w : World E)
      → let w' = (run (ndnfs_release E path flags now) w).1 in
        SameRows w w' ⊎ Recorded path (to_int now) w w'
  release_rows D path flags now w = elim (Option-cases (E.files.select w.files path)) [
    | inl absent ↦ inl (release-SameRows path flags now w (inl absent))
    | inr (_, found) ↦ elim (ℕ_discrete (access_mode flags) 0) [
      | yes reads ↦ inl (release-SameRows path flags now w (inr reads))
      | no writes ↦ inr (release-Recorded D path flags now w found writes)
    ]
  ]
