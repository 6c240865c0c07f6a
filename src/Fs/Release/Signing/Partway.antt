-- ===== src/Fs/Release/Signing/Partway.antt =====
-- fs/file.cc, ndnfs_release: the state behind the first rounds of the loop.
use ndnfs_port.Prelude.{
  ℕ, zero, suc, ◌+◌, ◌-◌, ◌/◌, ◌≤◌, ◌<◌, ◌==◌, ==_iff, ℤ, pos, Bytes, ◌≡◌, ◌≢◌, refl, sym, ap, ◌∙◌,
  some, length, true, arith, to_int,
}
use ndnfs_port.Exec.{diverged, out_of_fuel, run, pure, ◌>>◌, Exec}
use ndnfs_port.External.{Env}
use ndnfs_port.External.Types.{FileRow}
use ndnfs_port.External.Posix.{View, Reads}
use ndnfs_port.External.Documented.{Documented}
use ndnfs_port.World.{World, try}
use ndnfs_port.Fs.Config.{seg_size, abs_path}
use ndnfs_port.Fs.File.{access_mode}
use ndnfs_port.Fs.Release.{
  publish_within, release_within, max_rounds, sign_loop, set_current_version, ndnfs_release,
}
use ndnfs_port.Fs.Release.Signing.{chunk, length-chunk, sign_rows, sign_one, sign_loop-step}
use ndnfs_port.Fs.Release.Publishing.{
  with_version, published, release-eq-publish, release_within-eq-publish_within,
}

module _ (E : Env) (V : View E.posix) (R : Reads E.posix V) where
  -- `n` rounds over full segments leave the rest of the loop.
  sign_loop_add :
      (n fuel fd : ℕ) (path : Bytes) (ver : ℤ) (b : Bytes) (i : ℕ) (w : World E)
      → length b < 2147483648
      → i + n ≤ length b / 8192
      → V.fd_content w.os fd ≡ some b
      → sign_loop E (n + fuel) fd path ver i w
        ≡ sign_loop E fuel fd path ver
            (i + n)
            (record w { segments = sign_rows E path ver b i n w.segments })
  unfolding sign_rows
  sign_loop_add zero fuel fd path ver b i w small within opened =
      let e : i + 0 ≡ i = omega arith in let f : 0 + fuel ≡ fuel = omega arith in rw (e, f) refl
  sign_loop_add (suc n) fuel fd path ver b i w small within opened =
      let full : (length (chunk b i) == seg_size) ≡ true =
        (==_iff _ _).1 (omega (arith, length-chunk b i)) in
      let e : suc n + fuel ≡ suc (n + fuel) = omega arith in
      let f : i + suc n ≡ suc i + n = omega arith in
      rw (e, f)
        (sign_loop-step E V R (n + fuel) fd path ver b i w (omega arith) opened
          ∙ rw full (
              sign_loop_add n fuel fd path ver b (suc i) (sign_one E path ver b i w) small
                (omega arith) opened))

module _ (E : Env) where
  sign_loop_stops :
      (fd : ℕ) (path : Bytes) (ver : ℤ) (i : ℕ) (w : World E)
      → sign_loop E 0 fd path ver i w ≡ (out_of_fuel, w)
  unfolding sign_loop
  sign_loop_stops fd path ver i w = refl

module _ (E : Env) (D : Documented E) (path : Bytes) (w : World E) where
  -- The new version is recorded and the segments below `j` are signed.
  abbrev pub partway : ℤ → Bytes → ℕ → E.posix.Os → World E
  partway ver b j o = record (published E D path w ver o) {
    segments = sign_rows E path ver b 0 j w.segments;
  }

  -- What is left of the function.
  abbrev pub rest_of : ℤ → ℕ → ℕ → Exec (World E) ℤ
  rest_of ver fd j = do
    sign_loop E (max_rounds - j) fd path ver j
    try E (λ o. E.posix.close_file o fd)
    pure (pos 0)

  pub ndnfs_release-partway :
      (flags now j : ℕ) {row : FileRow} {b : Bytes}
      → E.files.select w.files path ≡ some row
      → access_mode flags ≢ 0
      → D.view.content w.os (abs_path E path) ≡ some b
      → length b < 2147483648
      → j ≤ length b / 8192
      → (fd : ℕ) × (o : E.posix.Os) × (run (release_within E j path flags now) w
          ≡ (diverged, partway (to_int now) b j o))
        × (run (ndnfs_release E path flags now) w
            ≡ run (rest_of (to_int now) fd j) (partway (to_int now) b j o))
        × ((q : Bytes) → D.view.content o q ≡ D.view.content w.os q)
  unfolding publish_within set_current_version
  ndnfs_release-partway flags now j {row} {b} found writes there small within =
      let ver = to_int now in
      let (fd, o, e, c, same) = D.reads.open-content w.os (abs_path E path) there in
      let rounds : j + (max_rounds - j) ≡ max_rounds = omega arith in
      let from_j : 0 + j ≡ j = omega arith in
      let loop : sign_loop E max_rounds fd path ver 0 (published E D path w ver o)
          ≡ sign_loop E (max_rounds - j) fd path ver j (partway ver b j o) =
        ap (λ n. sign_loop E n fd path ver 0 (published E D path w ver o)) (sym rounds)
        ∙ sign_loop_add E D.view D.reads j (max_rounds - j) fd path ver b 0
            (published E D path w ver o) small (omega arith) c
        ∙ ap (λ n. sign_loop E (max_rounds - j) fd path ver n (partway ver b j o)) from_j in
      let bounded : sign_loop E j fd path ver 0 (published E D path w ver o)
          ≡ (out_of_fuel, partway ver b j o) =
        ap (λ n. sign_loop E n fd path ver 0 (published E D path w ver o)) (omega arith)
        ∙ sign_loop_add E D.view D.reads j 0 fd path ver b 0 (published E D path w ver o) small
            (omega arith) c
        ∙ ap (λ n. sign_loop E 0 fd path ver n (partway ver b j o)) from_j
        ∙ sign_loop_stops E fd path ver j (partway ver b j o) in
      (
        fd,
        o,
        release_within-eq-publish_within E D path w j flags now found writes
            ∙ ground
                (arith, e, bounded, D.files.update_done w.files path (with_version E D path w ver)),
        release-eq-publish E D path w flags now found writes
            ∙ ground
                (arith, e, loop, D.files.update_done w.files path (with_version E D path w ver)),
        same,
      )
