-- ===== src/Fs/Release/Publishing.antt =====
-- fs/file.cc, ndnfs_release as a whole.
use mathlib.Core.Option
use ndnfs_port.Prelude.{
  ℕ, ◌+◌, ◌/◌, ◌≤◌, ◌<◌, ℤ, pos, Bytes, ◌≡◌, ◌≢◌, refl, sym, subst, ap, ◌∙◌, none, some, arith,
  length, to_int,
}
use ndnfs_port.Exec.{Outcome, returned, run}
use ndnfs_port.External.{Env}
use ndnfs_port.External.Types.{FileRow}
use ndnfs_port.External.Table.{SegmentKey, path_key, version_key, segment_key}
use ndnfs_port.External.Documented.{Documented}
use ndnfs_port.World.{World}
use ndnfs_port.External.Table.Rows.{select-update_self, select-insert_self}
use ndnfs_port.Fs.Release.Signing.Rows.{select-sign_rows, select-sign_rows_ne}
use ndnfs_port.Fs.Config.{abs_path}
use ndnfs_port.Fs.File.{access_mode}
use ndnfs_port.Fs.Release.{
  publish_within, release_within, max_rounds, set_current_version, publish, ndnfs_release,
}
use ndnfs_port.Fs.Release.Signing.{sign_rows, signature_of, sign_loop-content}

module _ (E : Env) (D : Documented E) (path : Bytes) (w : World E) where
  abbrev pub with_version : ℤ → FileRow → FileRow
  with_version ver row = record row { current_version = ver }

  -- The state before the loop.
  abbrev pub published : ℤ → E.posix.Os → World E
  published ver o = record w {
    files = (E.files.update w.files path (with_version ver)).1;
    versions = E.versions.insert w.versions (path, ver) (record { size = none });
    os = o;
  }

  pub publish-eq :
      (ver : ℤ) (b : Bytes)
      → length b < 2147483648
      → D.view.content w.os (abs_path E path) ≡ some b
      → (o : E.posix.Os) × (run (publish E path ver) w ≡ (
        returned (pos 0),
        record (published ver o) {
          segments = sign_rows E path ver b 0 (length b / 8192 + 1) w.segments;
        },
      ))
        × ((q : Bytes) → D.view.content o q ≡ D.view.content w.os q)
  unfolding publish_within set_current_version
  publish-eq ver b small there =
      let (fd, o, e, c, same) = D.reads.open-content w.os (abs_path E path) there in
      let loop =
        sign_loop-content E D.view D.reads max_rounds fd path ver b 0 (published ver o) small
          (omega arith) (omega arith) c in
      (
        (E.posix.close_file o fd).1,
        ground (arith, e, loop, D.files.update_done w.files path (with_version ver)),
        λ q. D.reads.close-content o fd q ∙ same q,
      )

  pub release_within-eq-publish_within :
      (rounds flags now : ℕ) {row : FileRow}
      → E.files.select w.files path ≡ some row
      → access_mode flags ≢ 0
      → run (release_within E rounds path flags now) w
        ≡ run (publish_within E rounds path (to_int now)) w
  unfolding release_within
  release_within-eq-publish_within rounds flags now found writes = ground arith

  pub release-eq-publish :
      (flags now : ℕ) {row : FileRow}
      → E.files.select w.files path ≡ some row
      → access_mode flags ≢ 0
      → run (ndnfs_release E path flags now) w ≡ run (publish E path (to_int now)) w
  release-eq-publish flags now found writes =
      release_within-eq-publish_within max_rounds flags now found writes

  -- A release that records a version, as one equation.
  pub release-eq :
      (flags now : ℕ) {row : FileRow} {b : Bytes}
      → E.files.select w.files path ≡ some row
      → access_mode flags ≢ 0
      → D.view.content w.os (abs_path E path) ≡ some b
      → length b < 2147483648
      → (o : E.posix.Os) × (run (ndnfs_release E path flags now) w ≡ (
        returned (pos 0),
        record (published (to_int now) o) {
          segments = sign_rows E path (to_int now) b 0 (length b / 8192 + 1) w.segments;
        },
      ))
        × ((q : Bytes) → D.view.content o q ≡ D.view.content w.os q)
  release-eq flags now {row} {b} found writes there small =
      let (o, e, same) = publish-eq (to_int now) b small there in
      (o, release-eq-publish flags now found writes ∙ e, same)

  -- What a release of the content `b` promises of its outcome.
  unfoldable pub IsPublished : ℤ → FileRow → Bytes → Outcome × World E → Type 0
  IsPublished ver row b x =
      (x.0 ≡ returned (pos 0))
      × (E.files.select x.1.files path ≡ some (with_version ver row))
      × (E.versions.select x.1.versions (path, ver) ≢ none)
      × ((k : ℕ)
          → k ≤ length b / 8192
          → E.segments.select x.1.segments (path, ver, pos k) ≡ some (signature_of E path ver b k))
      × ((key : SegmentKey)
          → ((k : ℕ) → k ≤ length b / 8192 → (path, ver, pos k) ≢ key)
          → E.segments.select x.1.segments key ≡ E.segments.select w.segments key)

  -- Releasing a file that was open for writing, whose row is there and whose content has less than 2 GiB,
  -- returns 0. The time is then the file's current version and is listed among its versions; the segments
  -- 0 to size / 8192 of that version each have the signature over their name and their part of the content;
  -- and no other row of `file_segments` changes.
  pub ndnfs_release-IsPublished :
      (flags now : ℕ) {row : FileRow} {b : Bytes}
      → E.files.select w.files path ≡ some row
      → access_mode flags ≢ 0
      → D.view.content w.os (abs_path E path) ≡ some b
      → length b < 2147483648
      → IsPublished (to_int now) row b (run (ndnfs_release E path flags now) w)
  unfolding IsPublished
  ndnfs_release-IsPublished flags now {row} {b} found writes there small =
      let ver = to_int now in
      let (o, e, _) = publish-eq ver b small there in
      subst (IsPublished ver row b) (sym (release-eq-publish flags now found writes ∙ e)) (
        refl,
        select-update_self E.files D.files w.files path (with_version ver)
            ∙ ap (Option.map (with_version ver)) found,
        λ gone. ground (
          arith,
          select-insert_self E.versions D.versions w.versions (path, ver) (record { size = none }),
        ),
        λ k le.
            select-sign_rows E D.segments path ver b 0 _ w.segments k (omega arith) (omega arith),
        λ key other.
            select-sign_rows_ne E D.segments path ver b 0 _ w.segments key
              (λ k _ lt. other k (omega arith)),
      )
