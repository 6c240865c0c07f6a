-- ===== src/Delivery/During.antt =====
-- fs/file.cc and server/servermodule.cc together: interests that come while ndnfs_release signs.
use mathlib.Core.List.{append-nil}
use mathlib.Core.Option
use ndnfs_port.Prelude.{
  ℕ, ◌<◌, ◌≤◌, ◌/◌, pos, Bytes, ◌≡◌, ◌≢◌, ◌∙◌, refl, ap, sym, none, some, List, [], ◌∷◌, ◌++◌,
  length, arith, to_int, to_int-of_lt, ltb, if◌then◌else◌, Bool-cases, inl, inr,
}
use ndnfs_port.Exec.{diverged, run}
use ndnfs_port.External.{Env}
use ndnfs_port.External.Types.{Name, FileRow}
use ndnfs_port.External.Table.{path_key, version_key, segment_key}
use ndnfs_port.External.Documented.{Documented}
use ndnfs_port.World.{World, Sent}
use ndnfs_port.Fs.Config.{abs_path}
use ndnfs_port.Fs.File.{access_mode}
use ndnfs_port.Fs.Release.{release_within, ndnfs_release}
use ndnfs_port.Fs.Release.Signing.{signature_of}
use ndnfs_port.Fs.Release.Signing.Rows.{select-sign_rows, select-sign_rows_ne}
use ndnfs_port.Fs.Release.Signing.Partway.{partway, rest_of, ndnfs_release-partway}
use ndnfs_port.External.Table.Rows.{select-update_self, select-insert_self}
use ndnfs_port.Fs.Release.Publishing.{with_version}
use ndnfs_port.Server.Interest.Information.{info_packet, on_interest-info}
use ndnfs_port.Server.Config.{server_path}
use ndnfs_port.Server.Name.Forms.{ArePlain, joined}
use ndnfs_port.Server.Content.{send_segment}
use ndnfs_port.Server.Content.Serving.{segment_reply}
use ndnfs_port.Server.Interest.{handled, on_interest}
use ndnfs_port.Server.Interest.Segments.{
  segment_interest, on_interest-segment, on_interest-segment_reply,
}

module _ (E : Env) (D : Documented E) (cs : Name) (path : Bytes) (w : World E) where
  -- The reply for a segment, if it is one of the first `j`.
  abbrev pub answered : ℕ → ℕ → ℕ → Bytes → List Sent
  answered now j k b =
      if ltb k j
      then segment_reply E (segment_interest E cs now k) b k (signature_of E path (pos now) b k)
      else []

  -- The information with the new version.
  abbrev pub told : ℕ → FileRow → Bytes → Sent
  told now row b =
      let packet = info_packet E path (with_version E D path w (pos now) row) b in
      record { packet = packet; signature = E.ndn.sign packet }

  -- A segment that is not signed.
  unsigned_segment :
      (v k : ℕ) (w' : World E)
      → ArePlain cs
      → joined E cs ≡ E.fs_prefix ++ path
      → path ≢ []
      → v < 2147483648
      → k < 2147483648
      → E.segments.select w'.segments (path, pos v, pos k) ≡ none
      → on_interest E (segment_interest E cs v k) w' ≡ (handled, w')
  unfolding send_segment
  unsigned_segment v k w' plain spelled some_path hv hk missing =
      on_interest-segment E D cs path v k w' plain spelled some_path hv hk
      ∙ rw (missing, send_segment) refl

  -- Part of the segments are signed.
  partway-segment :
      (now j k : ℕ) (o : E.posix.Os) {b : Bytes}
      → ((n : ℕ) → E.segments.select w.segments (path, pos now, pos n) ≡ none)
      → D.view.content o (server_path E path) ≡ some b
      → length b < 2147483648
      → now < 2147483648
      → ArePlain cs
      → joined E cs ≡ E.fs_prefix ++ path
      → path ≢ []
      → k < 262144
      → (on_interest E (segment_interest E cs now k) (partway E D path w (pos now) b j o)).1.sent
        ≡ w.sent ++ answered now j k b
  partway-segment now j k o {b} fresh there small recent plain spelled some_path low =
      let mid = partway E D path w (pos now) b j o in
      elim (Bool-cases (ltb k j)) [
        | inl e ↦
            let signed =
              select-sign_rows E D.segments path (pos now) b 0 j w.segments k (omega arith)
                (ground arith) in
            let (_, f, _) =
              on_interest-segment_reply E D cs path now k mid plain spelled some_path recent low
                signed there small in
            rw e (ap (λ r. r.1.sent) f)
        | inr e ↦
            let missing : E.segments.select mid.segments (path, pos now, pos k) ≡ none =
              select-sign_rows_ne E D.segments path (pos now) b 0 j w.segments
                (path, pos now, pos k) (λ n _ lt same. let m : n ≡ k = cc same in ground arith)
              ∙ fresh k in
            rw e (
              ap (λ r. r.1.sent)
                (unsigned_segment now k mid plain spelled some_path recent (omega arith) missing)
              ∙ sym (append-nil w.sent))
      ]

  -- The new version is already the current one.
  partway-info :
      (now j : ℕ) (o : E.posix.Os) {row : FileRow} {b : Bytes}
      → E.files.select w.files path ≡ some row
      → row.file_type ≡ pos 7
      → D.view.content o (server_path E path) ≡ some b
      → length b < 2147483648
      → ArePlain cs
      → joined E cs ≡ E.fs_prefix ++ path
      → path ≢ []
      → (on_interest E cs (partway E D path w (pos now) b j o)).1.sent
        ≡ w.sent ++ (told now row b ∷ [])
  partway-info now j o {row} {b} found file there small plain spelled some_path =
      let stamp = with_version E D path w (pos now) in
      ap (λ r. r.1.sent)
        (on_interest-info E D cs path (stamp row) (partway E D path w (pos now) b j o) plain spelled
          some_path
          (select-update_self E.files D.files w.files path stamp ∙ ap (Option.map stamp) found) file
          (λ gone. ground (
            arith,
            select-insert_self E.versions D.versions w.versions (path, pos now)
                (record { size = none }),
          ))
          there small)

  -- A regular file that has a row and less than 2 GiB is released after writing, at a time below
  -- 2 ^ 31, of which file_segments has no rows yet. The server finds it in the same directory, and the
  -- client's name for it, of components without markers, spells the server's prefix and the path,
  -- which is not empty. For each number j up to size / 8192 the handler, bounded to j rounds of its
  -- loop, meets that bound, and the state that it has then made is one from which the unbounded
  -- handler goes on with segment j. In that state an interest for information is answered with the
  -- new version as the current one; an interest for a segment of that version below 2 ^ 18 is
  -- answered with that segment, if it is one of the first j, and not at all otherwise.
  pub on_interest-partway :
      (flags now j k : ℕ) {row : FileRow} {b : Bytes}
      → E.files.select w.files path ≡ some row
      → row.file_type ≡ pos 7
      → access_mode flags ≢ 0
      → D.view.content w.os (abs_path E path) ≡ some b
      → ((n : ℕ) → E.segments.select w.segments (path, pos now, pos n) ≡ none)
      → server_path E path ≡ abs_path E path
      → length b < 2147483648
      → now < 2147483648
      → ArePlain cs
      → joined E cs ≡ E.fs_prefix ++ path
      → path ≢ []
      → j ≤ length b / 8192
      → k < 262144
      → (fd : ℕ) × (o : E.posix.Os) × let mid = partway E D path w (pos now) b j o in
          (run (release_within E j path flags now) w ≡ (diverged, mid))
          × (run (ndnfs_release E path flags now) w ≡ run (rest_of E D path w (pos now) fd j) mid)
          × ((on_interest E cs mid).1.sent ≡ w.sent ++ (told now row b ∷ []))
          × ((on_interest E (segment_interest E cs now k) mid).1.sent
              ≡ w.sent ++ answered now j k b)
  on_interest-partway flags now j k {row} {b} found file writes there fresh same_dir small recent
        plain spelled some_path within low =
      let (fd, o, stops, e, same) =
        ndnfs_release-partway E D path w flags now j found writes there small within in
      let t : to_int now ≡ pos now = to_int-of_lt now recent in
      let content : D.view.content o (server_path E path) ≡ some b =
        same (server_path E path) ∙ ap (D.view.content w.os) same_dir ∙ there in
      (
        fd,
        o,
        (
          stops ∙ ap (λ z. (diverged, partway E D path w z b j o)) t,
          e ∙ ap (λ z. run (rest_of E D path w z fd j) (partway E D path w z b j o)) t,
          partway-info now j o found file content small plain spelled some_path,
          partway-segment now j k o fresh content small recent plain spelled some_path low,
        ),
      )
