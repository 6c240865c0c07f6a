-- ===== src/Delivery.antt =====
-- fs/file.cc and server/servermodule.cc together: what ndnfs_release stores is what onInterestCallback
-- serves.
pub mod Written
pub mod Session
pub mod Created
pub mod During
pub mod Earlier
use mathlib.Core.List.{append_assoc, append-nil}
use ndnfs_port.Prelude.{
  ℕ, zero, suc, ◌<◌, ◌≤◌, ◌/◌, ◌+◌, ◌*◌, pos, Bytes, ◌≡◌, ◌≢◌, sym, ap, subst, ◌∙◌, some, List, [],
  ◌∷◌, ◌++◌, arith, length, to_int, to_int-of_lt, take, drop, drop-drop, take-of_le, take_add,
}
use ndnfs_port.Exec.{run}
use ndnfs_port.External.{Env}
use ndnfs_port.External.Types.{Name, FileRow}
use ndnfs_port.External.Documented.{Documented}
use ndnfs_port.World.{World, Sent, contents, contents_append}
use ndnfs_port.Fs.Config.{abs_path}
use ndnfs_port.Fs.File.{access_mode}
use ndnfs_port.Fs.Release.{ndnfs_release}
use ndnfs_port.Fs.Release.Signing.{chunk, signature_of}
use ndnfs_port.Fs.Release.Publishing.{
  with_version, IsPublished, release-eq, ndnfs_release-IsPublished,
}
use ndnfs_port.Server.Config.{server_path}
use ndnfs_port.Server.Name.Forms.{ArePlain, joined}
use ndnfs_port.Server.Content.Serving.{segment_reply, contents-segment_reply, segment_reply_end}
use ndnfs_port.Server.Interest.{handled, on_interest}
use ndnfs_port.Server.Interest.Information.{info_packet, on_interest-info}
use ndnfs_port.Server.Interest.Segments.{segment_interest, on_interest-segment_reply}

module _ (E : Env) where
  -- The callback runs once for each interest that arrives.
  pub on_interests : World E → List Name → World E
  on_interests w [] = w
  on_interests w (name ∷ rest) = on_interests (on_interest E name w).1 rest

  -- Interests for `n` segments, from segment `i` on.
  pub segment_interests : Name → ℕ → ℕ → ℕ → List Name
  segment_interests cs v i zero = []
  segment_interests cs v i (suc n) = segment_interest E cs v i ∷ segment_interests cs v (suc i) n

module _ (E : Env) (D : Documented E) (path : Bytes) (v : ℕ) (b : Bytes) (key : ℕ → Bytes) where
  -- The segments from `i` to `last` are signed, and the server reads the content `b`.
  abbrev pub IsReady : ℕ → World E → Type 0
  IsReady last w =
      (D.view.content w.os (server_path E path) ≡ some b)
      × ((k : ℕ) → k ≤ last → E.segments.select w.segments (path, pos v, pos k) ≡ some (key k))

  chunk_then :
      (i n : ℕ)
      → chunk b i ++ take (n * 8192) (drop (suc i * 8192) b)
        ≡ take (suc n * 8192) (drop (i * 8192) b)
  chunk_then i n =
      let e : suc i * 8192 ≡ i * 8192 + 8192 = omega arith in
      let f : suc n * 8192 ≡ 8192 + n * 8192 = omega arith in
      rw (e, f)
        (ap (λ t. take 8192 (drop (i * 8192) b) ++ take (n * 8192) t)
            (sym (drop-drop 8192 (i * 8192) b))
          ∙ take_add 8192 (n * 8192) (drop (i * 8192) b))

  on_interests-contents :
      (cs : Name) (i n : ℕ) (w : World E)
      → ArePlain cs
      → joined E cs ≡ E.fs_prefix ++ path
      → path ≢ []
      → v < 2147483648
      → length b < 2147483648
      → i + n ≤ length b / 8192 + 1
      → IsReady (length b / 8192) w
      → contents (on_interests E w (segment_interests E cs v i n)).sent
        ≡ contents w.sent ++ take (n * 8192) (drop (i * 8192) b)
  unfolding on_interests segment_interests
  on_interests-contents cs i zero w plain spelled some_path hv small le ready =
      sym (append-nil (contents w.sent))
  on_interests-contents cs i (suc n) w plain spelled some_path hv small le (there, signed) =
      let (o, e, same) =
        on_interest-segment_reply E D cs path v i w plain spelled some_path hv (omega arith)
          (signed i (omega arith)) there small in
      ap (λ r. contents (on_interests E r.1 (segment_interests E cs v (suc i) n)).sent) e
      ∙ (on_interests-contents cs (suc i) n
            (record w {
              os = o;
              sent = w.sent ++ segment_reply E (segment_interest E cs v i) b i (key i);
            })
            plain spelled some_path hv small (omega arith) (same _ ∙ there, signed)
          ∙ rw
              (
                contents_append w.sent (segment_reply E (segment_interest E cs v i) b i (key i)),
                contents-segment_reply E (segment_interest E cs v i) b (key i) i,
              )
              (append_assoc (contents w.sent) (chunk b i) (take (n * 8192) (drop (suc i * 8192) b))
                ∙ ap (λ t. contents w.sent ++ t) (chunk_then i n)))

module _ (E : Env) (D : Documented E) (cs : Name) (path : Bytes) (now flags : ℕ) (w : World E) where
  -- The state after the release of the file.
  abbrev pub released : World E
  released = (run (ndnfs_release E path flags now) w).1

  pub released-IsReady :
      {row : FileRow} {b : Bytes}
      → E.files.select w.files path ≡ some row
      → access_mode flags ≢ 0
      → D.view.content w.os (abs_path E path) ≡ some b
      → server_path E path ≡ abs_path E path
      → length b < 2147483648
      → now < 2147483648
      → IsReady E D path now b (signature_of E path (pos now) b) (length b / 8192) released
        × (released.sent ≡ w.sent)
  unfolding IsPublished
  released-IsReady {row} {b} found writes there same_dir small recent =
      let (o, e, same) = release-eq E D path w flags now found writes there small in
      let published = ndnfs_release-IsPublished E D path w flags now found writes there small in
      let v : to_int now ≡ pos now = to_int-of_lt now recent in
      (
        (
          ap (λ r. D.view.content r.1.os (server_path E path)) e
              ∙ same _
              ∙ ap (D.view.content w.os) same_dir
              ∙ there,
          subst
              (λ v.
                (k : ℕ)
                → k ≤ length b / 8192
                → E.segments.select released.segments (path, v, pos k)
                  ≡ some (signature_of E path v b k))
              v published.3,
        ),
        ap (λ r. r.1.sent) e,
      )

  -- A file that has a row and less than 2 GiB is released after writing, at a time below 2 ^ 31.
  -- The server finds it in the same directory, and the client's name for it, of components without
  -- markers, spells the server's prefix and the path, which is not empty. If interests for the
  -- segments 0 to size / 8192 of the new version then arrive in order, the contents of the packets
  -- sent, one behind the other, are the content of the file.
  pub ndnfs_release-on_interests :
      {row : FileRow} {b : Bytes}
      → E.files.select w.files path ≡ some row
      → access_mode flags ≢ 0
      → D.view.content w.os (abs_path E path) ≡ some b
      → server_path E path ≡ abs_path E path
      → length b < 2147483648
      → now < 2147483648
      → ArePlain cs
      → joined E cs ≡ E.fs_prefix ++ path
      → path ≢ []
      → contents (on_interests E released (segment_interests E cs now 0 (length b / 8192 + 1))).sent
        ≡ contents w.sent ++ b
  ndnfs_release-on_interests {row} {b} found writes there same_dir small recent plain spelled
        some_path =
      let (ready, sent) = released-IsReady found writes there same_dir small recent in
      let count : length b ≤ (length b / 8192 + 1) * 8192 = omega arith in
      on_interests-contents E D path now b (signature_of E path (pos now) b) cs 0
        (length b / 8192 + 1) released plain spelled some_path recent small (omega arith) ready
      ∙ rw sent (ap (λ t. contents w.sent ++ t) (take-of_le _ b count))

  -- A file that has a row and less than 2 GiB is released after writing, at a time below 2 ^ 31.
  -- The server finds it in the same directory, and the client's name for it, of components without
  -- markers, spells the server's prefix and the path, which is not empty. If the size is a multiple
  -- of 8192 bytes, which includes the empty file, segment size / 8192 of the new version is signed,
  -- but an interest for it sends no packet.
  pub on_interest-last_segment :
      {row : FileRow} {b : Bytes} (m : ℕ)
      → E.files.select w.files path ≡ some row
      → access_mode flags ≢ 0
      → D.view.content w.os (abs_path E path) ≡ some b
      → server_path E path ≡ abs_path E path
      → length b ≡ m * 8192
      → length b < 2147483648
      → now < 2147483648
      → ArePlain cs
      → joined E cs ≡ E.fs_prefix ++ path
      → path ≢ []
      → (E.segments.select released.segments (path, pos now, pos m)
          ≡ some (signature_of E path (pos now) b m))
        × ((on_interest E (segment_interest E cs now m) released).1.sent ≡ w.sent)
  on_interest-last_segment {row} {b} m found writes there same_dir whole small recent plain spelled
        some_path =
      let (ready, sent) = released-IsReady found writes there same_dir small recent in
      let signed = ready.1 m (omega arith) in
      let (o, e, _) =
        on_interest-segment_reply E D cs path now m released plain spelled some_path recent
          (omega arith) signed ready.0 small in
      (
        signed,
        ap (λ r. r.1.sent) e
            ∙ rw
                (segment_reply_end E (segment_interest E cs now m) b
                  (signature_of E path (pos now) b m) m whole)
                (append-nil released.sent ∙ sent),
      )

  -- The packet that tells about the file, with its signature.
  abbrev pub announcement : FileRow → Bytes → Sent
  announcement row b =
      let packet = info_packet E path (with_version E D path w (to_int now) row) b in
      record { packet = packet; signature = E.ndn.sign packet }

  pub on_interest-released :
      {row : FileRow} {b : Bytes}
      → E.files.select w.files path ≡ some row
      → row.file_type ≡ pos 7
      → access_mode flags ≢ 0
      → D.view.content w.os (abs_path E path) ≡ some b
      → server_path E path ≡ abs_path E path
      → length b < 2147483648
      → ArePlain cs
      → joined E cs ≡ E.fs_prefix ++ path
      → path ≢ []
      → on_interest E cs released
        ≡ (handled, record released { sent = released.sent ++ (announcement row b ∷ []) })
  unfolding IsPublished
  on_interest-released {row} {b} found file writes there same_dir small plain spelled some_path =
      let (o, e, same) = release-eq E D path w flags now found writes there small in
      let published = ndnfs_release-IsPublished E D path w flags now found writes there small in
      let content : D.view.content released.os (server_path E path) ≡ some b =
        ap (λ r. D.view.content r.1.os (server_path E path)) e
        ∙ same _
        ∙ ap (D.view.content w.os) same_dir
        ∙ there in
      on_interest-info E D cs path (with_version E D path w (to_int now) row) released plain spelled
        some_path published.1 file published.2 content small

  -- A regular file that has a row and less than 2 GiB is released after writing. The server finds
  -- it in the same directory, and the client's name for it, of components without markers, spells
  -- the server's prefix and the path, which is not empty. An interest with its name is then
  -- answered by one packet, which tells the size and the number of segments of what was written and
  -- the time of the release as the version.
  pub ndnfs_release-on_interest_info :
      {row : FileRow} {b : Bytes}
      → E.files.select w.files path ≡ some row
      → row.file_type ≡ pos 7
      → access_mode flags ≢ 0
      → D.view.content w.os (abs_path E path) ≡ some b
      → server_path E path ≡ abs_path E path
      → length b < 2147483648
      → ArePlain cs
      → joined E cs ≡ E.fs_prefix ++ path
      → path ≢ []
      → let packet = info_packet E path (with_version E D path w (to_int now) row) b in
        (on_interest E cs released).1.sent
        ≡ w.sent ++ (record { packet = packet; signature = E.ndn.sign packet } ∷ [])
  ndnfs_release-on_interest_info {row} {b} found file writes there same_dir small plain spelled
        some_path =
      let (o, e, same) = release-eq E D path w flags now found writes there small in
      ap (λ r. r.1.sent)
        (on_interest-released found file writes there same_dir small plain spelled some_path)
      ∙ ap (λ r. r.1.sent ++ (announcement row b ∷ [])) e
