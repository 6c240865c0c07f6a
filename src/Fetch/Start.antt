-- ===== src/Fetch/Start.antt =====
-- test/handler.cc against server/servermodule.cc: a fetch from the first interest on.
use ndnfs_port.Prelude.{
  ℕ, ◌<◌, ◌/◌, ◌%◌, ◌+◌, ◌==◌, pos, Bytes, true, ◌≡◌, ◌≢◌, refl, sym, ap, subst, ◌∙◌, some, [], ◌∷◌,
  ◌++◌, arith, length, if◌then◌else◌, to_int, to_int-of_lt, to_u64, to_u64-pos,
}
use mathlib.Core.List.{append_assoc}
use ndnfs_port.External.{Env}
use ndnfs_port.External.Types.{Name, FileRow, Packet}
use ndnfs_port.External.Documented.{Documented}
use ndnfs_port.World.{World}
use ndnfs_port.Fs.Config.{abs_path}
use ndnfs_port.Fs.File.{access_mode}
use ndnfs_port.Fs.Release.Signing.{signature_of}
use ndnfs_port.Fs.Release.Publishing.{with_version}
use ndnfs_port.Server.Config.{server_path, file_component_name}
use ndnfs_port.Server.Meta.{meta_name}
use ndnfs_port.Server.Name.Forms.{ArePlain, joined}
use ndnfs_port.Server.Interest.{on_interest}
use ndnfs_port.Server.Interest.Segments.{segment_interest}
use ndnfs_port.Server.Interest.Information.{info_packet, info_of, told_type}
use ndnfs_port.Client.{Client, file_data, on_attr_data}
use ndnfs_port.Client.Information.{asks, on_attr_data-asks}
use ndnfs_port.Delivery.{
  released, released-IsReady, IsReady, on_interest-released, ndnfs_release-on_interest_info,
}
use ndnfs_port.Fetch.{fetch}
use ndnfs_port.Fetch.Content.{IsWaiting, fetch-HasFetched}

module _ (E : Env) (D : Documented E) (cs : Name) (path : Bytes) (now flags : ℕ) (w : World E) where
  -- The packet that tells about the file after its release.
  abbrev pub announced : FileRow → Bytes → Packet
  announced row b = info_packet E path (with_version E D path w (to_int now) row) b

  pub announced-name :
      (row : FileRow) (b : Bytes)
      → E.ndn.parse_uri E.fs_prefix ++ E.ndn.parse_uri path ≡ cs
      → (announced row b).name
        ≡ cs
          ++ (E.ndn.from_escaped_string file_component_name
              ∷ E.ndn.version_component (to_u64 (to_int now))
              ∷ [])
  unfolding meta_name
  announced-name row b named =
      sym (append_assoc (E.ndn.parse_uri E.fs_prefix) (E.ndn.parse_uri path) _)
      ∙ ap
          (λ front.
            front
            ++ (E.ndn.from_escaped_string file_component_name
                ∷ E.ndn.version_component (to_u64 (to_int now))
                ∷ []))
          named

  pub told :
      (row : FileRow) (b : Bytes)
      → length b < 2147483648
      → now < 2147483648
      → E.ndn.parse_file (announced row b).content
        ≡ some (info_of E (with_version E D path w (to_int now) row) b)
  told row b small recent =
      subst
        (λ u.
          E.ndn.parse_file (E.ndn.serialize_file (info_of E (with_version E D path w u row) b))
          ≡ some (info_of E (with_version E D path w u row) b))
        (sym (to_int-of_lt now recent))
        (D.conventions.parse_file-serialize_file (length b) (length b / 8192 + 1) now 7
          (told_type E row.mime_type) (omega arith) (omega arith) (omega arith) (omega arith))

  -- A client that handles this packet waits for the first segment of the new version.
  pub on_attr_data-IsWaiting :
      (asked : Name) (row : FileRow) (b : Bytes) (c : Client)
      → E.ndn.parse_uri E.fs_prefix ++ E.ndn.parse_uri path ≡ cs
      → length b < 2147483648
      → now < 2147483648
      → c.fetch_file ≡ true
      → c.file_name ≢ []
      → c.pending ≡ []
      → (c' : Client) × (on_attr_data E asked (announced row b) c ≡ some c')
        × IsWaiting E D path now b (signature_of E path (pos now) b) cs 0 c'
        × (c'.saved ≡ c.saved)
  unfolding meta_name
  on_attr_data-IsWaiting asked row b c named small recent fetches file idle =
      let info = info_of E (with_version E D path w (to_int now) row) b in
      let number : to_u64 (to_int now) ≡ now =
        ap to_u64 (to_int-of_lt now recent) ∙ to_u64-pos now (omega arith) in
      (
        asks E D.conventions cs info c,
        on_attr_data-asks E D.conventions asked cs (E.ndn.version_component (to_u64 (to_int now)))
            (announced row b) info c (announced-name row b named) (told row b small recent) fetches,
        (
          ap
                (λ waiting.
                  waiting
                  ++ (record {
                    name =
                        cs
                        ++ (E.ndn.version_component (to_u64 (to_int now))
                            ∷ E.ndn.segment_component 0
                            ∷ []);
                    callback = file_data;
                  }
                      ∷ []))
                idle
              ∙ ap (λ u. record { name = segment_interest E cs u 0; callback = file_data } ∷ [])
                  number,
          refl,
          file,
        ),
        refl,
      )

  -- The fetch by whatever name the server answers like the path's.
  pub asked-on_attr_data :
      (asked : Name) {row : FileRow} {b : Bytes} (c : Client)
      → on_interest E asked (released E D cs path now flags w)
        ≡ on_interest E cs (released E D cs path now flags w)
      → E.files.select w.files path ≡ some row
      → row.file_type ≡ pos 7
      → access_mode flags ≢ 0
      → D.view.content w.os (abs_path E path) ≡ some b
      → server_path E path ≡ abs_path E path
      → length b < 2147483648
      → now < 2147483648
      → ArePlain cs
      → joined E cs ≡ E.fs_prefix ++ path
      → E.ndn.parse_uri E.fs_prefix ++ E.ndn.parse_uri path ≡ cs
      → path ≢ []
      → c.fetch_file ≡ true
      → c.file_name ≢ []
      → c.pending ≡ []
      → ((on_interest E asked (released E D cs path now flags w)).1.sent
          ≡ w.sent
            ++ (record { packet = announced row b; signature = E.ndn.sign (announced row b) } ∷ []))
        × (c' : Client) × (on_attr_data E asked (announced row b) c ≡ some c')
        × ((fetch E
              (length b / 8192 + 1)
              c'
              (on_interest E asked (released E D cs path now flags w)).1).0.saved
            ≡ c.saved ++ b)
        × ((fetch E
              (length b / 8192 + 1)
              c'
              (on_interest E asked (released E D cs path now flags w)).1).0.pending
            ≡ (if length b % 8192 == 0
                then record {
                  name = segment_interest E cs now (length b / 8192);
                  callback = file_data;
                }
                  ∷ []
                else []))
  asked-on_attr_data asked {row} {b} c same_answer found file writes there same_dir small recent
        plain spelled named some_path fetches into idle =
      let (c', e, waiting, saved) =
        on_attr_data-IsWaiting asked row b c named small recent fetches into idle in
      let (ready, _) =
        released-IsReady E D cs path now flags w found writes there same_dir small recent in
      let informed =
        same_answer
        ∙ on_interest-released E D cs path now flags w found file writes there same_dir small plain
            spelled some_path in
      let ready' =
        subst (λ r. IsReady E D path now b (signature_of E path (pos now) b) (length b / 8192) r.1)
          (sym informed) ready in
      let (content, rest) =
        fetch-HasFetched E D path now b (signature_of E path (pos now) b) cs (length b / 8192 + 1) 0
          c' _ plain spelled some_path recent small (omega arith) (omega arith) ready' waiting in
      (
        ap (λ r. r.1.sent) same_answer
            ∙ ndnfs_release-on_interest_info E D cs path now flags w found file writes there
                same_dir small plain spelled some_path,
        c',
        e,
        content ∙ ap (λ t. t ++ b) saved,
        rest,
      )

  -- A regular file that has a row and less than 2 GiB is released after writing, at a time below 2
  -- ^ 31. The server finds it in the same directory, and the client's name for it, of components
  -- without markers, spells the server's prefix and the path, which is not empty, and is what these
  -- parse to. The interest with this name brings one packet. A client that fetches into a file, has
  -- no interest waiting and handles this packet has, after size / 8192 + 1 exchanges more, appended
  -- the file's content to what it saved. Then no interest of it waits, unless the size is a
  -- multiple of 8192 bytes, where the one for segment size / 8192 does.
  pub ndnfs_release-on_attr_data :
      {row : FileRow} {b : Bytes} (c : Client)
      → E.files.select w.files path ≡ some row
      → row.file_type ≡ pos 7
      → access_mode flags ≢ 0
      → D.view.content w.os (abs_path E path) ≡ some b
      → server_path E path ≡ abs_path E path
      → length b < 2147483648
      → now < 2147483648
      → ArePlain cs
      → joined E cs ≡ E.fs_prefix ++ path
      → E.ndn.parse_uri E.fs_prefix ++ E.ndn.parse_uri path ≡ cs
      → path ≢ []
      → c.fetch_file ≡ true
      → c.file_name ≢ []
      → c.pending ≡ []
      → ((on_interest E cs (released E D cs path now flags w)).1.sent
          ≡ w.sent
            ++ (record { packet = announced row b; signature = E.ndn.sign (announced row b) } ∷ []))
        × (c' : Client) × (on_attr_data E cs (announced row b) c ≡ some c')
        × ((fetch E
              (length b / 8192 + 1)
              c'
              (on_interest E cs (released E D cs path now flags w)).1).0.saved
            ≡ c.saved ++ b)
        × ((fetch E
              (length b / 8192 + 1)
              c'
              (on_interest E cs (released E D cs path now flags w)).1).0.pending
            ≡ (if length b % 8192 == 0
                then record {
                  name = segment_interest E cs now (length b / 8192);
                  callback = file_data;
                }
                  ∷ []
                else []))
  ndnfs_release-on_attr_data c = asked-on_attr_data cs c refl
