-- ===== src/Cat/Fetched.antt =====
-- test/cat_file.cc against server/servermodule.cc and fs/file.cc: a fetch from the command line on.
use mathlib.Core.List.{append-nil}
use ndnfs_port.Prelude.{
  ℕ, ◌+◌, ◌*◌, ◌/◌, ◌%◌, ◌<◌, ◌==◌, pos, Bytes, false, not, ◌≡◌, ◌≢◌, refl, sym, ap, subst, ◌∙◌,
  some, [], ◌∷◌, ◌++◌, arith, length, to_int, to_u64, to_int-of_lt, to_u64-pos,
}
use ndnfs_port.External.{Env}
use ndnfs_port.External.Types.{Name, FileRow}
use ndnfs_port.External.Documented.{Documented}
use ndnfs_port.World.{World}
use ndnfs_port.Fs.Config.{abs_path}
use ndnfs_port.Fs.File.{access_mode}
use ndnfs_port.Fs.Release.Signing.{signature_of}
use ndnfs_port.Server.Config.{server_path}
use ndnfs_port.Server.Name.Forms.{ArePlain, joined}
use ndnfs_port.Server.Content.Serving.{segment_reply_end}
use ndnfs_port.Server.Interest.{on_interest}
use ndnfs_port.Server.Interest.Segments.{segment_interest, on_interest-segment_reply}
use ndnfs_port.Server.Interest.Marked.{marked_name, on_interest-marked_name}
use ndnfs_port.Delivery.{
  released, released-IsReady, IsReady, on_interest-released, ndnfs_release-on_interest_info,
}
use ndnfs_port.Fetch.Start.{announced, announced-name, told}
use ndnfs_port.Cat.{Fetcher, meta_data, segment_of, started, initial, express, on_meta_data}
use ndnfs_port.Cat.Served.{Served, Served-Reach, Served-segments, version_of, total_of}
use ndnfs_port.Cat.Single.{on_file_info, on_file_data, main}
use ndnfs_port.Cat.Single.Order.{HasReceived, asking, on_meta_data-asking, Reach-HasReceived}

-- The last segment is among those that are not empty unless the size is a multiple of 8192.
last_is_full : (n : ℕ) → ((n + 8191) / 8192 == n / 8192 + 1) ≡ not (n % 8192 == 0)
last_is_full n = ground arith

-- The number of segments that are not empty.
abbrev pub full : Bytes → ℕ
full b = (length b + 8191) / 8192

module _ (E : Env) (now : ℕ) (b : Bytes) (cs : Name) where
  -- How the program stands when the server has sent all it sends.
  pub record HasEnded (s : Fetcher) (w : World E) : Type 0 where
    pub done : s.done ≡ not (length b % 8192 == 0)
    -- The last segment is waited for if it is empty, and does not come.
    pub stuck :
        length b % 8192 ≡ 0
        → (s.pending ≡ segment_of E (version_of E cs now) (length b / 8192) ∷ [])
          × ((on_interest E (segment_interest E cs now (length b / 8192)) w).1.sent ≡ w.sent)

module _ (E : Env) (D : Documented E) (path : Bytes) (now : ℕ) (b : Bytes) (key : ℕ → Bytes)
    (cs : Name) where
  HasReceived-HasEnded :
      (s : Fetcher) (w : World E)
      → ArePlain cs
      → joined E cs ≡ E.fs_prefix ++ path
      → path ≢ []
      → now < 2147483648
      → length b < 2147483648
      → IsReady E D path now b key (length b / 8192) w
      → HasReceived E D.conventions (version_of E cs now) (total_of b) (full b) s
      → HasEnded E now b cs s w
  HasReceived-HasEnded s w plain spelled some_path recent small (there, signed) h =
      let last = length b / 8192 in
      let (o, e, _) =
        on_interest-segment_reply E D cs path now last w plain spelled some_path recent
          (omega arith) (signed last (omega arith)) there small in
      record {
        done = h.ends ∙ last_is_full (length b);
        stuck = λ whole.
            let n : full b ≡ last = omega arith in
            let more : (full b == last + 1) ≡ false = ground arith in
            let exact : length b ≡ last * 8192 = omega arith in
            (
              h.waits ∙ rw more (rw n refl),
              ap (λ r. r.1.sent) e
                  ∙ rw
                      (segment_reply_end E (segment_interest E cs now last) b (key last) last exact)
                      (append-nil w.sent),
            );
      }

module _ (E : Env) (D : Documented E) (path name_str : Bytes) (now flags : ℕ) (w : World E) where
  -- The program with the interest of its main, for a name given by -n.
  abbrev pub asking_info : Name → Fetcher
  asking_info cs = express (record { name = marked_name E cs; callback = meta_data }) initial

  main-asking_info :
      main E ((b'n', name_str) ∷ []) ≡ started (asking_info (E.ndn.parse_uri name_str))
  unfolding main
  main-asking_info = refl

  -- The information about the released file makes the program ask for its first segment.
  on_meta_data-announced :
      (cs : Name) (row : FileRow) (b : Bytes)
      → E.ndn.parse_uri E.fs_prefix ++ E.ndn.parse_uri path ≡ cs
      → length b < 2147483648
      → now < 2147483648
      → on_meta_data E (on_file_info E) (announced E D cs path now flags w row b) initial
        ≡ some (asking E D.conventions (version_of E cs now) (total_of b) (pos (length b)))
  on_meta_data-announced cs row b named small recent =
      let version : to_u64 (to_int now) ≡ now =
        ap to_u64 (to_int-of_lt now recent) ∙ to_u64-pos now (omega arith) in
      on_meta_data-asking E D.conventions cs _ (total_of b)
        (announced E D cs path now flags w row b) _
        (announced-name E D cs path now flags w row b named)
        (told E D cs path now flags w row b small recent) refl
      ∙ ap
          (λ n. some (
            asking E D.conventions (cs ++ (E.ndn.version_component n ∷ [])) (total_of b)
              (pos (length b))))
          version

  -- A regular file that has a row and less than 2 GiB is released after writing, at a time below 2
  -- ^ 31. The server finds it in the same directory. The components of the name given to cat_file
  -- by -n have no markers, spell the server's prefix and the path, which is not empty, and are
  -- what these parse to. Then the interest that main sends brings one packet. Behind it and as many
  -- exchanges with the server as the file has segments that are not empty, the program is through,
  -- unless the size is a multiple of 8192 bytes: then it waits for segment size / 8192, for which
  -- the server sends nothing.
  pub main-HasEnded :
      {row : FileRow} {b : Bytes}
      → E.files.select w.files path ≡ some row
      → row.file_type ≡ pos 7
      → access_mode flags ≢ 0
      → D.view.content w.os (abs_path E path) ≡ some b
      → server_path E path ≡ abs_path E path
      → length b < 2147483648
      → now < 2147483648
      → ArePlain (E.ndn.parse_uri name_str)
      → joined E (E.ndn.parse_uri name_str) ≡ E.fs_prefix ++ path
      → E.ndn.parse_uri E.fs_prefix ++ E.ndn.parse_uri path ≡ E.ndn.parse_uri name_str
      → path ≢ []
      → let cs = E.ndn.parse_uri name_str in
        let packet = announced E D cs path now flags w row b in
        let asked = marked_name E cs in
        let w' = (on_interest E asked (released E D cs path now flags w)).1 in
        (s : Fetcher) × (main E ((b'n', name_str) ∷ []) ≡ started s)
        × (s.pending ≡ record { name = asked; callback = meta_data } ∷ [])
        × (w'.sent ≡ w.sent ++ (record { packet = packet; signature = E.ndn.sign packet } ∷ []))
        × (t : Fetcher) × (on_meta_data E (on_file_info E) packet (record s { pending = [] })
            ≡ some t)
        × (u : Fetcher) × (w'' : World E) × Served E (on_file_data E) t w' (full b) u w''
        × HasEnded E now b cs u w''
  main-HasEnded {row} {b} found type writes there same_dir small recent plain spelled named
        some_path =
      let cs = E.ndn.parse_uri name_str in
      let key = signature_of E path (pos now) b in
      let all_full : full b * 8192 < length b + 8192 = omega arith in
      let some_segments : 0 < total_of b = omega arith in
      let few_segments : total_of b < 2147483648 = omega arith in
      let w0 = released E D cs path now flags w in
      let (ready, _) =
        released-IsReady E D cs path now flags w found writes there same_dir small recent in
      let same = on_interest-marked_name E D.conventions cs path w0 plain spelled in
      let informed =
        same
        ∙ on_interest-released E D cs path now flags w found type writes there same_dir small plain
            spelled some_path in
      let ready' =
        subst (λ r. IsReady E D path now b key (length b / 8192) r.1) (sym informed) ready in
      let (u, w'', served, ready'') =
        Served-segments E D path now b key cs (length b) (full b) _ plain spelled some_path recent
          small all_full ready' in
      let h =
        Reach-HasReceived E D.conventions (version_of E cs now) (total_of b) (pos (length b))
          some_segments few_segments (Served-Reach E (on_file_data E) served) in
      (
        asking_info cs,
        main-asking_info,
        refl,
        ap (λ r. r.1.sent) same
            ∙ ndnfs_release-on_interest_info E D cs path now flags w found type writes there
                same_dir small plain spelled some_path,
        asking E D.conventions (version_of E cs now) (total_of b) (pos (length b)),
        on_meta_data-announced cs row b named small recent,
        u,
        w'',
        served,
        HasReceived-HasEnded E D path now b key cs u w'' plain spelled some_path recent small
            ready'' h,
      )
