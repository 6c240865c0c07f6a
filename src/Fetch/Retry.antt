-- ===== src/Fetch/Retry.antt =====
-- test/handler.cc against server/servermodule.cc: a fetch whose first interest brings a segment.
use ndnfs_port.Prelude.{
  ℕ, ◌<◌, ◌/◌, ◌%◌, ◌+◌, ◌==◌, pos, Bytes, true, ◌≡◌, ◌≢◌, some, [], ◌∷◌, ◌++◌, length,
  if◌then◌else◌,
}
use ndnfs_port.External.{Env}
use ndnfs_port.External.Types.{Name, FileRow, Packet}
use ndnfs_port.External.Documented.{Documented}
use ndnfs_port.World.{World}
use ndnfs_port.Fs.Config.{abs_path}
use ndnfs_port.Fs.File.{access_mode}
use ndnfs_port.Server.Config.{server_path}
use ndnfs_port.Server.Name.Forms.{ArePlain, joined}
use ndnfs_port.Server.Interest.{on_interest}
use ndnfs_port.Server.Interest.Marked.{marked_name, on_interest-marked_name}
use ndnfs_port.Server.Interest.Segments.{segment_interest}
use ndnfs_port.Client.{Client, attr_data, file_data, on_attr_data}
use ndnfs_port.Client.Retry.{on_attr_data-segment}
use ndnfs_port.Delivery.{released}
use ndnfs_port.Fetch.{fetch}
use ndnfs_port.Fetch.Start.{announced, asked-on_attr_data}

module _ (E : Env) (D : Documented E) (cs : Name) (path : Bytes) (now flags : ℕ) (w : World E) where
  -- A regular file that has a row and less than 2 GiB is released after writing, at a time below
  -- 2 ^ 31. The server finds it in the same directory, and the client's name for it, of components
  -- without markers, spells the server's prefix and the path, which is not empty, and is what these
  -- parse to. A client that fetches into a file, has no interest waiting and asked for information
  -- by this name is given a packet with the name of a segment of some version. It then asks for the
  -- name with the marker of a file behind it, and the server answers with the information about the
  -- release. When the client has handled that, it has, after size / 8192 + 1 exchanges more,
  -- appended the file's content to what it saved. Then no interest of it
  -- waits, unless the size is a multiple of 8192 bytes, where the one for segment size / 8192 does.
  pub on_attr_data-retry :
      {row : FileRow} {b : Bytes} (v k : ℕ) (cached : Packet) (c : Client)
      → cached.name ≡ segment_interest E cs v k
      → E.files.select w.files path ≡ some row
      → row.file_type ≡ pos 7
      → access_mode flags ≢ 0
      → D.view.content w.os (abs_path E path) ≡ some b
      → server_path E path ≡ abs_path E path
      → length b < 2147483648
      → now < 2147483648
      → ArePlain cs
      → joined E cs ≡ E.fs_prefix ++ path
      → E.ndn.parse_uri E.fs_prefix ++ E.ndn.parse_uri path ≡ cs
      → path ≢ []
      → c.fetch_file ≡ true
      → c.file_name ≢ []
      → c.pending ≡ []
      → let asked = marked_name E cs in
        let packet = announced E D cs path now flags w row b in
        let w' = (on_interest E asked (released E D cs path now flags w)).1 in
        (on_attr_data E cs cached c
          ≡ some (record c {
            pending = c.pending ++ (record { name = asked; callback = attr_data } ∷ []);
          }))
        × (w'.sent ≡ w.sent ++ (record { packet = packet; signature = E.ndn.sign packet } ∷ []))
        × (c' : Client) × (on_attr_data E asked packet c ≡ some c')
        × ((fetch E (length b / 8192 + 1) c' w').0.saved ≡ c.saved ++ b)
        × ((fetch E (length b / 8192 + 1) c' w').0.pending ≡ (
            if length b % 8192 == 0
            then record { name = segment_interest E cs now (length b / 8192); callback = file_data }
              ∷ []
            else []))
  on_attr_data-retry v k cached c named found file writes there same_dir small recent plain spelled
        uri some_path fetches into idle =
      let marked =
        on_interest-marked_name E D.conventions cs path (released E D cs path now flags w) plain
          spelled in
      let (sent, c', e, content, rest) =
        asked-on_attr_data E D cs path now flags w (marked_name E cs) c marked found file writes
          there same_dir small recent plain spelled uri some_path fetches into idle in
      (on_attr_data-segment E D.conventions cs v k cached c plain named, sent, c', e, content, rest)
