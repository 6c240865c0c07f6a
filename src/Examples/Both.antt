-- ===== src/Examples/Both.antt =====
-- Small runs of the file system, the server and the cat programs beside each other.
use ndnfs_port.Prelude.{
  false, ℕ, Bytes, true, pos, ◌≡◌, inl, inr, refl, none, some, List, [], ◌∷◌, ◌++◌, codes, eqb,
  eqb_iff, Bool-cases, ap, arith,
}
use ndnfs_port.Exec.{diverged, run}
use ndnfs_port.External.Types.{Name, Packet, FileInfo}
use ndnfs_port.External.Memory.{memory, memory_documented, Disk}
use ndnfs_port.External.Table.{path_key, version_key, segment_key}
use ndnfs_port.World.{contents, World}
use ndnfs_port.Fs.Config.{abs_path}
use ndnfs_port.Fs.FileType.{format}
use ndnfs_port.Fs.Requests.{write, unlink, handle}
use ndnfs_port.Fs.File.{ndnfs_mknod, ndnfs_write, ndnfs_unlink}
use ndnfs_port.Fs.Requests.Rows
use ndnfs_port.Fs.Requests.Catalogue.{change_all}
use ndnfs_port.Fs.Requests.Refines.{catalogue_of}
use ndnfs_port.Fs.Release.{release_within, ndnfs_release}
use ndnfs_port.Fs.Release.Signing.{signature_of}
use ndnfs_port.Fs.Release.Signing.Partway
use ndnfs_port.Server.Config.{server_path, file_component_name}
use ndnfs_port.Server.Content.Serving.{segment_reply}
use ndnfs_port.Server.Html.Folder
use ndnfs_port.Server.Interest.{on_interest}
use ndnfs_port.Server.Interest.Information.{info_packet, on_interest-info}
use ndnfs_port.Delivery.During
use ndnfs_port.Delivery.Earlier
use ndnfs_port.Delivery
use ndnfs_port.Delivery.Written
use ndnfs_port.Delivery.Created
use ndnfs_port.System
use ndnfs_port.System.{Event, request, interest, happen_all}
use ndnfs_port.System.Catalogue as SystemCatalogue
use ndnfs_port.System.Told
use ndnfs_port.Server.Interest.Marked.{marked_name}
use ndnfs_port.Client.{Client, attr_data, on_attr_data}
use ndnfs_port.Fetch.{fetch}
use ndnfs_port.Fetch.Start
use ndnfs_port.Fetch.Retry
use ndnfs_port.Cat.{Fetcher, initial, on_meta_data}
use ndnfs_port.Cat.Network.{Run}
use ndnfs_port.Cat.Network.Alive
use ndnfs_port.Cat.Served.{Served}
use ndnfs_port.Cat.Single
use ndnfs_port.Cat.Pipe
use ndnfs_port.Cat.Pipe.Answered
use ndnfs_port.Examples as Small
use ndnfs_port.Examples.{
  a_path, b_path, a_content, a_components, a_row, a_world, a_row_found, a_content_found,
  same_directory, writes, a_components-ArePlain, a_components-joined, a_path-ne-nil, small,
  a_version_listed, world_of, a_opens,
}

-- A file is written to, the server is asked about it, and another one is unlinked.
abbrev events : List Event
events =
    request (write a_path (b'x' ∷ []) (pos 0))
    ∷ interest a_components
    ∷ request (unlink b_path)
    ∷ []

abbrev new_content : Bytes
new_content = b'x' ∷ b'i' ∷ []

happen_all-change_all_example :
    catalogue_of memory (happen_all memory a_world events)
    ≡ change_all (System.requests events) (catalogue_of memory a_world)
happen_all-change_all_example =
    SystemCatalogue.happen_all-change_all memory memory_documented a_world events (tt, (tt, tt))

a_world-IsListed : Rows.IsListed memory a_world.files a_world.versions
unfolding Rows.IsListed
a_world-IsListed p row found gone = elim (Bool-cases (eqb p a_path)) [
  | inl here ↦
      let same : p ≡ a_path = (eqb_iff p a_path).0 here in
      let current : a_row ≡ row = let e : some a_row ≡ some row = rw here at found in cc in
      a_version_listed (rw (same, ← current) at gone)
  | inr elsewhere ↦ let bad : none ≡ some row = rw elsewhere at found in cc
]

happen_all-IsListed_example :
    Rows.IsListed memory
      (happen_all memory a_world events).files
      (happen_all memory a_world events).versions
happen_all-IsListed_example =
    SystemCatalogue.happen_all-IsListed memory memory_documented a_world events (tt, (tt, tt))
      a_world-IsListed

a_row_then :
    (change_all (System.requests events) (catalogue_of memory a_world)).file a_path ≡ some a_row
unfolding catalogue_of eqb
a_row_then = refl

abbrev written : World memory
written = (run (ndnfs_write memory a_path (b'x' ∷ []) (pos 0)) a_world).1

new_content_then :
    memory_documented.view.content (happen_all memory a_world events).os (server_path memory a_path)
    ≡ some new_content
unfolding System.happen handle ndnfs_write ndnfs_unlink eqb server_path
new_content_then =
    ap
      (λ r.
        memory_documented.view.content (run (ndnfs_unlink memory b_path) r.1).1.os
          (server_path memory a_path))
      (on_interest-info memory memory_documented a_components a_path a_row written
        a_components-ArePlain a_components-joined a_path-ne-nil (a_row_found a_content) refl
        a_version_listed refl (omega arith))

happen_all-told_example :
    let packet = info_packet memory a_path a_row new_content in
    (on_interest memory a_components (happen_all memory a_world events)).1.sent
    ≡ (happen_all memory a_world events).sent
      ++ (record { packet = packet; signature = memory.ndn.sign packet } ∷ [])
happen_all-told_example =
    Told.happen_all-told memory memory_documented a_world events a_components a_path (tt, (tt, tt))
      a_world-IsListed a_row_then refl new_content_then (omega arith) a_components-ArePlain
      a_components-joined a_path-ne-nil

on_interest-partway_example :
    (fd : ℕ) × (o : Disk) × let mid =
        Partway.partway memory memory_documented a_path a_world (pos 7) a_content 0 o in
      (run (release_within memory 0 a_path 1 7) a_world ≡ (diverged, mid))
      × (run (ndnfs_release memory a_path 1 7) a_world
          ≡ run (Partway.rest_of memory memory_documented a_path a_world (pos 7) fd 0) mid)
      × ((on_interest memory a_components mid).1.sent
          ≡ []
            ++ (During.told memory memory_documented a_components a_path a_world 7 a_row a_content
                ∷ []))
      × ((on_interest memory (Small.interest 7 0) mid).1.sent
          ≡ []
            ++ During.answered memory memory_documented a_components a_path a_world 7 0 0 a_content)
on_interest-partway_example =
    During.on_interest-partway memory memory_documented a_components a_path a_world 1 7 0 0
      (a_row_found a_content) refl writes (a_content_found a_content) (λ n. refl) same_directory
      small (omega arith) a_components-ArePlain a_components-joined a_path-ne-nil (omega arith)
      (omega arith)

directory_page-contractible_example :
    (shown : (page : Folder.Folder → Bytes) × Folder.ShowsFolder (codes "/") page)
    × ((other : (page : Folder.Folder → Bytes) × Folder.ShowsFolder (codes "/") page)
        → shown ≡ other)
directory_page-contractible_example = Folder.directory_page-contractible (codes "/")

-- Information about /p/a: version 5, one segment.
abbrev a_info : FileInfo
a_info = record {
  size = pos 2;
  totalseg = pos 1;
  version = pos 5;
  mimetype = none;
  file_type = pos 7;
}

abbrev info_name : Name
info_name = a_components ++ (memory.ndn.from_escaped_string file_component_name ∷ (b'v' ∷ []) ∷ [])

abbrev a_packet : Bytes → Packet
a_packet content = record {
  name = info_name;
  content = content;
  final_block_id = none;
  freshness_period = none;
}

on_meta_data-stuck_example :
    (on_meta_data memory (Single.on_file_info memory) (a_packet []) initial ≡ some initial)
    × (on_meta_data memory (Pipe.on_file_info memory) (a_packet []) initial ≡ some initial)
    × ((s : Fetcher) → Run (Single.on_file_data memory) initial s → s ≡ initial)
    × ((s : Fetcher) → Run (Pipe.on_file_data memory) initial s → s ≡ initial)
on_meta_data-stuck_example =
    Alive.on_meta_data-stuck memory a_components
      (memory.ndn.from_escaped_string file_component_name) (b'v' ∷ []) (a_packet []) refl (inr refl)

-- Segment 0 of version 5 is signed.
abbrev five_signed : World memory
five_signed = world_of a_content (some (signature_of memory a_path (pos 5) a_content 0))

on_interest-earlier_example :
    (on_interest memory (Small.interest 5 0) (
      Written.saved memory memory_documented a_components a_path
        (b'x' ∷ [])
        0
        8
        1
        five_signed)).1.sent
    ≡ []
      ++ segment_reply memory
          (Small.interest 5 0)
          new_content
          0
          (signature_of memory a_path (pos 5) a_content 0)
unfolding eqb
on_interest-earlier_example =
    Earlier.on_interest-earlier memory memory_documented a_components a_path (b'x' ∷ []) 0 5 8 1
      five_signed 0 a_content refl (a_row_found a_content) writes (a_content_found a_content)
      a_opens refl (omega arith) (omega arith) same_directory (omega arith) (omega arith)
      (omega arith) (λ e. omega arith) a_components-ArePlain a_components-joined a_path-ne-nil
      (omega arith)

-- A client that has asked for /p/a.
abbrev asked_client : Client
asked_client = record {
  done = false;
  fetch_file = true;
  file_name = b'f' ∷ [];
  current_segment = pos 0;
  total_segment = pos 0;
  saved = [];
  pending = [];
}

abbrev cached : Packet
cached = record {
  name = Small.interest 5 0;
  content = b'z' ∷ [];
  final_block_id = none;
  freshness_period = none;
}

on_attr_data-retry_example :
    let asked = marked_name memory a_components in
    let packet =
      Start.announced memory memory_documented a_components a_path 7 1 a_world a_row a_content in
    let w' = (on_interest memory asked (Small.after_release a_world)).1 in
    (on_attr_data memory a_components cached asked_client
      ≡ some (record asked_client { pending = record { name = asked; callback = attr_data } ∷ [] }))
    × (w'.sent ≡ [] ++ (record { packet = packet; signature = memory.ndn.sign packet } ∷ []))
    × (c' : Client) × (on_attr_data memory asked packet asked_client ≡ some c')
    × ((fetch memory 1 c' w').0.saved ≡ [] ++ a_content)
    × ((fetch memory 1 c' w').0.pending ≡ [])
on_attr_data-retry_example =
    Retry.on_attr_data-retry memory memory_documented a_components a_path 7 1 a_world 5 0 cached
      asked_client refl (a_row_found a_content) refl writes (a_content_found a_content)
      same_directory small (omega arith) a_components-ArePlain a_components-joined refl
      a_path-ne-nil refl (λ e. cc) refl

-- No file and no rows.
abbrev nothing : World memory
nothing = record Small.bare_world { os = record (Small.disk_of []) { contents = λ _. none } }

abbrev letters : Bytes
letters = b'a' ∷ b'b' ∷ []

ndnfs_mknod-on_interests_example :
    contents
      (Delivery.on_interests memory
        (Written.saved memory memory_documented a_components a_path letters 0 7 1
          (run (ndnfs_mknod memory a_path 33188 0 3) nothing).1)
        (Delivery.segment_interests memory a_components 7 0 1)).sent
    ≡ [] ++ letters
unfolding eqb format abs_path
ndnfs_mknod-on_interests_example =
    Created.ndnfs_mknod-on_interests memory memory_documented a_components a_path letters 33188 0 3
      7 1 nothing refl refl (omega arith) refl refl refl refl (omega arith) (omega arith) writes
      same_directory (omega arith) a_components-ArePlain a_components-joined a_path-ne-nil
