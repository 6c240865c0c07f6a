-- ===== src/Examples/Server.antt =====
-- Small runs of the code under server/, behind a release or alone.
use ndnfs_port.Prelude.{
  eqb, to_int, negsuc, List, Bytes, false, true, pos, negsuc, Bytes, ◌≡◌, refl, none, some, [], ◌∷◌,
  ◌++◌, arith,
}
use ndnfs_port.External.Memory.{memory, memory_documented, Disk}
use ndnfs_port.External.Table.{path_key, version_key, segment_key}
use ndnfs_port.Exec.{run, returned}
use ndnfs_port.World.{World, contents}
use ndnfs_port.Delivery
use ndnfs_port.Delivery.Session
use ndnfs_port.Fs.File.{ndnfs_write, current_row}
use ndnfs_port.Fs.Release.{ndnfs_release}
use ndnfs_port.Client.{Client, on_attr_data}
use ndnfs_port.Fetch.{fetch}
use ndnfs_port.Fetch.Start
use ndnfs_port.Fs.Release.Signing.{signature_of}
use ndnfs_port.Server.Name.Refusals
use ndnfs_port.Server.Name.Accepted
use ndnfs_port.Server.Name.Components
use ndnfs_port.Server.Interest.Information
use ndnfs_port.Server.Name.{parse_name, result}
use ndnfs_port.Server.Name.Forms
use ndnfs_port.Server.Content.Serving
use ndnfs_port.Server.Interest.{handled, on_interest}
use ndnfs_port.Server.Interest.Segments
use ndnfs_port.Server.Replies
use ndnfs_port.Examples.{
  a_path, a_content, a_components, a_row, disk_of, world_of, a_world, after_release, a_row_found,
  a_content_found, same_directory, writes, a_components-ArePlain, a_components-joined,
  a_path-ne-nil, same_directory_content, a_version_listed, small, signed_world, interest,
}

ndnfs_release-on_interests_example :
    contents
      (Delivery.on_interests memory
        (after_release a_world)
        (Delivery.segment_interests memory a_components 7 0 1)).sent
    ≡ contents [] ++ a_content
ndnfs_release-on_interests_example =
    Delivery.ndnfs_release-on_interests memory memory_documented a_components a_path 7 1 a_world
      (a_row_found a_content) writes (a_content_found a_content) same_directory small (omega arith)
      a_components-ArePlain a_components-joined a_path-ne-nil

-- "x" is written over the start of "hi", then "yz" behind it.
abbrev x_bytes : Bytes
x_bytes = b'x' ∷ []

abbrev yz_bytes : Bytes
yz_bytes = b'y' ∷ b'z' ∷ []

abbrev once_written : World memory
once_written = (run (ndnfs_write memory a_path x_bytes (pos 0)) a_world).1

abbrev twice_written : World memory
twice_written = (run (ndnfs_write memory a_path yz_bytes (pos 2)) once_written).1

once_returns :
    run (ndnfs_write memory a_path x_bytes (pos 0)) a_world ≡ (returned (pos 1), once_written)
unfolding eqb ndnfs_write current_row to_int
once_returns = refl

twice_returns :
    run (ndnfs_write memory a_path yz_bytes (pos 2)) once_written
    ≡ (returned (pos 2), twice_written)
unfolding eqb ndnfs_write current_row to_int
twice_returns = refl

two_writes :
    Session.Overwrites memory memory_documented a_path a_world a_content twice_written
      (b'x' ∷ b'i' ∷ yz_bytes)
two_writes =
    Session.wrote x_bytes 0 1 once_returns (omega arith) (omega arith)
      (Session.wrote yz_bytes 2 2 twice_returns (omega arith) (omega arith) Session.begun)

ndnfs_writes-on_interests_example :
    contents
      (Delivery.on_interests memory
        (run (ndnfs_release memory a_path 1 7) twice_written).1
        (Delivery.segment_interests memory a_components 7 0 1)).sent
    ≡ contents [] ++ (b'x' ∷ b'i' ∷ yz_bytes)
unfolding eqb
ndnfs_writes-on_interests_example =
    Session.ndnfs_writes-on_interests memory memory_documented a_path a_components 7 1 a_world
      twice_written a_content (b'x' ∷ b'i' ∷ yz_bytes) (a_row_found a_content)
      (a_content_found a_content) two_writes writes same_directory (omega arith) (omega arith)
      a_components-ArePlain a_components-joined a_path-ne-nil

on_interest-segment_reply_example :
    (o : Disk) × (on_interest memory (interest 5 0) signed_world ≡ (
      handled,
      record signed_world {
        os = o;
        sent = [] ++ Serving.segment_reply memory (interest 5 0) a_content 0 (b's' ∷ []);
      },
    ))
    × ((q : Bytes)
        → memory_documented.view.content o q ≡ memory_documented.view.content (disk_of a_content) q)
on_interest-segment_reply_example =
    Segments.on_interest-segment_reply memory memory_documented a_components a_path 5 0 signed_world
      a_components-ArePlain a_components-joined a_path-ne-nil (omega arith) (omega arith) refl
      (same_directory_content a_content) small

parse_name-forms_example :
    (parse_name memory (interest 5 3) ≡ result (pos 3) (pos 5) (pos 3) (Forms.or_root a_path))
    × (parse_name memory (a_components ++ ((0xFD ∷ 5 ∷ []) ∷ []))
        ≡ result (pos 2) (pos 5) (negsuc 0) (Forms.or_root a_path))
    × (parse_name memory a_components ≡ result (pos 1) (negsuc 0) (negsuc 0) (Forms.or_root a_path))
parse_name-forms_example =
    Forms.parse_name-forms memory memory_documented.conventions a_components a_path 5 3
      a_components-ArePlain a_components-joined (omega arith) (omega arith)

on_interest-last_segment_example :
    (memory.segments.select (after_release (world_of [] none)).segments (a_path, pos 7, pos 0)
      ≡ some (signature_of memory a_path (pos 7) [] 0))
    × ((on_interest memory (interest 7 0) (after_release (world_of [] none))).1.sent ≡ [])
on_interest-last_segment_example =
    Delivery.on_interest-last_segment memory memory_documented a_components a_path 7 1
      (world_of [] none) 0 (a_row_found []) writes (a_content_found []) same_directory refl
      (omega arith) (omega arith) a_components-ArePlain a_components-joined a_path-ne-nil

on_interest-IsReply_example :
    Replies.IsReply memory signed_world (on_interest memory (interest 5 0) signed_world).1
on_interest-IsReply_example = Replies.on_interest-IsReply memory (interest 5 0) signed_world

parse_name-refused_example :
    (parse_name memory (a_components ++ ((0 ∷ 1 ∷ []) ∷ []))
      ≡ Refusals.refusal (negsuc 0) (negsuc 0))
    × (parse_name memory (a_components ++ ((0xFD ∷ 5 ∷ []) ∷ (0xFD ∷ 1 ∷ []) ∷ []))
        ≡ Refusals.refusal (pos 5) (negsuc 0))
    × (parse_name memory (a_components ++ ((0xFD ∷ 5 ∷ []) ∷ (0 ∷ 2 ∷ []) ∷ (0 ∷ 1 ∷ []) ∷ []))
        ≡ Refusals.refusal (pos 5) (pos 2))
    × (parse_name memory (a_components ++ ((0xFD ∷ 5 ∷ []) ∷ (b'x' ∷ []) ∷ []))
        ≡ Refusals.refusal (pos 5) (negsuc 0))
parse_name-refused_example =
    Refusals.parse_name-refused memory memory_documented.conventions a_components [] 5 2 1
      (b'x' ∷ []) a_components-ArePlain (omega arith) (omega arith)
      (λ e. omega arith, λ e. omega arith)

on_interest-info_example : on_interest memory a_components a_world ≡ (
  handled,
  record a_world {
    sent =
        []
        ++ (record {
          packet = Information.info_packet memory a_path a_row a_content;
          signature = memory.ndn.sign (Information.info_packet memory a_path a_row a_content);
        }
            ∷ []);
  },
)
on_interest-info_example =
    Information.on_interest-info memory memory_documented a_components a_path a_row a_world
      a_components-ArePlain a_components-joined a_path-ne-nil (a_row_found a_content) refl
      a_version_listed (same_directory_content a_content) small

abbrev fresh_client : Client
fresh_client = record {
  done = false;
  fetch_file = true;
  file_name = b'f' ∷ [];
  current_segment = pos 0;
  total_segment = pos 0;
  saved = [];
  pending = [];
}

ndnfs_release-on_attr_data_example :
    ((on_interest memory a_components (after_release a_world)).1.sent
      ≡ []
        ++ (record {
          packet =
              Start.announced memory memory_documented a_components a_path 7 1 a_world a_row
                a_content;
          signature = memory.ndn.sign (
              Start.announced memory memory_documented a_components a_path 7 1 a_world a_row
                a_content);
        }
            ∷ []))
    × (c' : Client) × (on_attr_data memory a_components
          (Start.announced memory memory_documented a_components a_path 7 1 a_world a_row a_content)
          fresh_client
        ≡ some c')
    × ((fetch memory 1 c' (on_interest memory a_components (after_release a_world)).1).0.saved
        ≡ [] ++ a_content)
    × ((fetch memory 1 c' (on_interest memory a_components (after_release a_world)).1).0.pending
        ≡ [])
ndnfs_release-on_attr_data_example =
    Start.ndnfs_release-on_attr_data memory memory_documented a_components a_path 7 1 a_world
      fresh_client (a_row_found a_content) refl writes (a_content_found a_content) same_directory
      small (omega arith) a_components-ArePlain a_components-joined refl a_path-ne-nil refl
      (λ e. cc) refl

abbrev versioned_name : List Bytes
versioned_name = (b'p' ∷ []) ∷ (b'a' ∷ []) ∷ (0xFD ∷ 5 ∷ []) ∷ []
