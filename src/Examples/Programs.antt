-- ===== src/Examples/Programs.antt =====
-- Small runs of the clients under test/ and of the command lines.
use ndnfs_port.Prelude.{
  All, ℕ, pos, neg, Bytes, true, false, ◌≡◌, refl, some, none, List, [], ◌∷◌, ◌++◌, codes,
  if◌then◌else◌, to_u64, arith, eqb,
}
use ndnfs_port.External.Types.{Name, Packet, FileInfo}
use ndnfs_port.External.Memory.{memory, memory_documented, codec-Conventions}
use ndnfs_port.Server.Config.{file_component_name}
use ndnfs_port.Server.Interest.{on_interest}
use ndnfs_port.Server.Startup as ServerStartup
use ndnfs_port.Server.Startup.Options
use ndnfs_port.Fs.Startup
use ndnfs_port.Fs.Startup.Arguments
use ndnfs_port.Client.Console.{trim, stdin_read_line}
use ndnfs_port.Client.Console.Trim
use ndnfs_port.Client.Console.Words
use ndnfs_port.Client.Console.Line.{IsNotNul}
use ndnfs_port.Client.Command.{obey, showing, fetching, fetch_command, show_command, occurs}
use ndnfs_port.Cat.{Fetcher, initial, on_meta_data, meta_data, started}
use ndnfs_port.Cat.Served
use ndnfs_port.Cat.Fetched
use ndnfs_port.World.{World}
use ndnfs_port.Server.Interest.Marked
use ndnfs_port.Cat.Network
use ndnfs_port.Cat.Single
use ndnfs_port.Cat.Single.Order
use ndnfs_port.Cat.Pipe
use ndnfs_port.Cat.Pipe.Gap
use ndnfs_port.Fetch.Start
use ndnfs_port.Fs.Release.Publishing.{with_version}
use ndnfs_port.Server.Interest.Information.{info_of}
use ndnfs_port.Fetch.Typed
use ndnfs_port.Examples.{
  a_path, a_content, a_row, a_world, after_release, a_components, a_row_found, a_content_found,
  writes, same_directory, small, a_components-ArePlain, a_components-joined, a_path-ne-nil,
}

-- The information about a file of nine segments.
abbrev nine : FileInfo
nine = record {
  size = pos 70000;
  totalseg = pos 9;
  version = pos 7;
  mimetype = none;
  file_type = pos 7;
}

abbrev nine_packet : Packet
nine_packet = record {
  name = a_components ++ (memory.ndn.from_escaped_string file_component_name ∷ (1 ∷ []) ∷ []);
  content = memory.ndn.serialize_file nine;
  final_block_id = none;
  freshness_period = none;
}

nine_parsed : memory.ndn.parse_file (memory.ndn.serialize_file nine) ≡ some nine
unfolding to_u64
nine_parsed = refl

abbrev versioned : Name
versioned = a_components ++ (memory.ndn.version_component (to_u64 (pos 7)) ∷ [])

on_meta_data-HasReceived_example :
    (t : Fetcher) × (on_meta_data memory (Single.on_file_info memory) nine_packet initial ≡ some t)
    × ((k : ℕ) (s : Fetcher)
        → Network.Reach (Single.on_file_data memory) t k s
        → Order.HasReceived memory codec-Conventions versioned 9 k s)
    × ((s : Fetcher) × Network.Reach (Single.on_file_data memory) t 9 s)
on_meta_data-HasReceived_example =
    Order.on_meta_data-HasReceived memory codec-Conventions a_components (1 ∷ []) 9 nine_packet nine
      refl nine_parsed refl (omega arith) (omega arith)

trim-IsTrimmed_example : Trim.IsTrimmed (codes " show /a\n") (trim (codes " show /a\n"))
trim-IsTrimmed_example = Trim.trim-IsTrimmed (codes " show /a\n")

trim_test : trim (codes " show /a\n") ≡ codes "show /a"
unfolding trim codes
trim_test = refl

-- "/p/a" and "f"
abbrev typed_name : Bytes
typed_name = b'/' ∷ b'p' ∷ b'/' ∷ b'a' ∷ []

abbrev typed_file : Bytes
typed_file = b'f' ∷ []

abbrev words : List Bytes
words = typed_name ∷ typed_file ∷ []

typed_name-IsFreeOf : Words.IsFreeOf b' ' typed_name
typed_name-IsFreeOf = (refl, (refl, (refl, (refl, tt))))

-- "show " stands behind "fetch /", and the first five bytes are cut off.
obey-show_test :
    obey memory (codes "fetch /show f") ≡ showing (memory.ndn.parse_uri (codes " /show f"))
unfolding obey codes
obey-show_test = refl

no_show : occurs show_command (fetch_command ++ Words.join b' ' words) ≡ false
unfolding occurs show_command fetch_command
no_show = refl

typed_line-All : All IsNotNul (Typed.fetch_line typed_name typed_file ++ (b'\n' ∷ []))
unfolding fetch_command
typed_line-All = (
  refl,
  (
    refl,
    (refl, (refl, (refl, (refl, (refl, (refl, (refl, (refl, (refl, (refl, (refl, tt))))))))))),
  ),
)

obey-on_interest_example :
    let packet =
      Start.announced memory memory_documented a_components a_path 7 1 a_world a_row a_content in
    let input = Typed.fetch_line typed_name typed_file ++ (b'\n' ∷ []) in
    (obey memory (stdin_read_line input) ≡ fetching a_components typed_file)
    × ((on_interest memory a_components (after_release a_world)).1.sent
        ≡ [] ++ (record { packet = packet; signature = memory.ndn.sign packet } ∷ []))
    × (memory.ndn.parse_file packet.content
        ≡ some (
            info_of memory
              (with_version memory memory_documented a_path a_world (pos 7) a_row)
              a_content))
unfolding fetch_command
obey-on_interest_example =
    Typed.obey-on_interest memory memory_documented a_path 7 1 a_world typed_name [] b'f'
      (b'\n' ∷ []) (omega arith) typed_name-IsFreeOf (refl, tt) refl (refl, tt) typed_line-All
      no_show (a_row_found a_content) refl writes (a_content_found a_content) same_directory small
      (omega arith) a_components-ArePlain a_components-joined a_path-ne-nil

main-HasEnded_example :
    let asked = Marked.marked_name memory a_components in
    let packet =
      Start.announced memory memory_documented a_components a_path 7 1 a_world a_row a_content in
    let w' = (on_interest memory asked (after_release a_world)).1 in
    (s : Fetcher) × (Single.main memory ((b'n', typed_name) ∷ []) ≡ started s)
    × (s.pending ≡ record { name = asked; callback = meta_data } ∷ [])
    × (w'.sent ≡ [] ++ (record { packet = packet; signature = memory.ndn.sign packet } ∷ []))
    × (t : Fetcher) × (on_meta_data memory
          (Single.on_file_info memory)
          packet
          (record s { pending = [] })
        ≡ some t)
    × (u : Fetcher) × (w'' : World memory) × Served.Served memory
        (Single.on_file_data memory)
        t
        w'
        1
        u
        w''
    × Fetched.HasEnded memory 7 a_content a_components u w''
main-HasEnded_example =
    Fetched.main-HasEnded memory memory_documented a_path typed_name 7 1 a_world
      (a_row_found a_content) refl writes (a_content_found a_content) same_directory small
      (omega arith) a_components-ArePlain a_components-joined refl a_path-ne-nil

-- Only "/d/" is a folder.
abbrev host : Startup.Host
host = record {
  stat_mode = λ p. if eqb p (codes "/d/") then some 16877 else none;
  realpath = λ p. p;
  fuse_opt_parse = λ args. (record { prefix = none; log_path = none; db_path = none }, args);
  to_uri = λ p. p;
  opens = λ p. false;
  sqlite_opens = λ p. true;
}

main-folder_example :
    ((folder : Bytes) (rest : List Bytes)
      → Startup.is_option folder ≡ false
      → Startup.main host (codes "ndnfs") (codes "-s" ∷ [] ++ (folder ∷ rest))
        ≡ Arguments.checked host folder (codes "ndnfs" ∷ (codes "-s" ∷ [] ++ rest)))
    × (Startup.main host (codes "ndnfs") (codes "-s" ∷ []) ≡ Startup.exits (neg 1))
unfolding codes
main-folder_example = Arguments.main-folder host (codes "ndnfs") (codes "-s" ∷ []) (refl, tt)

abbrev options : List (ℕ × Bytes)
options = (b'd', codes "/x.db") ∷ (b'p', codes "/x") ∷ (b'p', codes "/y") ∷ []

read_options-last_example :
    ServerStartup.read_options options ServerStartup.defaults
    ≡ some (Options.with_options options ServerStartup.defaults)
read_options-last_example = Options.read_options-last options ServerStartup.defaults
