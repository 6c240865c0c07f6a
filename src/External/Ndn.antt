-- ===== src/External/Ndn.antt =====
-- The parts of ndn-cpp and of the protobuf code that the program calls.
use ndnfs_port.Prelude.{
  Bool, true, ℕ, pos, some, codes, ◌<◌, ◌^◌, Bytes, ◌≡◌, List, ◌∷◌, ◌++◌, Option,
}
use ndnfs_port.External.Types.{Name, Packet, FileInfo, DirInfo}

pub record Ndn : Type 0 where
  -- Name::Component::toEscapedString, Name::fromEscapedString and Name(uri)
  pub to_escaped_string : Bytes → Bytes
  pub from_escaped_string : Bytes → Bytes
  pub parse_uri : Bytes → Name
  -- the components that appendVersion and appendSegment add
  pub version_component : ℕ → Bytes
  pub segment_component : ℕ → Bytes
  pub to_version : Bytes → ℕ
  pub to_segment : Bytes → ℕ
  -- whether toSegment takes a component: it throws unless the component has the marker of a segment
  pub is_segment : Bytes → Bool
  -- the signature that KeyChain::sign makes
  pub sign : Packet → Bytes
  -- SerializeToArray of the messages
  pub serialize_file : FileInfo → Bytes
  pub serialize_dir : List DirInfo → Bytes
  -- ParseFromArray and IsInitialized
  pub parse_file : Bytes → Option FileInfo

-- The naming conventions of NDN: a version is a number behind the octet 0xFD, a segment one behind
-- 0x00, and the conversions read them back.
pub record Conventions (N : Ndn) : Type 0 where
  pub version_body : ℕ → Bytes
  pub segment_body : ℕ → Bytes
  pub version_marker : (n : ℕ) → N.version_component n ≡ 0xFD ∷ version_body n
  pub segment_marker : (n : ℕ) → N.segment_component n ≡ 0x00 ∷ segment_body n
  pub to_version-version : (n : ℕ) → n < 2 ^ 64 → N.to_version (N.version_component n) ≡ n
  pub to_segment-segment : (n : ℕ) → n < 2 ^ 64 → N.to_segment (N.segment_component n) ≡ n
  pub is_segment-segment : (n : ℕ) → N.is_segment (N.segment_component n) ≡ true
  -- The marker of file information, taken from its escaped form, is escaped to that form again.
  pub file_marker :
      N.to_escaped_string (N.from_escaped_string (codes "%C1.FS.file")) ≡ codes "%C1.FS.file"
  -- It begins with the octet that it spells.
  pub file_marker_octet :
      (body : Bytes) × (N.from_escaped_string (codes "%C1.FS.file") ≡ 0xC1 ∷ body)
  -- Only the octet 0xC1 is escaped to the beginning of the markers, as '%' itself is escaped.
  pub escaped_octet :
      (component rest : Bytes)
      → N.to_escaped_string component ≡ codes "%C1" ++ rest
      → (body : Bytes) × (component ≡ 0xC1 ∷ body)
  -- A message whose numbers are not negative `int32`s is parsed back.
  pub parse_file-serialize_file :
      (size total version type : ℕ) (mime : Option Bytes)
      → size < 2 ^ 31
      → total < 2 ^ 31
      → version < 2 ^ 31
      → type < 2 ^ 31
      → let info : FileInfo = record {
        size = pos size;
        totalseg = pos total;
        version = pos version;
        mimetype = mime;
        file_type = pos type;
      } in
        N.parse_file (N.serialize_file info) ≡ some info
