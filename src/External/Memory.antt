-- ===== src/External/Memory.antt =====
-- A small environment in memory: tables and files as functions, and simple encodings. It satisfies the
-- documented behaviour, and evaluates.
pub mod Files
mod Descriptors
use ndnfs_port.Prelude.{
  Bool, false, Bool-cases, inl, inr, codes, ◌&&◌, ℕ, ◌+◌, ◌-◌, ℤ, pos, negsuc, Bytes, ◌≡◌, refl,
  Option, none, some, [], ◌∷◌, ◌++◌, take, drop, length, eqb, to_u64, to_u64-pos, ◌<◌, ◌^◌, ◌==◌,
  ==_iff, if◌then◌else◌, arith, ap,
}
use mathlib.Core.Option
use ndnfs_port.Exec.{Sys, ok, err}
use ndnfs_port.External.{Env}
use ndnfs_port.External.Types.{FileInfo, Name, Stat}
use ndnfs_port.External.Table
use ndnfs_port.External.Table.{Key, keep_first, path_key, version_key, segment_key}
use Files.{disk, disk_view, disk-Reads, disk-Writes}
use Descriptors.{disk-Counts, disk-Paths}
pub use Files.{Disk}
use ndnfs_port.External.Ndn.{Ndn, Conventions}
use ndnfs_port.External.Documented.{Documented}

module _ {K V : Type 0} ⦃k : Key K⦄ where
  abbrev pub table : Table.Table K V
  table = record {
    Rows = K → Option V;
    select = λ r a. r a;
    insert = λ r a v b. if k.same a b then keep_first (r a) v else r b;
    replace = λ r a v b. if k.same a b then some v else r b;
    update = λ r a f. (pos 101, λ b. if k.same a b then Option.map f (r a) else r b);
    delete = λ r a b. if k.same a b then none else r b;
    rename = λ r to from b.
        if eqb (k.path b) to
        then r (k.at_path b from)
        else if eqb (k.path b) from
        then none
        else r b;
  }

  pub table-IsLawful : Table.IsLawful table
  table-IsLawful = record {
    select-insert = λ r a b v. refl;
    select-replace = λ r a b v. refl;
    update_done = λ r a f. refl;
    select-update = λ r a b f. refl;
    select-delete = λ r a b. refl;
    select-rename = λ r to from b h. refl;
  }

-- The components between slashes; empty ones are dropped.
abbrev add_component : Bytes → Name → Name
add_component [] name = name
add_component (c ∷ cs) name = (c ∷ cs) ∷ name

abbrev split_slashes : Bytes → Bytes → Name
split_slashes acc [] = add_component acc []
split_slashes acc (c ∷ cs) =
    let rest = split_slashes [] cs in
    let more = split_slashes (acc ++ (c ∷ [])) cs in
    if c == b'/' then add_component acc rest else more

abbrev second : Bytes → ℕ
second [] = 0
second (_ ∷ []) = 0
second (_ ∷ n ∷ _) = n

abbrev starts_with_nul : Bytes → Bool
starts_with_nul [] = false
starts_with_nul (m ∷ _) = m == 0x00

abbrev sum : Bytes → ℕ
sum [] = 0
sum (c ∷ cs) = c + sum cs

-- The message as its numbers, and whether there is a MIME type.
abbrev write_mime : Option Bytes → Bytes
write_mime none = []
write_mime (some m) = 1 ∷ m

abbrev read_mime : Bytes → Option Bytes
read_mime [] = none
read_mime (_ ∷ m) = some m

abbrev write_info : FileInfo → Bytes
write_info f =
    to_u64 f.size
    ∷ to_u64 f.totalseg
    ∷ to_u64 f.version
    ∷ to_u64 f.file_type
    ∷ write_mime f.mimetype

abbrev parse_info : Bytes → Option FileInfo
parse_info (size ∷ totalseg ∷ version ∷ type ∷ mime) = some (record {
  size = pos size;
  totalseg = pos totalseg;
  version = pos version;
  mimetype = read_mime mime;
  file_type = pos type;
})
parse_info _ = none

read_mime-write_mime : (m : Option Bytes) → read_mime (write_mime m) ≡ m
read_mime-write_mime none = refl
read_mime-write_mime (some m) = refl

parse_info-write_info :
    (a t v f : ℕ) (m : Option Bytes)
    → a < 2 ^ 31
    → t < 2 ^ 31
    → v < 2 ^ 31
    → f < 2 ^ 31
    → let info : FileInfo = record {
      size = pos a;
      totalseg = pos t;
      version = pos v;
      mimetype = m;
      file_type = pos f;
    } in
      parse_info (write_info info) ≡ some info
parse_info-write_info a t v f m ha ht hv hf =
    rw
      (
        to_u64-pos a (omega arith),
        to_u64-pos t (omega arith),
        to_u64-pos v (omega arith),
        to_u64-pos f (omega arith),
        read_mime-write_mime m,
      )
      refl

-- Of the octets that are escaped, only '%' and 0xC1 in the first place are.
abbrev escape : Bytes → Bytes
escape [] = []
escape (m ∷ body) =
    if m == 0xC1
    then b'%' ∷ b'C' ∷ b'1' ∷ body
    else if m == b'%'
    then b'%' ∷ b'2' ∷ b'5' ∷ body
    else m ∷ body

abbrev unescape : Bytes → Bytes
unescape (a ∷ b ∷ c ∷ body) =
    if (a == b'%') && ((b == b'C') && (c == b'1'))
    then 0xC1 ∷ body
    else if (a == b'%') && ((b == b'2') && (c == b'5'))
    then b'%' ∷ body
    else a ∷ b ∷ c ∷ body
unescape s = s

escape_octet :
    (component rest : Bytes)
    → escape component ≡ b'%' ∷ b'C' ∷ b'1' ∷ rest
    → (body : Bytes) × (component ≡ 0xC1 ∷ body)
escape_octet [] rest e = cc
escape_octet (m ∷ body) rest e = elim (Bool-cases (m == 0xC1)) [
  | inl octet ↦ (body, rw ((==_iff m 0xC1).0 octet) refl)
  | inr other ↦ ground arith
]

-- Numbers are one element long, and a signature is a checksum.
abbrev pub codec : Ndn
codec = record {
  to_escaped_string = escape;
  from_escaped_string = unescape;
  parse_uri = split_slashes [];
  version_component = λ n. 0xFD ∷ n ∷ [];
  segment_component = λ n. 0x00 ∷ n ∷ [];
  to_version = second;
  to_segment = second;
  is_segment = starts_with_nul;
  sign = λ p. sum p.content ∷ [];
  serialize_file = write_info;
  serialize_dir = λ ds. [];
  parse_file = parse_info;
}

pub codec-Conventions : Conventions codec
unfolding codes
codec-Conventions = record {
  version_body = λ n. n ∷ [];
  segment_body = λ n. n ∷ [];
  version_marker = λ n. refl;
  segment_marker = λ n. refl;
  to_version-version = λ n _. refl;
  to_segment-segment = λ n _. refl;
  is_segment-segment = λ n. refl;
  file_marker = refl;
  file_marker_octet = (codes ".FS.file", refl);
  escaped_octet = escape_octet;
  parse_file-serialize_file = parse_info-write_info;
}

-- The file system and the server work in the same directory, and publish under "/p".
abbrev pub memory : Env
memory = record {
  files = table;
  versions = table;
  segments = table;
  column_beyond = none;
  update_size = λ rows _ _ _. (pos 1, rows);
  fresh_bytes = λ _. [];
  posix = disk;
  ndn = codec;
  root_path = b'/' ∷ b'd' ∷ [];
  global_prefix = b'/' ∷ b'p' ∷ [];
  fs_path = b'/' ∷ b'd' ∷ [];
  fs_prefix = b'/' ∷ b'p' ∷ [];
}

abbrev pub memory_documented : Documented memory
memory_documented = record {
  files = table-IsLawful;
  versions = table-IsLawful;
  segments = table-IsLawful;
  view = disk_view;
  reads = disk-Reads;
  writes = disk-Writes;
  counts = disk-Counts;
  paths = disk-Paths;
  conventions = codec-Conventions;
}
