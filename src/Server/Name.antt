-- ===== src/Server/Name.antt =====
-- server/servermodule.cc: parseName.
pub mod Forms
pub mod Refusals
pub mod Components
pub mod Accepted
use ndnfs_port.Prelude.{
  ℕ, ℤ, pos, negsuc, Bytes, Bool, true, false, not, ◌&&◌, ◌||◌, [], ◌∷◌, ◌++◌, length, drop, codes,
  eqb, eqb_ℤ, to_int, ltb, ◌==◌, if◌then◌else◌,
}
use ndnfs_port.External.{Env}
use ndnfs_port.External.Types.{Name}

-- The variables of the scan. -1 stands for a version or a segment that was not met.
pub record Scan : Type 0 where
  pub version : ℤ
  pub seg : ℤ
  pub has_meta : Bool
  pub oss : Bytes

-- The scan goes on; or the function returns -1, with the variables as they are then; or it reads the first
-- byte of an empty component.
pub data Scanned : Type 0 where
  scanned : Scan → Scanned
  refused : Scan → Scanned
  null_read : Scanned

abbrev pub is_absent : ℤ → Bool
is_absent n = eqb_ℤ n (negsuc 0)

module _ (E : Env) where
  -- One round of the loop, at a component that begins with `marker`.
  pub scan_marked : Scan → ℕ → Bytes → Scanned
  scan_marked s marker comp =
      if marker == 0xFD
      then (if is_absent s.version
          then scanned (record s { version = to_int (E.ndn.to_version comp) })
          else refused s)
      else if marker == 0x00
      then (if is_absent s.version
          then refused s
          else if not (is_absent s.seg)
          then refused s
          else scanned (record s { seg = to_int (E.ndn.to_segment comp) }))
      else if marker == 0xC1
      then (if not (is_absent s.version) || not (is_absent s.seg)
          then refused s
          else scanned (record s { has_meta = true }))
      else if is_absent s.version && is_absent s.seg
      then scanned (record s { oss = s.oss ++ (b'/' ∷ E.ndn.to_escaped_string comp) })
      else refused s

  pub scan_component : Scan → Bytes → Scanned
  unfolding scan_marked
  scan_component s [] = null_read
  scan_component s (marker ∷ body) = scan_marked s marker (marker ∷ body)

  pub scan_name : Scan → Name → Scanned
  unfolding scan_component
  scan_name s [] = scanned s
  scan_name s (comp ∷ rest) = elim (scan_component s comp) [
    | scanned s' ↦ scan_name s' rest
    | refused t ↦ refused t
    | null_read ↦ null_read
  ]

-- The result code of parseName with its three output arguments; or the undefined read, or the
-- exception of `substr`.
pub data Parsed : Type 0 where
  result : ℤ → ℤ → ℤ → Bytes → Parsed
  crash : Parsed
  out_of_range : Parsed

abbrev pub start : Scan
start = record { version = negsuc 0; seg = negsuc 0; has_meta = false; oss = [] }

pub request_kind : Scan → ℤ
request_kind s =
    if not (is_absent s.version) && not (is_absent s.seg)
    then pos 3
    else if not (is_absent s.version) && not s.has_meta
    then pos 2
    else pos 1

module _ (E : Env) where
  -- After the loop: the prefix is cut off by its length.
  pub finish_name : Scan → Parsed
  unfolding request_kind eqb codes
  finish_name s =
      if ltb (length s.oss) (length E.fs_prefix)
      then out_of_range
      else (let path = drop (length E.fs_prefix) s.oss in
          result (request_kind s) s.version s.seg (if eqb path [] then codes "/" else path))

  -- On -1 the version and the segment met so far stay in the output arguments, and the caller's path is
  -- still the empty one.
  pub parse_name : Name → Parsed
  unfolding scan_name finish_name
  parse_name name = elim (scan_name E start name) [
    | scanned s ↦ finish_name s
    | refused t ↦ result (negsuc 0) t.version t.seg []
    | null_read ↦ crash
  ]
