-- ===== src/Cat.antt =====
-- test/cat_file.cc and test/cat_file_pipe.cc: two programs that fetch a file into nowhere, to measure the
-- throughput. They have the same globals and differ in how many interests they keep waiting.
pub mod Single
pub mod Pipe
pub mod Network
pub mod Served
pub mod Fetched
use ndnfs_port.Prelude.{
  ℕ, zero, suc, ℤ, pos, Bytes, Bool, true, false, Option, none, some, List, [], ◌∷◌, ◌++◌, ◌==◌,
  to_u64, if◌then◌else◌,
}
use ndnfs_port.External.{Env}
use mathlib.Core.Option
use ndnfs_port.External.Types.{Name, Packet}
use ndnfs_port.Server.Config.{file_component_name, dir_component_name}
use ndnfs_port.Client.{split_last_two, is_marker}

-- Which callback takes the data of an interest.
pub data Callback : Type 0 where
  meta_data file_data : Callback

pub record Asked : Type 0 where
  pub name : Name
  pub callback : Callback

-- The globals, but for the clock and the keys, with the interests that wait.
pub record Fetcher : Type 0 where
  pub file_name : Name
  pub total_size : ℤ
  pub total_seg : ℤ
  pub current_seg : ℤ
  pub done : Bool
  pub pending : List Asked

-- The globals as the program starts.
abbrev pub initial : Fetcher
initial = record {
  file_name = [];
  total_size = pos 0;
  total_seg = pos 0;
  current_seg = pos 0;
  done = false;
  pending = [];
}

-- handler.expressInterest(…, onTimeout)
abbrev pub express : Asked → Fetcher → Fetcher
express a s = record s { pending = s.pending ++ (a ∷ []) }

module _ (E : Env) where
  -- The interest for a segment: Name(file_name).appendSegment(…).
  abbrev pub segment_of : Name → ℕ → Asked
  segment_of file_name i = record {
    name = file_name ++ (E.ndn.segment_component i ∷ []);
    callback = file_data;
  }

  -- The interest for segment current_seg.
  abbrev pub ask_current : Fetcher → Fetcher
  ask_current s = express (segment_of s.file_name (to_u64 s.current_seg)) s

  -- `onMetaData`, over what the program does with the information about a file; `none` where the name is
  -- empty.
  unfoldable pub on_meta_data :
      (Name → Bytes → Fetcher → Fetcher) → Packet → Fetcher → Option Fetcher
  unfolding split_last_two is_marker file_component_name dir_component_name
  on_meta_data on_file_info packet s =
      Option.map
        (λ (front, component).
          if is_marker E component dir_component_name
          then s
          else if is_marker E component file_component_name
          then on_file_info front packet.content s
          else s)
        (split_last_two packet.name)

-- The callback of every interest that brings no data.
unfoldable pub on_timeout : Fetcher → Fetcher
on_timeout s = record s { done = true }

-- What `main` makes of the command line, if it does not end in `usage()`.
pub record Settings : Type 0 where
  pub name : Option Bytes
  pub repo_mode : Bool

abbrev pub defaults : Settings
defaults = record { name = none; repo_mode = false }

-- An option as `getopt` gives it: its letter and `optarg`.
abbrev pub Opt : Type 0
Opt = ℕ × Bytes

-- The loop over the options; `none` is the exit by `usage()`. In cat_file.cc, which knows an option -v,
-- no `break` stands behind `case 'v'`.
unfoldable pub read_options : List Opt → Settings → Option Settings
read_options [] s = some s
read_options ((opt, optarg) ∷ rest) s =
    let named = read_options rest (record s { name = some optarg }) in
    let repo = read_options rest (record s { repo_mode = true }) in
    if opt == b'n' then named else if opt == b'r' then repo else none

-- `main` ends in `usage()`, goes on with no name at all, which `Name` does not allow, or asks for something.
pub data Started : Type 0 where
  usage : Started
  no_name : Started
  started : Fetcher → Started

-- The repository mode takes the size of one file for granted.
abbrev pub repo_total_seg : ℤ
repo_total_seg = pos 12654

abbrev pub repo_total_size : ℤ
repo_total_size = pos 103655871
