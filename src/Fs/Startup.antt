-- ===== src/Fs/Startup.antt =====
-- fs/ndnfs.cc, main: the command line up to the FUSE main loop. The key material and the log are left out.
pub mod Arguments
use ndnfs_port.Prelude.{
  ℕ, zero, suc, ◌+◌, ◌-◌, ℤ, pos, neg, Bytes, Bool, true, false, Option, none, some, List, [], ◌∷◌,
  ◌++◌, ◌==◌, length, take, codes, eqb, not, ◌||◌, if◌then◌else◌,
}
use ndnfs_port.Fs.FileType.{format, s_ifdir}

-- `struct ndnfs_config`
pub record NdnfsConfig : Type 0 where
  pub prefix : Option Bytes
  pub log_path : Option Bytes
  pub db_path : Option Bytes

-- The calls that main makes: what stat says of the mode, realpath, fuse_opt_parse, Name(…).toUri, whether
-- fopen gives a stream, and whether sqlite3_open does SQLITE_OK.
pub record Host : Type 0 where
  pub stat_mode : Bytes → Option ℕ
  pub realpath : Bytes → Bytes
  pub fuse_opt_parse : List Bytes → NdnfsConfig × List Bytes
  pub to_uri : Bytes → Bytes
  pub opens : Bytes → Bool
  pub sqlite_opens : Bytes → Bool

-- Where the log goes.
pub data Stream : Type 0 where
  stdout : Stream
  log_file : Bytes → Stream

-- The settings with which main enters the main loop, and what it passes on to FUSE.
pub record Mounted : Type 0 where
  pub root_path : Bytes
  pub global_prefix : Bytes
  pub db_name : Bytes
  pub stream : Stream
  pub fuse_args : List Bytes

pub data Start : Type 0 where
  exits : ℤ → Start
  mounts : Mounted → Start

abbrev pub default_prefix : Bytes
default_prefix = codes "/ndn/broadcast/ndnfs"

abbrev pub default_db_name : Bytes
default_db_name = codes "/tmp/ndnfs.db"

-- argv[i][0] == '-'
abbrev pub is_option : Bytes → Bool
is_option [] = false
is_option (c ∷ _) = c == b'-'

-- The options that stand in front: i - 1, where the loop over `i` stops.
unfoldable pub skip_options : List Bytes → ℕ
skip_options [] = 0
skip_options (arg ∷ rest) =
    let later = suc (skip_options rest) in if is_option arg then later else 0

unfoldable pub argument : List Bytes → ℕ → Option Bytes
argument [] i = none
argument (a ∷ argv) zero = some a
argument (a ∷ argv) (suc i) = argument argv i

-- for (; i < argc; i++) argv[i] = argv[i + 1]; argc--;
unfoldable pub shift : List Bytes → ℕ → List Bytes
shift [] i = []
shift (a ∷ argv) zero = argv
shift (a ∷ argv) (suc i) = a ∷ shift argv i

-- A last character '/' is taken off.
unfoldable pub without_slash : Bytes → Bytes
without_slash [] = []
without_slash (c ∷ []) = if c == b'/' then [] else c ∷ []
without_slash (c ∷ d ∷ s) = c ∷ without_slash (d ∷ s)

abbrev pub or_default : Option Bytes → Bytes → Bytes
or_default none d = d
or_default (some x) d = x

module _ (H : Host) where
  unfoldable pub log_stream : Option Bytes → Stream
  unfolding eqb
  log_stream none = stdout
  log_stream (some path) = if eqb path [] || not (H.opens path) then stdout else log_file path

  -- Behind the checks of the folder: options, database and log.
  unfoldable pub mount : Bytes → List Bytes → Start
  unfolding codes log_stream
  mount root args =
      let (conf, fuse_args) = H.fuse_opt_parse args in
      let db_name = or_default conf.db_path default_db_name in
      let global_prefix : Bytes = elim conf.prefix [
        | none ↦ default_prefix
        | some p ↦ H.to_uri p
      ] in
      if H.sqlite_opens db_name
      then mounts (record {
        root_path = root;
        global_prefix = global_prefix;
        db_name = db_name;
        stream = log_stream conf.log_path;
        fuse_args = fuse_args;
      })
      else exits (neg 1)

  -- `argv` is the program's name and what stands behind it.
  unfoldable pub main : Bytes → List Bytes → Start
  unfolding skip_options argument shift without_slash format mount
  main program argv =
      let i = skip_options argv in
      elim (argument argv i) [
        | none ↦ exits (neg 1)
        | some folder ↦ elim (H.stat_mode folder) [
          | none ↦ exits (pos 0)
          | some mode ↦
              if format mode == s_ifdir
              then mount (without_slash (H.realpath folder)) (program ∷ shift argv i)
              else exits (pos 0)
        ]
      ]
