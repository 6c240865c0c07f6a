-- ===== src/Server/Startup.antt =====
-- server/server.cc, main: the options, the log and the database. The key material is left out.
pub mod Options
use ndnfs_port.Prelude.{
  ℕ, ℤ, pos, neg, Bytes, Bool, true, false, Option, none, some, List, [], ◌∷◌, ◌==◌, codes, eqb,
  not, ◌||◌, if◌then◌else◌,
}
use ndnfs_port.External.Types.{Name}
use ndnfs_port.Fs.Startup.{Stream, stdout, log_file}

-- The variables of ndnfs::server that the options set.
pub record Settings : Type 0 where
  pub fs_prefix : Bytes
  pub fs_path : Bytes
  pub logging_path : Bytes
  pub db_name : Bytes

abbrev pub defaults : Settings
defaults = record {
  fs_prefix = codes "/ndn/broadcast/ndnfs";
  fs_path = codes "/tmp/ndnfs";
  logging_path = [];
  db_name = codes "/tmp/ndnfs.db";
}

-- An option as `getopt` gives it: its letter and `optarg`.
abbrev pub Opt : Type 0
Opt = ℕ × Bytes

-- One option; `none` is the exit by usage().
unfoldable pub read_option : Opt → Settings → Option Settings
read_option (opt, optarg) s =
    if opt == b'p'
    then some (record s { fs_prefix = optarg })
    else if opt == b'f'
    then some (record s { fs_path = optarg })
    else if opt == b'l'
    then some (record s { logging_path = optarg })
    else if opt == b'd'
    then some (record s { db_name = optarg })
    else none

-- The loop over them.
unfoldable pub read_options : List Opt → Settings → Option Settings
unfolding read_option
read_options [] s = some s
read_options (o ∷ rest) s = elim (read_option o s) [ none ↦ none | some s' ↦ read_options rest s' ]

pub data Start : Type 0 where
  exits : ℤ → Start
  -- With the prefix registered on the face.
  serves : Settings → Stream → Name → Start

-- Whether fopen gives a stream, whether sqlite3_open does SQLITE_OK, and Name(uri).
module _ (opens sqlite_opens : Bytes → Bool) (parse_uri : Bytes → Name) where
  unfoldable pub main : List Opt → Start
  unfolding codes read_options eqb
  main options = elim (read_options options defaults) [
    | none ↦ exits (pos 1)
    | some s ↦
        if sqlite_opens s.db_name
        then serves s
            (if eqb s.logging_path [] || not (opens s.logging_path)
              then stdout
              else log_file s.logging_path)
            (parse_uri s.fs_prefix)
        else exits (neg 1)
  ]
