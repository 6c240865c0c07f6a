-- ===== src/Server/Startup/Options.antt =====
-- server/server.cc, main: what the options set.
use ndnfs_port.Prelude.{
  ℕ, Bytes, Bool, true, none, some, ◌≡◌, refl, List, [], ◌∷◌, ◌==◌, ◌||◌, ◌&&◌, arith, Bool-cases,
  inl, inr, if◌then◌else◌,
}
use ndnfs_port.Server.Startup.{Settings, Opt, read_option, read_options}

-- The argument of the last option with this letter.
abbrev pub last_of : ℕ → List Opt → Bytes → Bytes
last_of letter [] default = default
last_of letter ((opt, optarg) ∷ rest) default =
    last_of letter rest (if opt == letter then optarg else default)

abbrev pub is_known : ℕ → Bool
is_known opt = (opt == b'p') || ((opt == b'f') || ((opt == b'l') || (opt == b'd')))

abbrev pub all_known : List Opt → Bool
all_known [] = true
all_known ((opt, _) ∷ rest) = is_known opt && all_known rest

abbrev pub with_options : List Opt → Settings → Settings
with_options options s = record {
  fs_prefix = last_of b'p' options s.fs_prefix;
  fs_path = last_of b'f' options s.fs_path;
  logging_path = last_of b'l' options s.logging_path;
  db_name = last_of b'd' options s.db_name;
}

read_option-eq :
    (opt : ℕ) (optarg : Bytes) (s : Settings)
    → read_option (opt, optarg) s
      ≡ (if is_known opt then some (with_options ((opt, optarg) ∷ []) s) else none)
unfolding read_option
read_option-eq opt optarg s = ground arith

-- If each option is one of -p, -f, -l and -d, each of the four settings is the argument of the last option
-- for it, or what it was before if there is none; any other option ends the program.
pub read_options-last :
    (options : List Opt) (s : Settings)
    → read_options options s ≡ (if all_known options then some (with_options options s) else none)
unfolding read_options
read_options-last [] s = refl
read_options-last ((opt, optarg) ∷ rest) s = elim (Bool-cases (is_known opt)) [
  | inl known ↦
      rw (read_options, read_option-eq opt optarg s, known)
        (read_options-last rest (with_options ((opt, optarg) ∷ []) s))
  | inr other ↦ rw (read_options, read_option-eq opt optarg s, other) refl
]
