-- ===== src/Fs/Config.antt =====
-- fs/ndnfs.h and fs/ndnfs.cc: constants, paths, and the platform's numbers (errno and open flags of
-- Linux, result codes of SQLite).
use ndnfs_port.Prelude.{
  ℕ, ◌+◌, Bytes, Option, none, some, [], ◌++◌, take, drop, codes, eqb, rfind, if◌then◌else◌,
}
use ndnfs_port.External.{Env}

-- ndnfs::seg_size, ndnfs::seg_size_shift
abbrev pub seg_size : ℕ
seg_size = 8192

abbrev pub seg_size_shift : ℕ
seg_size_shift = 13

abbrev pub enoent : ℕ
enoent = 2

abbrev pub eacces : ℕ
eacces = 13

abbrev pub einval : ℕ
einval = 22

abbrev pub sqlite_ok : ℕ
sqlite_ok = 0

abbrev pub sqlite_row : ℕ
sqlite_row = 100

abbrev pub sqlite_done : ℕ
sqlite_done = 101

-- The prefix and the name that the last slash separates; `none` where the function returns -1.
unfoldable split_last_component : Bytes → Option (Bytes × Bytes)
unfolding rfind eqb
split_last_component path = elim (rfind b'/' path) [
  | none ↦ none
  | some i ↦
      let prefix = take i path in
      some (if eqb prefix [] then codes "/" else prefix, drop (i + 1) path)
]

-- Both buffers are PATH_MAX bytes long, and nothing checks that the joined path fits.
unfoldable pub abs_path : Env → Bytes → Bytes
abs_path E path = E.root_path ++ path
