-- ===== src/Fs/Requests.antt =====
-- fs/ndnfs.cc: the table of FUSE operations, as one function over the requests that FUSE makes. A
-- request that needs the time carries what `time(0)` gives while it runs.
pub mod Rows
pub mod Frame
pub mod Listed
pub mod Catalogue
pub mod Refines
pub mod History
pub mod Descriptors
use ndnfs_port.Prelude.{ℕ, ℤ, Bytes, Bool, List, [], ◌∷◌}
use ndnfs_port.Exec.{Exec, run}
use ndnfs_port.External.{Env}
use ndnfs_port.External.Types.{Dirent, TimeSpec}
use ndnfs_port.World.{World}
use ndnfs_port.Fs.File
use ndnfs_port.Fs.Release
use ndnfs_port.Fs.Link
use ndnfs_port.Fs.Directory
use ndnfs_port.Fs.Attribute

pub data Request : Type 0 where
  getattr : Bytes → Request
  chmod : Bytes → ℕ → Request
  setxattr : Bytes → Bytes → Bytes → ℕ → Request
  open_file : Bytes → ℕ → ℕ → Request
  read : Bytes → ℕ → ℤ → Request
  readdir : Bytes → (List Dirent → Dirent → Bool) → Request
  mknod : Bytes → ℕ → ℕ → ℕ → Request
  write : Bytes → Bytes → ℤ → Request
  truncate : Bytes → ℤ → Request
  release : Bytes → ℕ → ℕ → Request
  unlink : Bytes → Request
  mkdir : Bytes → ℕ → Request
  rmdir : Bytes → Request
  statfs : Bytes → Request
  access : Bytes → ℕ → Request
  utimens : Bytes → TimeSpec → TimeSpec → Request
  link : Bytes → Bytes → Request
  readlink : Bytes → ℕ → Request
  symlink : Bytes → Bytes → Request
  rename : Bytes → Bytes → Request

module _ (E : Env) where
  unfoldable pub handle : Request → Exec (World E) ℤ
  handle (getattr path) = Attribute.ndnfs_getattr E path
  handle (chmod path mode) = Attribute.ndnfs_chmod E path mode
  handle (setxattr path name value flags) = Attribute.ndnfs_setxattr E path name value flags
  handle (open_file path flags now) = File.ndnfs_open E path flags now
  handle (read path size offset) = File.ndnfs_read E path size offset
  handle (readdir path full) = Directory.ndnfs_readdir E path full
  handle (mknod path mode dev now) = File.ndnfs_mknod E path mode dev now
  handle (write path buf offset) = File.ndnfs_write E path buf offset
  handle (truncate path len) = File.ndnfs_truncate E path len
  handle (release path flags now) = Release.ndnfs_release E path flags now
  handle (unlink path) = File.ndnfs_unlink E path
  handle (mkdir path mode) = Directory.ndnfs_mkdir E path mode
  handle (rmdir path) = Directory.ndnfs_rmdir E path
  handle (statfs path) = Link.ndnfs_statfs E path
  handle (access path mask) = Link.ndnfs_access E path mask
  handle (utimens path accessed modified) = Link.ndnfs_utimens E path accessed modified
  handle (link from to) = Link.ndnfs_link E from to
  handle (readlink path size) = Link.ndnfs_readlink E path size
  handle (symlink from to) = Link.ndnfs_symlink E from to
  handle (rename from to) = Link.ndnfs_rename E from to

  -- FUSE runs single-threaded (`-s`): one request after another.
  pub serve : World E → List Request → World E
  serve w [] = w
  serve w (r ∷ rest) = serve (run (handle r) w).1 rest
