-- ===== src/Fs/Requests/Frame.antt =====
-- The handlers that leave `file_system` and `file_versions` alone.
use ndnfs_port.Prelude.{ℕ, ℤ, Bytes, ◌≡◌, arith, Bool, List}
use ndnfs_port.Exec.{Exec, run}
use ndnfs_port.External.{Env}
use ndnfs_port.External.Types.{Dirent, TimeSpec}
use ndnfs_port.World.{World}
use ndnfs_port.Fs.Attribute
use ndnfs_port.Fs.File
use ndnfs_port.Fs.Directory
use ndnfs_port.Fs.Link

module _ (E : Env) where
  -- Both tables are as before.
  pub record Keeps (m : Exec (World E) ℤ) : Type 0 where
    pub files : (w : World E) → (run m w).1.files ≡ w.files
    pub versions : (w : World E) → (run m w).1.versions ≡ w.versions

  pub getattr-Keeps : (path : Bytes) → Keeps (Attribute.ndnfs_getattr E path)
  unfolding Attribute.ndnfs_getattr
  getattr-Keeps path = record { files = λ w. ground arith; versions = λ w. ground arith }

  pub chmod-Keeps : (path : Bytes) (mode : ℕ) → Keeps (Attribute.ndnfs_chmod E path mode)
  unfolding Attribute.ndnfs_chmod
  chmod-Keeps path mode = record { files = λ w. ground arith; versions = λ w. ground arith }

  pub open-Keeps : (path : Bytes) (flags now : ℕ) → Keeps (File.ndnfs_open E path flags now)
  unfolding File.ndnfs_open
  open-Keeps path flags now = record { files = λ w. ground arith; versions = λ w. ground arith }

  pub read-Keeps :
      (path : Bytes) (size : ℕ) (offset : ℤ) → Keeps (File.ndnfs_read E path size offset)
  unfolding File.ndnfs_read
  read-Keeps path size offset = record { files = λ w. ground arith; versions = λ w. ground arith }

  pub write-Keeps : (path buf : Bytes) (offset : ℤ) → Keeps (File.ndnfs_write E path buf offset)
  unfolding File.ndnfs_write
  write-Keeps path buf offset = record { files = λ w. ground arith; versions = λ w. ground arith }

  pub truncate-Keeps : (path : Bytes) (len : ℤ) → Keeps (File.ndnfs_truncate E path len)
  unfolding File.ndnfs_truncate
  truncate-Keeps path len = record { files = λ w. ground arith; versions = λ w. ground arith }

  pub readdir-Keeps :
      (path : Bytes) (full : List Dirent → Dirent → Bool)
      → Keeps (Directory.ndnfs_readdir E path full)
  unfolding Directory.ndnfs_readdir
  readdir-Keeps path full = record { files = λ w. ground arith; versions = λ w. ground arith }

  pub mkdir-Keeps : (path : Bytes) (mode : ℕ) → Keeps (Directory.ndnfs_mkdir E path mode)
  unfolding Directory.ndnfs_mkdir
  mkdir-Keeps path mode = record { files = λ w. ground arith; versions = λ w. ground arith }

  pub rmdir-Keeps : (path : Bytes) → Keeps (Directory.ndnfs_rmdir E path)
  unfolding Directory.ndnfs_rmdir
  rmdir-Keeps path = record { files = λ w. ground arith; versions = λ w. ground arith }

  pub statfs-Keeps : (path : Bytes) → Keeps (Link.ndnfs_statfs E path)
  unfolding Link.ndnfs_statfs
  statfs-Keeps path = record { files = λ w. ground arith; versions = λ w. ground arith }

  pub access-Keeps : (path : Bytes) (mask : ℕ) → Keeps (Link.ndnfs_access E path mask)
  unfolding Link.ndnfs_access
  access-Keeps path mask = record { files = λ w. ground arith; versions = λ w. ground arith }

  pub utimens-Keeps :
      (path : Bytes) (accessed modified : TimeSpec)
      → Keeps (Link.ndnfs_utimens E path accessed modified)
  unfolding Link.ndnfs_utimens
  utimens-Keeps path accessed modified = record {
    files = λ w. ground arith;
    versions = λ w. ground arith;
  }

  pub link-Keeps : (from to : Bytes) → Keeps (Link.ndnfs_link E from to)
  unfolding Link.ndnfs_link
  link-Keeps from to = record { files = λ w. ground arith; versions = λ w. ground arith }

  pub symlink-Keeps : (from to : Bytes) → Keeps (Link.ndnfs_symlink E from to)
  unfolding Link.ndnfs_symlink
  symlink-Keeps from to = record { files = λ w. ground arith; versions = λ w. ground arith }

  pub readlink-Keeps : (path : Bytes) (size : ℕ) → Keeps (Link.ndnfs_readlink E path size)
  unfolding Link.ndnfs_readlink
  readlink-Keeps path size = record { files = λ w. ground arith; versions = λ w. ground arith }
