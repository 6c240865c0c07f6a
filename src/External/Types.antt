-- ===== src/External/Types.antt =====
-- Values that pass between the program and what it calls: rows of the SQLite tables, what the system
-- calls fill in, and NDN packets.
use ndnfs_port.Prelude.{ℕ, ℤ, Bytes, List, Option}

-- A row of `file_system`, but for its key `path` (the schema in fs/ndnfs.cc).
pub record FileRow : Type 0 where
  pub current_version : ℤ
  pub mime_type : Bytes
  pub ready_signed : ℤ
  pub file_type : ℤ

-- A row of `file_versions`, but for its key (path, version). The column may be NULL.
pub record VersionRow : Type 0 where
  pub size : Option ℤ

-- `struct stat`, as far as the program reads it.
pub record Stat : Type 0 where
  pub st_mode : ℕ
  pub st_size : ℕ
  pub st_mtime : ℕ

-- `struct dirent`
pub record Dirent : Type 0 where
  pub d_ino : ℕ
  pub d_type : ℕ
  pub d_name : Bytes

-- `struct timespec` and `struct timeval`
pub record TimeSpec : Type 0 where
  pub tv_sec : ℕ
  pub tv_nsec : ℕ

pub record TimeVal : Type 0 where
  pub tv_sec : ℕ
  pub tv_usec : ℕ

-- `ndn::Name`: the values of its components.
abbrev pub Name : Type 0
Name = List Bytes

-- `ndn::Data`, without its signature.
pub record Packet : Type 0 where
  pub name : Name
  pub content : Bytes
  pub final_block_id : Option Bytes
  pub freshness_period : Option ℕ

-- The messages of server/file.proto and server/dir.proto.
pub record FileInfo : Type 0 where
  pub size : ℤ
  pub totalseg : ℤ
  pub version : ℤ
  pub mimetype : Option Bytes
  pub file_type : ℤ

pub record DirInfo : Type 0 where
  pub path : Bytes
  pub file_type : ℤ
