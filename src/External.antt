-- ===== src/External.antt =====
-- What the program runs on, as one parameter of the model: SQLite, POSIX, ndn-cpp with the protobuf
-- code, and the settings that the command lines give.
pub mod Types
pub mod Table
pub mod Posix
pub mod Ndn
pub mod Documented
pub mod Memory
use ndnfs_port.Prelude.{ℕ, ℤ, Bytes, Option}
use Types.{FileRow, VersionRow}
use Table.{VersionKey, SegmentKey}

pub record Env : Type 1 where
  pub files : Table.Table Bytes FileRow
  pub versions : Table.Table VersionKey VersionRow
  pub segments : Table.Table SegmentKey Bytes
  -- sqlite3_column_text of a column index past the last one, which SQLite leaves undefined
  pub column_beyond : Option Bytes
  -- UPDATE file_versions SET size = ?, totalSegments = ? …: the schema has no such column, so the
  -- outcome depends on where the database file comes from.
  pub update_size : versions.Rows → VersionKey → ℤ → ℤ → ℤ × versions.Rows
  -- what `new char[n]` holds
  pub fresh_bytes : ℕ → Bytes
  pub posix : Posix.Posix
  pub ndn : Ndn.Ndn
  -- ndnfs::root_path, ndnfs::global_prefix
  pub root_path : Bytes
  pub global_prefix : Bytes
  -- ndnfs::server::fs_path, ndnfs::server::fs_prefix
  pub fs_path : Bytes
  pub fs_prefix : Bytes
