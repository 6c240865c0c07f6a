-- ===== src/External/Documented.antt =====
-- The documented behaviour of what the program runs on, in one record.
use ndnfs_port.External.{Env}
use ndnfs_port.External.Table
use ndnfs_port.External.Table.{path_key, version_key, segment_key}
use ndnfs_port.External.Posix.{View, Reads, Writes, Counts, Paths}
use ndnfs_port.External.Ndn.{Conventions}

pub record Documented (E : Env) : Type 0 where
  pub files : Table.IsLawful E.files
  pub versions : Table.IsLawful E.versions
  pub segments : Table.IsLawful E.segments
  pub view : View E.posix
  pub reads : Reads E.posix view
  pub writes : Writes E.posix view
  pub counts : Counts E.posix view
  pub paths : Paths E.posix view
  pub conventions : Conventions E.ndn
