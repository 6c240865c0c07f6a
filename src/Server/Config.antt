-- ===== src/Server/Config.antt =====
-- server/server.cc and server/namespace.cc: settings and constants. `seg_size` and its shift are those
-- of the file system.
use ndnfs_port.Prelude.{ℕ, Bytes, ◌++◌, codes}
use ndnfs_port.External.{Env}

-- ndnfs::server::default_freshness_period, in milliseconds
abbrev pub default_freshness_period : ℕ
default_freshness_period = 5000

-- NdnfsNamespace
unfoldable pub file_component_name : Bytes
unfolding codes
file_component_name = codes "%C1.FS.file"

unfoldable pub dir_component_name : Bytes
unfolding codes
dir_component_name = codes "%C1.FS.dir"

unfoldable pub content_meta_string : Bytes
unfolding codes
content_meta_string = codes "_list"

-- abs_path of the server, which joins in the same unchecked way.
unfoldable pub server_path : Env → Bytes → Bytes
server_path E src = E.fs_path ++ src
