-- ===== src/Server/Meta.antt =====
-- server/servermodule.cc: sendFileMeta.
use ndnfs_port.Prelude.{
  ℤ, pos, negsuc, Bytes, none, some, [], ◌∷◌, ◌++◌, eqb, eqb_ℤ, to_u64, if◌then◌else◌,
}
use ndnfs_port.Exec.{Exec, pure, return, gets, ◌>>=◌, ◌>>◌}
use ndnfs_port.External.{Env}
use ndnfs_port.External.Types.{Name, FileInfo, Packet}
use ndnfs_port.World.{World, put_data}
use ndnfs_port.Fs.FileType.{file_type_code, regular}
use ndnfs_port.Server.Config.{default_freshness_period, file_component_name}
use ndnfs_port.Server.Content.{read_file_size, decrement}

module _ (E : Env) where
  -- <prefix>/<path>/<marker>/<version>
  unfoldable pub meta_name : Bytes → Bytes → ℤ → Name
  meta_name path marker version =
      E.ndn.parse_uri E.fs_prefix
      ++ (E.ndn.parse_uri path
          ++ (E.ndn.from_escaped_string marker ∷ E.ndn.version_component (to_u64 version) ∷ []))

  unfoldable pub file_info : Bytes → ℤ → ℤ → ℤ × ℤ → FileInfo
  file_info mime_type version file_type (size, total) = record {
    size = size;
    totalseg = total;
    version = version;
    mimetype = if eqb mime_type [] then none else some mime_type;
    file_type = file_type;
  }

  unfoldable pub meta_packet : Bytes → Bytes → ℤ → ℤ → ℤ × ℤ → Packet
  unfolding meta_name file_info decrement
  meta_packet path mime_type version file_type (size, total) = record {
    name = meta_name path file_component_name version;
    content = E.ndn.serialize_file (file_info mime_type version file_type (size, total));
    final_block_id = some (E.ndn.segment_component (to_u64 (decrement total)));
    freshness_period = some default_freshness_period;
  }

  -- Only a regular file is measured.
  unfoldable pub measure : Bytes → ℤ → Exec (World E) (ℤ × ℤ)
  unfolding file_type_code
  measure path file_type =
      if eqb_ℤ file_type (file_type_code regular)
      then read_file_size E path
      else pure (pos 0, pos 0)

  unfoldable pub send_file_meta : Bytes → Bytes → ℤ → ℤ → Exec (World E) ℤ
  unfolding measure meta_packet
  send_file_meta path mime_type version file_type = do
    row ← gets (λ w. E.versions.select w.versions (path, version))
    elim row [
      | none ↦ return (negsuc 0)
      | some _ ↦ do
        sized ← measure path file_type
        let packet = meta_packet path mime_type version file_type sized
        put_data E packet (E.ndn.sign packet)
        pure (pos 0)
    ]
