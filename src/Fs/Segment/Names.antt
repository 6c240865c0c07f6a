-- ===== src/Fs/Segment/Names.antt =====
-- The name of a segment as a total function of its path, version and number.
use ndnfs_port.Prelude.{ℤ, Bytes, ◌≡◌, some, [], ◌∷◌, ◌++◌, to_u64, to_int, length}
use ndnfs_port.External.{Env}
use ndnfs_port.External.Types.{Name}
use ndnfs_port.Fs.Segment.{segment_name, unsigned, sign_segment}
use ndnfs_port.World.{World}
use ndnfs_port.Exec.{next}
use ndnfs_port.Fs.Segment.Escape.{unescape, unescape_slashes_lem}

module _ (E : Env) where
  pub file_name : Bytes → Name
  file_name path = E.ndn.parse_uri (unescape (E.ndn.to_escaped_string (E.global_prefix ++ path)))

  pub segment_id : Bytes → ℤ → ℤ → Name
  segment_id path ver seg =
      file_name path
      ++ (E.ndn.version_component (to_u64 ver) ∷ E.ndn.segment_component (to_u64 seg) ∷ [])

  pub segment_name-eq :
      (path : Bytes) (ver seg : ℤ) → segment_name E path ver seg ≡ some (segment_id path ver seg)
  unfolding segment_name segment_id file_name
  segment_name-eq path ver seg =
      rw ((unescape_slashes_lem (E.ndn.to_escaped_string (E.global_prefix ++ path))).0)

  -- Signing a segment replaces its row, and changes nothing else.
  pub sign_segment-eq :
      (path : Bytes) (ver seg : ℤ) (content : Bytes) (w : World E)
      → let signature = E.ndn.sign (unsigned (segment_id path ver seg) content) in
        sign_segment E path ver seg content w ≡ (
          next (to_int (length signature)),
          record w { segments = E.segments.replace w.segments (path, ver, seg) signature },
        )
  unfolding sign_segment
  sign_segment-eq path ver seg content w = rw (segment_name-eq path ver seg)
