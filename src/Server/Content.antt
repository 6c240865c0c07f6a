-- ===== src/Server/Content.antt =====
-- server/servermodule.cc: readFileSize and sendFileContent.
pub mod Serving
use ndnfs_port.Prelude.{
  zero, suc, ◌+◌, ℤ, pos, negsuc, Bytes, Option, none, some, [], ◌∷◌, ◌++◌, length, to_int, to_u64,
  shr_int, ltb, if◌then◌else◌, false, Bool,
}
use ndnfs_port.Exec.{Exec, ok, err, next, pure, return, gets, ◌>>=◌, ◌>>◌}
use ndnfs_port.External.{Env}
use ndnfs_port.External.Types.{Name, Stat}
use ndnfs_port.External.Posix.{o_rdonly}
use ndnfs_port.World.{World, try, try_read, put_data}
use ndnfs_port.Fs.Config.{seg_size, seg_size_shift}
use ndnfs_port.Fs.Segment.{segment_to_size}
use ndnfs_port.Server.Config.{default_freshness_period, server_path}
use ndnfs_port.Server.Name.{is_absent}

-- n + 1 and n - 1, away from the ends of the range.
unfoldable pub increment : ℤ → ℤ
increment (pos n) = pos (n + 1)
increment (negsuc zero) = pos 0
increment (negsuc (suc n)) = negsuc n

unfoldable pub decrement : ℤ → ℤ
decrement (pos zero) = negsuc 0
decrement (pos (suc n)) = pos n
decrement (negsuc n) = negsuc (n + 1)

abbrev pub is_positive : ℤ → Bool
is_positive (pos n) = ltb 0 n
is_positive (negsuc n) = false

-- file_size and total_seg from the `struct stat`.
pub sizes : Stat → ℤ × ℤ
unfolding increment shr_int
sizes st = let size = to_int st.st_size in (size, increment (shr_int size seg_size_shift))

module _ (E : Env) where
  -- Where `stat` fails, the structure is read as it lies on the stack.
  unfoldable pub read_file_size : Bytes → Exec (World E) (ℤ × ℤ)
  read_file_size path w = elim (E.posix.stat w.os (server_path E path)) [
    | ok st ↦ (next (sizes st), w)
    | err _ ↦ (next (sizes (E.posix.uninitialised w.os)), w)
  ]

  -- The FinalBlockId, from the number of segments.
  pub final_block_of : ℤ → Option Bytes
  unfolding decrement
  final_block_of total =
      if is_positive total then some (E.ndn.segment_component (to_u64 (decrement total))) else none

  -- The packet of a segment; only a content that is not empty is put on the face.
  unfoldable pub reply_with : Name → Option Bytes → Bytes → Bytes → Exec (World E) ℤ
  reply_with name final_block signature content =
      if ltb 0 (length content)
      then (do
        put_data E
            (record {
              name = name;
              content = content;
              final_block_id = final_block;
              freshness_period = some default_freshness_period;
            })
            signature
        pure (to_int (length content)))
      else pure (pos 0)

  -- With the segment given.
  unfoldable pub send_segment : Name → Bytes → ℤ → ℤ → Exec (World E) ℤ
  send_segment name path version seg = do
    row ← gets (λ w. E.segments.select w.segments (path, version, seg))
    elim row [
      | none ↦ return (negsuc 0)
      | some signature ↦ do
        sized ← read_file_size path
        opened ← try E (λ o. E.posix.open_file o (server_path E path) o_rdonly 0)
        elim opened [
          | err _ ↦ return (negsuc 0)
          | ok fd ↦ do
            got ← try_read E (λ o. E.posix.pread o fd seg_size (segment_to_size seg))
            try E (λ o. E.posix.close_file o fd)
            elim got [
              | err _ ↦ return (negsuc 0)
              | ok content ↦ reply_with name (final_block_of sized.1) signature content
            ]
        ]
    ]

  -- Without a segment the first one is meant, and its number is put behind the name.
  unfoldable pub send_file_content : Name → Bytes → ℤ → ℤ → Exec (World E) ℤ
  unfolding send_segment
  send_file_content interest_name path version seg =
      if is_absent seg
      then send_segment (interest_name ++ (E.ndn.segment_component 0 ∷ [])) path version (pos 0)
      else send_segment interest_name path version seg
