-- ===== src/Fs/Segment.antt =====
-- fs/segment.h and fs/segment.cc: positions of segments, their names, and the signatures stored.
pub mod Escape
pub mod Offsets
pub mod Names
use mathlib.Core.Option
use ndnfs_port.Prelude.{
  ℕ, zero, suc, ◌+◌, ℤ, pos, Bytes, Option, none, some, [], ◌∷◌, ◌++◌, length, take, drop, codes,
  eqb, shl_int, shr_int, to_u64, to_int, eqb_ℤ, Bool, true, false, if◌then◌else◌,
}
use ndnfs_port.Exec.{Exec, pure, gets, or_fuel, ok, err, ◌>>=◌, ◌>>◌}
use ndnfs_port.External.{Env}
use ndnfs_port.External.Types.{Name, Packet}
use ndnfs_port.External.Posix.{o_rdonly}
use ndnfs_port.World.{World, try, try_read, set_segments}
use ndnfs_port.Fs.Config.{seg_size, seg_size_shift, abs_path}

unfoldable pub seek_segment : ℤ → ℤ
unfolding shr_int
seek_segment doff = shr_int doff seg_size_shift

unfoldable pub segment_to_size : ℤ → ℤ
unfolding shl_int
segment_to_size seg = shl_int seg seg_size_shift

-- Whether a text begins with "%2F".
abbrev pub is_escaped_slash : Bytes → Bool
is_escaped_slash s = eqb (take 3 s) (codes "%2F")

-- `s.find("%2F")`
pub find_escaped_slash : Bytes → Option ℕ
find_escaped_slash [] = none
find_escaped_slash (c ∷ s) = elim (is_escaped_slash (c ∷ s)) [
  | true ↦ some 0
  | false ↦ Option.map suc (find_escaped_slash s)
]

-- The loop that turns every "%2F" back into "/", from the start of the text in each round.
pub unescape_loop : ℕ → Bytes → Option Bytes
unescape_loop zero s = none
unescape_loop (suc fuel) s = elim (find_escaped_slash s) [
  | none ↦ some s
  | some i ↦ unescape_loop fuel (take i s ++ (b'/' ∷ drop (i + 3) s))
]

-- Each round makes the text shorter, so its length bounds the rounds.
pub unescape_slashes : Bytes → Option Bytes
unfolding unescape_loop find_escaped_slash
unescape_slashes s = unescape_loop (suc (length s)) s

-- The packet that is signed: a name and a content, no meta information.
abbrev pub unsigned : Name → Bytes → Packet
unsigned name content = record {
  name = name;
  content = content;
  final_block_id = none;
  freshness_period = none;
}

module _ (E : Env) where
  -- The name under which a segment is published.
  pub segment_name : Bytes → ℤ → ℤ → Option Name
  unfolding unescape_slashes to_u64
  segment_name path ver seg =
      Option.map
        (λ uri.
          E.ndn.parse_uri uri
          ++ (E.ndn.version_component (to_u64 ver) ∷ E.ndn.segment_component (to_u64 seg) ∷ []))
        (unescape_slashes (E.ndn.to_escaped_string (E.global_prefix ++ path)))

  pub sign_segment : Bytes → ℤ → ℤ → Bytes → Exec (World E) ℤ
  unfolding segment_name
  sign_segment path ver seg content = do
    name ← or_fuel (segment_name path ver seg)
    let signature = E.ndn.sign (unsigned name content)
    set_segments E (λ rows. E.segments.replace rows (path, ver, seg) signature)
    pure (to_int (length signature))

  -- Its body is commented out.
  unfoldable pub remove_segments : Bytes → ℤ → ℤ → Exec (World E) ℤ
  remove_segments path ver start = pure (pos 0)

  -- Signs what is left of a segment anew. The packet that it signs has no name, and the descriptor
  -- stays open where the read fails.
  unfoldable pub truncate_segment : Bytes → ℤ → ℤ → ℤ → Exec (World E) ℤ
  unfolding segment_name segment_to_size abs_path
  truncate_segment path ver seg len = do
    row ← gets (λ w. E.segments.select w.segments (path, ver, seg))
    elim row [
      | none ↦ pure (pos 0)
      | some _ ↦
          if eqb_ℤ len (pos 0)
          then (do set_segments E (λ rows. E.segments.delete rows (path, ver, seg)); pure (pos 0))
          else (do
            opened ← try E (λ o. E.posix.open_file o (abs_path E path) o_rdonly 0)
            elim opened [
              | err _ ↦ pure (pos 0)
              | ok fd ↦ do
                got ← try_read E (λ o. E.posix.pread o fd (to_u64 len) (segment_to_size seg))
                elim got [
                  | err _ ↦ pure (pos 0)
                  | ok bytes ↦ do
                    let fresh = E.fresh_bytes seg_size
                    let content = take (to_u64 len) (bytes ++ drop (length bytes) fresh)
                    _ ← or_fuel (segment_name path ver seg)
                    let signature = E.ndn.sign (unsigned [] content)
                    set_segments E (λ rows. E.segments.replace rows (path, ver, seg) signature)
                    try E (λ o. E.posix.close_file o fd)
                    pure (pos 0)
                ]
            ])
    ]
