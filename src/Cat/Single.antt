-- ===== src/Cat/Single.antt =====
-- test/cat_file.cc: one segment after the other. The outcome of verification is only printed.
pub mod Order
use mathlib.Core.Option
use ndnfs_port.Prelude.{
  ℕ, ℤ, pos, Bytes, Bool, true, false, Option, none, some, List, [], ◌∷◌, ◌++◌, ◌==◌, eqb_ℤ, to_int,
  to_u64, if◌then◌else◌,
}
use ndnfs_port.External.{Env}
use ndnfs_port.External.Types.{Name, Packet}
use ndnfs_port.Server.Config.{file_component_name}
use ndnfs_port.Server.Content.{increment}
use ndnfs_port.Client.{last_segment}
use ndnfs_port.Cat.{
  Fetcher, Asked, meta_data, initial, express, segment_of, ask_current, read_options, defaults, Opt,
  Started, usage, no_name, started, repo_total_seg, repo_total_size,
}

module _ (E : Env) where
  -- The globals behind the information about a file.
  unfoldable pub on_file_info : Name → Bytes → Fetcher → Fetcher
  on_file_info front content s = elim (E.ndn.parse_file content) [
    | none ↦ s
    | some info ↦ ask_current E (record s {
      total_size = info.size;
      total_seg = info.totalseg;
      file_name = front ++ (E.ndn.version_component (to_u64 info.version) ∷ []);
    })
  ]

  -- `none` where the FinalBlockId, which is printed as a segment, is missing or is none, or the name does not
  -- end in a segment.
  unfoldable pub on_file_data : Packet → Fetcher → Option Fetcher
  unfolding last_segment increment
  on_file_data packet s = elim packet.final_block_id [
    | none ↦ none
    | some final ↦
        let next =
          Option.map
            (λ (_, last).
              let s' = record s { current_seg = increment (to_int last) } in
              if eqb_ℤ s'.current_seg s'.total_seg
              then record s' { done = true }
              else ask_current E s')
            (last_segment E packet.name) in
        if E.ndn.is_segment final then next else none
  ]

module _ (E : Env) where
  -- `main` up to its loop.
  unfoldable pub main : List Opt → Started
  unfolding read_options file_component_name
  main options = elim (read_options options defaults) [
    | none ↦ usage
    | some settings ↦ elim settings.name [
      | none ↦ no_name
      | some name ↦ started (
          if settings.repo_mode
          then express (segment_of E (E.ndn.parse_uri name) 0) (record initial {
            file_name = E.ndn.parse_uri name;
            total_seg = repo_total_seg;
            total_size = repo_total_size;
          })
          else express
              (record {
                name = E.ndn.parse_uri name ++ (E.ndn.from_escaped_string file_component_name ∷ []);
                callback = meta_data;
              })
              initial)
    ]
  ]
