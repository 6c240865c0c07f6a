-- ===== src/Cat/Pipe.antt =====
-- test/cat_file_pipe.cc: eight interests for segments wait at a time.
pub mod Gap
pub mod Answered
use mathlib.Core.Option
use ndnfs_port.Prelude.{
  ℕ, zero, suc, ℤ, pos, Bytes, Bool, true, false, Option, none, some, List, [], ◌∷◌, ◌++◌, ◌==◌,
  eqb_ℤ, to_int, to_u64, if◌then◌else◌,
}
use ndnfs_port.External.{Env}
use ndnfs_port.External.Types.{Name, Packet}
use ndnfs_port.Server.Config.{file_component_name}
use ndnfs_port.Server.Content.{increment}
use ndnfs_port.Client.{last_segment}
use ndnfs_port.Cat.{
  Fetcher, Asked, meta_data, initial, express, ask_current, read_options, defaults, Opt, Started,
  usage, no_name, started, repo_total_seg, repo_total_size,
}

abbrev pub interest_pipe_size : ℕ
interest_pipe_size = 8

module _ (E : Env) where
  -- The loop that fills the pipe.
  unfoldable pub fill : ℕ → Fetcher → Fetcher
  unfolding increment
  fill zero s = s
  fill (suc n) s =
      let asked = ask_current E s in fill n (record asked { current_seg = increment s.current_seg })

  -- The globals behind the information about a file.
  unfoldable pub on_file_info : Name → Bytes → Fetcher → Fetcher
  unfolding fill
  on_file_info front content s = elim (E.ndn.parse_file content) [
    | none ↦ s
    | some info ↦ fill interest_pipe_size (record s {
      total_size = info.size;
      total_seg = info.totalseg;
      file_name = front ++ (E.ndn.version_component (to_u64 info.version) ∷ []);
    })
  ]

  -- `none` where the name does not end in a segment.
  unfoldable pub on_file_data : Packet → Fetcher → Option Fetcher
  unfolding last_segment increment
  on_file_data packet s =
      Option.map
        (λ (_, last).
          let s' = record s { current_seg = increment s.current_seg } in
          if eqb_ℤ (increment (to_int last)) s'.total_seg
          then record s' { done = true }
          else ask_current E s')
        (last_segment E packet.name)

module _ (E : Env) where
  -- `main` up to its loop. The marker goes in as it stands, not from its escaped form.
  unfoldable pub main : List Opt → Started
  unfolding read_options fill file_component_name
  main options = elim (read_options options defaults) [
    | none ↦ usage
    | some settings ↦ elim settings.name [
      | none ↦ no_name
      | some name ↦ started (
          if settings.repo_mode
          then fill E interest_pipe_size (record initial {
            file_name = E.ndn.parse_uri name;
            total_seg = repo_total_seg;
            total_size = repo_total_size;
          })
          else express
              (record {
                name = E.ndn.parse_uri name ++ (file_component_name ∷ []);
                callback = meta_data;
              })
              initial)
    ]
  ]
