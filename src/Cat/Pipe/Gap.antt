-- ===== src/Cat/Pipe/Gap.antt =====
-- test/cat_file_pipe.cc: which segments it asks for.
use ndnfs_port.Prelude.{
  ℕ, ℤ, ◌+◌, ◌<◌, ◌≤◌, ◌==◌, pos, Bytes, true, false, ◌≡◌, ◌≢◌, refl, inl, inr, some, [], ◌∷◌, ◌++◌,
  arith, to_int, to_int-of_lt, to_u64, to_u64-pos, if◌then◌else◌, Bool-cases, length, All,
}
use ndnfs_port.External.{Env}
use ndnfs_port.External.Types.{Name, Packet, FileInfo}
use ndnfs_port.External.Ndn.{Conventions}
use ndnfs_port.Server.Config.{file_component_name}
use ndnfs_port.Server.Content.{increment}
use ndnfs_port.Client.Steps.{last_segment-append}
use ndnfs_port.Client.Information.{split_last_two-append, not_dir, is_file}
use ndnfs_port.Cat.{Asked, Fetcher, segment_of, initial, on_meta_data}
use ndnfs_port.Cat.Pipe.{interest_pipe_size, fill, on_file_info, on_file_data}

module _ (E : Env) (C : Conventions E.ndn) (file : Name) (total : ℕ) where
  -- The interest for one of the first 9 + k segments, but not for segment 8.
  abbrev IsSkipping : ℕ → Asked → Type 0
  IsSkipping k a = (i : ℕ) × (a ≡ segment_of E file i) × (i ≢ 8) × (i ≤ 8 + k)

  -- What k answers leave. The counter, which is printed as the number of segments fetched, is 8 + k.
  pub record HasAsked (k : ℕ) (s : Fetcher) : Type 0 where
    pub named : s.file_name ≡ file
    pub known : s.total_seg ≡ pos total
    pub current : s.current_seg ≡ pos (8 + k)
    pub waits : All (IsSkipping k) s.pending
    pub at_most : length s.pending ≤ 8
    -- A file of nine segments is not done.
    pub open_end : total ≡ 9 → s.done ≡ false

  -- The program behind an answer with segment `i`.
  abbrev pub received : ℕ → ℕ → Fetcher → Fetcher
  received k i s =
      if i + 1 == total then record s { current_seg = pos (9 + k); done = true } else record s {
        current_seg = pos (9 + k);
        pending = s.pending ++ (segment_of E s.file_name (9 + k) ∷ []);
      }

  -- One answer.
  pub on_file_data-received :
      (k i : ℕ) (p : Packet) (s : Fetcher)
      → i < 2147483647
      → k < 2147483639
      → p.name ≡ file ++ (E.ndn.segment_component i ∷ [])
      → s.total_seg ≡ pos total
      → s.current_seg ≡ pos (8 + k)
      → on_file_data E p s ≡ some (received k i s)
  unfolding on_file_data increment
  on_file_data-received k i p s low few named known current =
      let back : to_int i ≡ pos i = to_int-of_lt i (omega arith) in
      let n : (8 + k) + 1 ≡ 9 + k = omega arith in
      let next : to_u64 (pos (9 + k)) ≡ 9 + k = to_u64-pos (9 + k) (omega arith) in
      let last = last_segment-append E C file i (omega arith) in
      elim (Bool-cases (i + 1 == total)) [
        | inl end ↦ rw (named, last, back, known, current, n, end) refl
        | inr not_yet ↦ rw (named, last, back, known, current, n, not_yet, next) refl
      ]

  -- The full pipe.
  abbrev pub piped : ℤ → Fetcher
  piped size =
      fill E interest_pipe_size
        (record initial { file_name = file; total_size = size; total_seg = pos total })

module _ (E : Env) (C : Conventions E.ndn) (front : Name) (u : Bytes) (total : ℕ) where
  -- The information about a file fills the pipe.
  pub on_meta_data-piped :
      (packet : Packet) (info : FileInfo)
      → packet.name ≡ front ++ (E.ndn.from_escaped_string file_component_name ∷ u ∷ [])
      → E.ndn.parse_file packet.content ≡ some info
      → info.totalseg ≡ pos total
      → on_meta_data E (on_file_info E) packet initial
        ≡ some (
            piped E C
              (front ++ (E.ndn.version_component (to_u64 info.version) ∷ []))
              total
              info.size)
  unfolding on_meta_data on_file_info fill
  on_meta_data-piped packet info named parsed totals =
      rw
        (
          named,
          split_last_two-append front (E.ndn.from_escaped_string file_component_name) u,
          not_dir E C,
          is_file E C,
          on_file_info,
          parsed,
          totals,
        )
        refl
