-- ===== src/Cat/Network/Alive.antt =====
-- test/cat_file.cc and test/cat_file_pipe.cc: does the loop of main have something to wait for?
use ndnfs_port.Prelude.{
  ℕ, ◌+◌, Bytes, true, false, ◌≡◌, refl, ◌∙◌, sym, ap, ◌⊎◌, inl, inr, Option, none, some, [], ◌∷◌,
  ◌++◌, length, Bool-cases, to_u64,
}
use ndnfs_port.External.{Env}
use ndnfs_port.External.Types.{Name, Packet, FileInfo}
use ndnfs_port.External.Ndn.{Conventions}
use ndnfs_port.Server.Config.{file_component_name, dir_component_name}
use ndnfs_port.Client.{is_marker}
use ndnfs_port.Client.Information.{split_last_two-append}
use ndnfs_port.Cat.{Fetcher, initial, on_meta_data}
use ndnfs_port.Cat.Network.{answer, Run, begin, answered, expired}
use ndnfs_port.Cat.Single
use ndnfs_port.Cat.Single.Order.{not_empty}
use ndnfs_port.Cat.Pipe

-- The program is through, or `n` interests wait.
abbrev pub IsAlive : ℕ → Fetcher → Type 0
IsAlive n s = (s.done ≡ true) ⊎ (length s.pending ≡ n)

-- A callback that ends the program or sends an interest for the one that was answered.
abbrev Replaces : (Packet → Fetcher → Option Fetcher) → Type 0
Replaces f =
    (p : Packet) (s t : Fetcher)
    → f p s ≡ some t
    → (t.done ≡ true) ⊎ ((t.done ≡ s.done) × (length t.pending ≡ length s.pending + 1))

module _ (E : Env) (C : Conventions E.ndn) (front : Name) (u : Bytes) (packet : Packet) where
  -- What the information sets.
  abbrev pub informed : FileInfo → Fetcher
  informed info = record initial {
    total_size = info.size;
    total_seg = info.totalseg;
    file_name = front ++ (E.ndn.version_component (to_u64 info.version) ∷ []);
  }

-- Nothing happens where no interest waits.
Run-idle :
    (f : Packet → Fetcher → Option Fetcher) {s t : Fetcher} → s.pending ≡ [] → Run f s t → t ≡ s
Run-idle f idle begin = refl
Run-idle f {s} idle (answered {t} before (answer front back a p there file_data_of named e)) =
    let same = Run-idle f idle before in
    absurd (not_empty front back a (sym (ap (λ x. x.pending) same ∙ idle) ∙ there))
Run-idle f {s} idle (expired {t} front back a before there) =
    let same = Run-idle f idle before in
    absurd (not_empty front back a (sym (ap (λ x. x.pending) same ∙ idle) ∙ there))

module _ (E : Env) (front : Name) (m u : Bytes) (packet : Packet) where
  -- The callback as it is for every packet without information about a file.
  unmoved :
      (f : Name → Bytes → Fetcher → Fetcher)
      → ((s : Fetcher) → E.ndn.parse_file packet.content ≡ none → f front packet.content s ≡ s)
      → packet.name ≡ front ++ (m ∷ u ∷ [])
      → (is_marker E m file_component_name ≡ false) ⊎ (E.ndn.parse_file packet.content ≡ none)
      → on_meta_data E f packet initial ≡ some initial
  unfolding on_meta_data
  unmoved f idle named bad = elim (Bool-cases (is_marker E m dir_component_name)) [
    | inl dir ↦ rw (named, split_last_two-append front m u, on_meta_data, dir) refl
    | inr other ↦ elim bad [
      | inl not_file ↦
          rw (named, split_last_two-append front m u, on_meta_data, other, not_file) refl
      | inr none_parsed ↦ elim (Bool-cases (is_marker E m file_component_name)) [
        | inl file ↦
            rw (named, split_last_two-append front m u, on_meta_data, other, file)
              (ap some (idle initial none_parsed))
        | inr not_file ↦
            rw (named, split_last_two-append front m u, on_meta_data, other, not_file) refl
      ]
    ]
  ]

  -- A packet that answers the interest of main, but has another marker than that of a file, or content
  -- that is no information about a file, leaves either program as it was, neither through nor
  -- waiting for an interest, and there it stays.
  pub on_meta_data-stuck :
      packet.name ≡ front ++ (m ∷ u ∷ [])
      → (is_marker E m file_component_name ≡ false) ⊎ (E.ndn.parse_file packet.content ≡ none)
      → (on_meta_data E (Single.on_file_info E) packet initial ≡ some initial)
        × (on_meta_data E (Pipe.on_file_info E) packet initial ≡ some initial)
        × ((s : Fetcher) → Run (Single.on_file_data E) initial s → s ≡ initial)
        × ((s : Fetcher) → Run (Pipe.on_file_data E) initial s → s ≡ initial)
  unfolding Single.on_file_info Pipe.on_file_info
  on_meta_data-stuck named bad = (
    unmoved (Single.on_file_info E) (λ s e. rw (e, Single.on_file_info) refl) named bad,
    unmoved (Pipe.on_file_info E) (λ s e. rw (e, Pipe.on_file_info) refl) named bad,
    λ s. Run-idle (Single.on_file_data E) refl,
    λ s. Run-idle (Pipe.on_file_data E) refl,
  )
