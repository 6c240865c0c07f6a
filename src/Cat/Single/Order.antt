-- ===== src/Cat/Single/Order.antt =====
-- test/cat_file.cc: the order in which segments are asked for.
use ndnfs_port.Prelude.{
  ℕ, zero, suc, ◌+◌, ◌<◌, ◌≤◌, ◌==◌, pos, Bytes, true, false, ◌≡◌, refl, ap, subst, ℤ, ◌≢◌, ◌∙◌,
  sym, inl, inr, some, none, Option-cases, List, [], ◌∷◌, ◌++◌, arith, to_int, to_int-of_lt, to_u64,
  to_u64-pos, if◌then◌else◌, Bool-cases,
}
use ndnfs_port.External.{Env}
use ndnfs_port.External.Types.{Name, Packet, FileInfo}
use ndnfs_port.Server.Config.{file_component_name}
use ndnfs_port.Client.Information.{split_last_two-append, not_dir, is_file}
use ndnfs_port.External.Ndn.{Conventions}
use ndnfs_port.Server.Content.{increment}
use ndnfs_port.Client.Steps.{last_segment-append}
use ndnfs_port.Cat.{Asked, Fetcher, segment_of, initial, on_meta_data}
use ndnfs_port.Cat.Network.{Step, answer, Reach, here, later}
use ndnfs_port.Cat.Single.{on_file_data, on_file_info}

-- A list of one element has but one place.
singleton-inv {ℓ} :
    {A : Type ℓ} (x y : A) (front back : List A)
    → (x ∷ []) ≡ front ++ (y ∷ back)
    → (x ≡ y) × (front ++ back ≡ [])
singleton-inv x y [] back e = (cc, cc)
singleton-inv x y (z ∷ []) back e = cc
singleton-inv x y (z ∷ w ∷ front) back e = cc

pub not_empty {ℓ} : {A : Type ℓ} (front back : List A) (y : A) → [] ≢ front ++ (y ∷ back)
not_empty [] back y e = cc
not_empty (x ∷ front) back y e = cc

module _ (E : Env) where
  -- The handler prints the FinalBlockId.
  pub on_file_data-final :
      (p : Packet) (s t : Fetcher)
      → on_file_data E p s ≡ some t
      → (final : Bytes) × (p.final_block_id ≡ some final) × (E.ndn.is_segment final ≡ true)
  unfolding on_file_data
  on_file_data-final p s t e = elim (Option-cases p.final_block_id) [
    | inl missing ↦ let bad : none ≡ some t = rw missing at e in cc
    | inr (final, there) ↦ elim (Bool-cases (E.ndn.is_segment final)) [
      | inl is_seg ↦ (final, there, is_seg)
      | inr other ↦ let bad : none ≡ some t = rw (there, other) at e in cc
    ]
  ]

module _ (E : Env) (C : Conventions E.ndn) (file : Name) (total : ℕ) where
  -- What the answers to segments 0 to k - 1 leave: the interest for the next one, or none behind the last.
  pub record HasReceived (k : ℕ) (s : Fetcher) : Type 0 where
    pub named : s.file_name ≡ file
    pub known : s.total_seg ≡ pos total
    pub within : k ≤ total
    pub waits : s.pending ≡ (if k == total then [] else segment_of E file k ∷ [])
    pub ends : s.done ≡ (k == total)

  -- The program behind segment `k`.
  abbrev pub received : ℕ → Fetcher → Fetcher
  received k s =
      if k + 1 == total then record s { current_seg = pos (k + 1); done = true } else record s {
        current_seg = pos (k + 1);
        pending = s.pending ++ (segment_of E s.file_name (k + 1) ∷ []);
      }

  pub on_file_data-received :
      (k : ℕ) (p : Packet) (s : Fetcher)
      → k < 2147483647
      → (final : Bytes) × (p.final_block_id ≡ some final) × (E.ndn.is_segment final ≡ true)
      → p.name ≡ file ++ (E.ndn.segment_component k ∷ [])
      → s.total_seg ≡ pos total
      → on_file_data E p s ≡ some (received k s)
  unfolding on_file_data increment
  on_file_data-received k p s low final named known =
      let back : to_int k ≡ pos k = to_int-of_lt k (omega arith) in
      let next : to_u64 (pos (k + 1)) ≡ k + 1 = to_u64-pos (k + 1) (omega arith) in
      let last = last_segment-append E C file k (omega arith) in
      let (_, there, is_seg) = final in
      elim (Bool-cases (k + 1 == total)) [
        | inl end ↦ rw (on_file_data, there, is_seg, named, last, back, known, end) refl
        | inr not_yet ↦
            rw (on_file_data, there, is_seg, named, last, back, known, not_yet, next) refl
      ]

  -- The interest answered is the only one there is.
  only_one :
      (k : ℕ) {s : Fetcher} (front back : List Asked) (a : Asked)
      → HasReceived k s
      → s.pending ≡ front ++ (a ∷ back)
      → (k < total) × (segment_of E file k ≡ a) × (front ++ back ≡ [])
  only_one k {s} front back a h there = elim (Bool-cases (k == total)) [
    | inl end ↦ absurd (not_empty front back a (sym (rw end at h.waits) ∙ there))
    | inr more ↦
        let (same, idle) =
          singleton-inv (segment_of E file k) a front back (sym (rw more at h.waits) ∙ there) in
        (ground (arith, h.within), same, idle)
  ]

  received-HasReceived :
      (k : ℕ) (s : Fetcher) (rest : List Asked)
      → k < total
      → HasReceived k s
      → rest ≡ []
      → HasReceived (k + 1) (received k (record s { pending = rest }))
  received-HasReceived k s rest more h idle = elim (Bool-cases (k + 1 == total)) [
    | inl end ↦ rw end (record {
      named = h.named;
      known = h.known;
      within = omega arith;
      waits = rw end idle;
      ends = rw end refl;
    })
    | inr not_yet ↦ rw not_yet (record {
      named = h.named;
      known = h.known;
      within = omega arith;
      waits = rw (not_yet, h.named, idle) refl;
      ends = ground (arith, h.ends);
    })
  ]

  Step-HasReceived :
      (k : ℕ) {s t : Fetcher}
      → total < 2147483648
      → HasReceived k s
      → Step (on_file_data E) s t
      → HasReceived (k + 1) t
  Step-HasReceived k {s} {t} small h (answer front back a p there file_data_of named e) =
      let (more, same, idle) = only_one k front back a h there in
      let s' : Fetcher = record s { pending = front ++ back } in
      let e' : some (received k s') ≡ some t =
        sym (
          on_file_data-received k p s' (omega arith) (on_file_data-final E p s' t e)
            (named ∙ sym (ap (λ x. x.name) same)) h.known)
        ∙ e in
      let same_state : received k s' ≡ t = cc in
      subst (HasReceived (k + 1)) same_state (received-HasReceived k s (front ++ back) more h idle)

  abbrev pub asking : ℤ → Fetcher
  asking size = record {
    file_name = file;
    total_size = size;
    total_seg = pos total;
    current_seg = pos 0;
    done = false;
    pending = segment_of E file 0 ∷ [];
  }

  pub Reach-HasReceived :
      (size : ℤ) {k : ℕ} {s : Fetcher}
      → 0 < total
      → total < 2147483648
      → Reach (on_file_data E) (asking size) k s
      → HasReceived k s
  Reach-HasReceived size some_segments small here = record {
    named = refl;
    known = refl;
    within = omega arith;
    waits = ground arith;
    ends = ground arith;
  }
  Reach-HasReceived size some_segments small (later {k} before step) =
      let h = Reach-HasReceived size some_segments small before in Step-HasReceived k small h step

  -- As long as segments are missing, an answer to the one interest brings the program on.
  Reach-extend :
      (size : ℤ) (k : ℕ)
      → 0 < total
      → total < 2147483648
      → k ≤ total
      → (s : Fetcher) × Reach (on_file_data E) (asking size) k s
  Reach-extend size zero some_segments small within = (asking size, here)
  Reach-extend size (suc k) some_segments small within =
      let (s, before) = Reach-extend size k some_segments small (omega arith) in
      let h = Reach-HasReceived size some_segments small before in
      let p : Packet = record {
        name = file ++ (E.ndn.segment_component k ∷ []);
        content = [];
        final_block_id = some (E.ndn.segment_component total);
        freshness_period = none;
      } in
      let n : suc k ≡ k + 1 = omega arith in
      let more : (k == total) ≡ false = ground arith in
      (
        received k (record s { pending = [] }),
        rw n (
            later before (
              answer [] [] (segment_of E file k) p (rw more at h.waits) refl refl (
                on_file_data-received k p (record s { pending = [] }) (omega arith)
                  (E.ndn.segment_component total, refl, C.is_segment-segment total) refl h.known))),
      )

module _ (E : Env) (C : Conventions E.ndn) (front : Name) (u : Bytes) (total : ℕ) where
  pub on_meta_data-asking :
      (packet : Packet) (info : FileInfo)
      → packet.name ≡ front ++ (E.ndn.from_escaped_string file_component_name ∷ u ∷ [])
      → E.ndn.parse_file packet.content ≡ some info
      → info.totalseg ≡ pos total
      → on_meta_data E (on_file_info E) packet initial
        ≡ some (
            asking E C
              (front ++ (E.ndn.version_component (to_u64 info.version) ∷ []))
              total
              info.size)
  unfolding on_meta_data on_file_info to_u64
  on_meta_data-asking packet info named parsed totals =
      rw
        (
          named,
          split_last_two-append front (E.ndn.from_escaped_string file_component_name) u,
          not_dir E C,
          is_file E C,
          on_file_info,
          parsed,
          totals,
        )
        refl

  -- The information about a file of at least one and less than 2 ^ 31 segments makes the program ask for
  -- segment 0 of the version. Behind k answers on which the callback does not throw, whatever their
  -- content, none of the interests having timed out, the interest for segment k is the only one that
  -- waits, and the program is through just if k is the number of segments; then none waits. That many
  -- such answers can come.
  pub on_meta_data-HasReceived :
      (packet : Packet) (info : FileInfo)
      → packet.name ≡ front ++ (E.ndn.from_escaped_string file_component_name ∷ u ∷ [])
      → E.ndn.parse_file packet.content ≡ some info
      → info.totalseg ≡ pos total
      → 0 < total
      → total < 2147483648
      → (t : Fetcher) × (on_meta_data E (on_file_info E) packet initial ≡ some t)
        × ((k : ℕ) (s : Fetcher)
            → Reach (on_file_data E) t k s
            → HasReceived E C
                (front ++ (E.ndn.version_component (to_u64 info.version) ∷ []))
                total
                k
                s)
        × ((s : Fetcher) × Reach (on_file_data E) t total s)
  on_meta_data-HasReceived packet info named parsed totals some_segments small =
      let file = front ++ (E.ndn.version_component (to_u64 info.version) ∷ []) in
      (
        asking E C file total info.size,
        on_meta_data-asking packet info named parsed totals,
        λ k s. Reach-HasReceived E C file total info.size some_segments small,
        Reach-extend E C file total info.size total some_segments small (omega arith),
      )
