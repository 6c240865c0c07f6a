-- ===== src/Client/Steps.antt =====
-- test/handler.cc, onFileData: one segment of a file received.
use ndnfs_port.Prelude.{
  ℕ, ◌+◌, ◌<◌, ◌==◌, pos, Bytes, false, ◌≡◌, ◌≢◌, refl, some, [], ◌∷◌, ◌++◌, arith, eqb, eqb_iff,
  to_int, to_int-of_lt, to_u64, to_u64-pos, if◌then◌else◌, Bool-cases, inl, inr,
}
use ndnfs_port.External.{Env}
use ndnfs_port.External.Types.{Name, Packet}
use ndnfs_port.External.Ndn.{Conventions}
use ndnfs_port.Server.Content.{increment}
use ndnfs_port.Client.{Client, file_data, split_last, last_segment, on_file_data}

pub split_last-append :
    (front : Name) (c : Bytes) → split_last (front ++ (c ∷ [])) ≡ some (front, c)
unfolding split_last
split_last-append [] c = refl
split_last-append (d ∷ front) c = rw (split_last-append front c) refl

module _ (E : Env) (C : Conventions E.ndn) where
  pub last_segment-append :
      (front : Name) (k : ℕ)
      → k < 2147483648
      → last_segment E (front ++ (E.ndn.segment_component k ∷ [])) ≡ some (front, k)
  unfolding last_segment
  last_segment-append front k low =
      rw
        (
          last_segment,
          split_last-append front (E.ndn.segment_component k),
          C.is_segment-segment k,
          C.to_segment-segment k (omega arith),
        )
        refl

  -- The client behind segment `k` of the content `content`: it asks for the next one, or is through.
  abbrev pub received : Name → Bytes → ℕ → ℕ → Client → Client
  received front content k total c = record c {
    saved = c.saved ++ content;
    current_segment = pos (k + 1);
    pending =
        if k + 1 == total
        then c.pending
        else c.pending
          ++ (record {
            name = front ++ (E.ndn.segment_component (k + 1) ∷ []);
            callback = file_data;
          }
              ∷ []);
  }

  pub on_file_data-received :
      (front : Name) (packet : Packet) (k total : ℕ) (c : Client)
      → packet.name ≡ front ++ (E.ndn.segment_component k ∷ [])
      → c.file_name ≢ []
      → c.total_segment ≡ pos total
      → k < 2147483647
      → on_file_data E packet c ≡ some (received front packet.content k total c)
  unfolding on_file_data increment
  on_file_data-received front packet k total c named file known low =
      let back : to_int k ≡ pos k = to_int-of_lt k (omega arith) in
      let next : to_u64 (pos (k + 1)) ≡ k + 1 = to_u64-pos (k + 1) (omega arith) in
      let named_file : eqb c.file_name [] ≡ false = elim (Bool-cases (eqb c.file_name [])) [
        | inl e ↦ absurd (file ((eqb_iff c.file_name []).0 e))
        | inr e ↦ e
      ] in
      elim (Bool-cases (k + 1 == total)) [
        | inl e ↦
            rw (named, last_segment-append front k (omega arith), back, named_file, known, e) refl
        | inr e ↦
            rw (named, last_segment-append front k (omega arith), back, named_file, known, e)
              (rw next refl)
      ]
