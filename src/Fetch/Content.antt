-- ===== src/Fetch/Content.antt =====
-- test/handler.cc against server/servermodule.cc: what the client ends up with.
use mathlib.Core.List.{append_assoc, append-nil}
use ndnfs_port.Prelude.{
  ℕ, zero, suc, ◌<◌, ◌≤◌, ◌/◌, ◌%◌, ◌+◌, ◌*◌, ◌==◌, ==_iff, ltb→lt, length-drop, length_zero,
  take-of_le, take-append-drop, drop-drop, pos, Bytes, true, false, ◌≡◌, ◌≢◌, refl, sym, ap, subst,
  ◌∙◌, some, [], ◌∷◌, ◌++◌, arith, length, drop, ltb, inl, inr, Bool-cases, if◌then◌else◌,
}
use ndnfs_port.External.{Env}
use ndnfs_port.External.Types.{Name, FileRow}
use ndnfs_port.External.Documented.{Documented}
use ndnfs_port.World.{World}
use ndnfs_port.Client.{Client, file_data, on_file_data}
use ndnfs_port.Client.Steps.{received, on_file_data-received}
use ndnfs_port.Server.Config.{server_path}
use ndnfs_port.Server.Name.Forms.{ArePlain, joined}
use ndnfs_port.Server.Content.Serving.{
  segment_reply, segment_reply_some, segment_reply_end, segment_packet,
}
use ndnfs_port.Server.Interest.Segments.{segment_interest, on_interest-segment_reply}
use ndnfs_port.Fs.Release.Signing.{chunk, signature_of}
use ndnfs_port.Fs.Config.{abs_path}
use ndnfs_port.Fs.File.{access_mode}
use ndnfs_port.Delivery.{IsReady, released, released-IsReady}
use ndnfs_port.Fetch.{fetch, take_packet, fetch_round, fetch_stuck, fetch_idle, exchange-eq}

module _ (E : Env) (D : Documented E) (path : Bytes) (v : ℕ) (b : Bytes) (key : ℕ → Bytes)
    (cs : Name) where
  -- The client waits for segment `i`, and knows how many there are.
  abbrev pub IsWaiting : ℕ → Client → Type 0
  IsWaiting i c =
      (c.pending ≡ record { name = segment_interest E cs v i; callback = file_data } ∷ [])
      × (c.total_segment ≡ pos (length b / 8192 + 1))
      × (c.file_name ≢ [])

  abbrev after : ℕ → Client → Client
  after i c =
      received E D.conventions (cs ++ (E.ndn.version_component v ∷ [])) (chunk b i) i
        (length b / 8192 + 1) (record c { pending = [] })

  -- One round at a segment with content.
  fetch-step :
      (n i : ℕ) (c : Client) (w : World E)
      → ArePlain cs
      → joined E cs ≡ E.fs_prefix ++ path
      → path ≢ []
      → v < 2147483648
      → length b < 2147483648
      → i * 8192 < length b
      → IsReady E D path v b key (length b / 8192) w
      → IsWaiting i c
      → (w' : World E) × (fetch E (suc n) c w ≡ fetch E n (after i c) w')
        × IsReady E D path v b key (length b / 8192) w'
  unfolding take_packet segment_packet
  fetch-step n i c w plain spelled some_path hv small more (there, signed) (waits, known, file) =
      let (o, e, same) =
        on_interest-segment_reply E D cs path v i w plain spelled some_path hv (omega arith)
          (signed i (omega arith)) there small in
      let name = segment_interest E cs v i in
      let w' : World E = record w { os = o; sent = w.sent ++ segment_reply E name b i (key i) } in
      let taken : on_file_data E (segment_packet E name b i) (record c { pending = [] })
          ≡ some (after i c) =
        on_file_data-received E D.conventions (cs ++ (E.ndn.version_component v ∷ []))
          (segment_packet E name b i) i (length b / 8192 + 1) (record c { pending = [] })
          (sym (append_assoc cs _ _)) file known (omega arith) in
      (
        w',
        fetch_round E n c (after i c) w w' (record { name = name; callback = file_data }) waits
            (exchange-eq E (record c { pending = [] }) w w'
                (record { name = name; callback = file_data }) (segment_reply E name b i (key i))
                (ap (λ x. x.1) e) refl
              ∙ ap (λ r. (take_packet E r (record c { pending = [] }), w'))
                  (segment_reply_some E name b (key i) i more)
              ∙ ap (λ t. (t, w')) taken),
        (same _ ∙ there, signed),
      )

  -- The segment behind the last byte brings nothing.
  fetch-end :
      (n i : ℕ) (c : Client) (w : World E)
      → ArePlain cs
      → joined E cs ≡ E.fs_prefix ++ path
      → path ≢ []
      → v < 2147483648
      → length b < 2147483648
      → length b ≡ i * 8192
      → IsReady E D path v b key (length b / 8192) w
      → IsWaiting i c
      → (fetch E (suc n) c w).0 ≡ c
  unfolding take_packet
  fetch-end n i c w plain spelled some_path hv small whole (there, signed) (waits, known, file) =
      let (o, e, same) =
        on_interest-segment_reply E D cs path v i w plain spelled some_path hv (omega arith)
          (signed i (omega arith)) there small in
      let name = segment_interest E cs v i in
      let w' : World E = record w { os = o; sent = w.sent ++ segment_reply E name b i (key i) } in
      ap (λ x. x.0)
        (fetch_stuck E n c w w' (record { name = name; callback = file_data }) waits
          (exchange-eq E (record c { pending = [] }) w w'
              (record { name = name; callback = file_data }) (segment_reply E name b i (key i))
              (ap (λ x. x.1) e) refl
            ∙ ap (λ r. (take_packet E r (record c { pending = [] }), w'))
                (segment_reply_end E name b (key i) i whole)))

  -- What the client has in the end: all from segment `i` on; and it still waits if the size is a multiple
  -- of 8192.
  abbrev pub HasFetched : ℕ → Client → Client → Type 0
  HasFetched i c c' =
      (c'.saved ≡ c.saved ++ drop (i * 8192) b)
      × (c'.pending ≡ (
          if length b % 8192 == 0
          then record { name = segment_interest E cs v (length b / 8192); callback = file_data }
            ∷ []
          else []))

  HasFetched-last :
      (n i : ℕ) (c : Client) (w : World E)
      → i * 8192 < length b
      → length b / 8192 ≡ i
      → HasFetched i c (fetch E n (after i c) w).0
  HasFetched-last n i c w more last =
      let ends : (i + 1 == length b / 8192 + 1) ≡ true = (==_iff _ _).1 (omega arith) in
      let broken : (length b % 8192 == 0) ≡ false = ground arith in
      let none_waits : (after i c).pending ≡ [] = rw ends refl in
      let rest : length (drop (i * 8192) b) ≤ 8192 = omega (arith, length-drop (i * 8192) b) in
      subst (λ x. HasFetched i c x.0) (sym (fetch_idle E n (after i c) w none_waits))
        (
          ap (λ t. c.saved ++ t) (take-of_le 8192 (drop (i * 8192) b) rest),
          none_waits ∙ rw broken refl,
        )

  HasFetched-next : (i : ℕ) (c c' : Client) → HasFetched (suc i) (after i c) c' → HasFetched i c c'
  HasFetched-next i c c' (s, p) =
      let e : suc i * 8192 ≡ i * 8192 + 8192 = omega arith in
      let f : drop (suc i * 8192) b ≡ drop 8192 (drop (i * 8192) b) =
        rw e (sym (drop-drop 8192 (i * 8192) b)) in
      (
        s
            ∙ append_assoc c.saved (chunk b i) _
            ∙ ap (λ t. c.saved ++ (chunk b i ++ t)) f
            ∙ ap (λ t. c.saved ++ t) (take-append-drop 8192 (drop (i * 8192) b)),
        p,
      )

  after-IsWaiting :
      (i : ℕ) (c : Client) → i < length b / 8192 → IsWaiting i c → IsWaiting (suc i) (after i c)
  after-IsWaiting i c lt (waits, known, file) =
      let goes_on : (i + 1 == length b / 8192 + 1) ≡ false = ground arith in
      let e : i + 1 ≡ suc i = omega arith in
      (
        rw goes_on (
            ap (λ name. record { name = name; callback = file_data } ∷ [])
              (append_assoc cs _ _ ∙ ap (segment_interest E cs v) e)),
        known,
        file,
      )

  -- From a client that waits for segment `i`, and a server whose tables and files hold the content `b`, below 2 GiB,
  -- with all its segments signed: after enough exchanges the client has saved the rest of `b` from segment
  -- `i` on. Then no interest waits, unless the size is a multiple of 8192 bytes, where the interest for the last
  -- segment does.
  pub fetch-HasFetched :
      (n i : ℕ) (c : Client) (w : World E)
      → ArePlain cs
      → joined E cs ≡ E.fs_prefix ++ path
      → path ≢ []
      → v < 2147483648
      → length b < 2147483648
      → i * 8192 ≤ length b
      → length b / 8192 < i + n
      → IsReady E D path v b key (length b / 8192) w
      → IsWaiting i c
      → HasFetched i c (fetch E n c w).0
  fetch-HasFetched zero i c w plain spelled some_path hv small le enough ready waiting =
      absurd (omega arith)
  fetch-HasFetched (suc n) i c w plain spelled some_path hv small le enough ready waiting =
      elim (Bool-cases (ltb (i * 8192) (length b))) [
        | inl e ↦
            let more : i * 8192 < length b = ltb→lt _ _ e in
            let (w', step, ready') =
              fetch-step n i c w plain spelled some_path hv small more ready waiting in
            subst (λ x. HasFetched i c x.0) (sym step)
              (elim (Bool-cases (ltb i (length b / 8192))) [
                | inl f ↦
                    let lt : i < length b / 8192 = ltb→lt _ _ f in
                    HasFetched-next i c (fetch E n (after i c) w').0 (
                      fetch-HasFetched n (suc i) (after i c) w' plain spelled some_path hv small
                        (omega arith) (omega arith) ready' (after-IsWaiting i c lt waiting))
                | inr f ↦ HasFetched-last n i c w' more (ground arith)
              ])
        | inr e ↦
            let whole : length b ≡ i * 8192 = ground arith in
            let last : length b / 8192 ≡ i = omega arith in
            let even : (length b % 8192 == 0) ≡ true = (==_iff _ _).1 (omega arith) in
            let nothing : drop (i * 8192) b ≡ [] =
              length_zero _ (omega (arith, length-drop (i * 8192) b)) in
            subst (HasFetched i c)
              (sym (fetch-end n i c w plain spelled some_path hv small whole ready waiting))
              (
                sym (append-nil c.saved) ∙ ap (λ t. c.saved ++ t) (sym nothing),
                waiting.0 ∙ rw (even, last) refl,
              )
      ]

module _ (E : Env) (D : Documented E) (cs : Name) (path : Bytes) (now flags : ℕ) (w : World E) where
  -- A file that has a row and less than 2 GiB is released after writing, at a time below 2 ^ 31.
  -- The server finds it in the same directory, and the client's name for it, of components without
  -- markers, spells the server's prefix and the path, which is not empty. A client that waits for
  -- segment 0 of the new version, knows the number of segments, and saves to a file has, after size
  -- / 8192 + 1 exchanges, appended the file's content to what it saved. Then no interest of it
  -- waits, unless the size is a multiple of 8192 bytes, where the one for segment size / 8192 does.
  pub ndnfs_release-fetch :
      {row : FileRow} {b : Bytes} (c : Client)
      → E.files.select w.files path ≡ some row
      → access_mode flags ≢ 0
      → D.view.content w.os (abs_path E path) ≡ some b
      → server_path E path ≡ abs_path E path
      → length b < 2147483648
      → now < 2147483648
      → ArePlain cs
      → joined E cs ≡ E.fs_prefix ++ path
      → path ≢ []
      → IsWaiting E D path now b (signature_of E path (pos now) b) cs 0 c
      → let c' = (fetch E (length b / 8192 + 1) c (released E D cs path now flags w)).0 in
        (c'.saved ≡ c.saved ++ b)
        × (c'.pending ≡ (
            if length b % 8192 == 0
            then record { name = segment_interest E cs now (length b / 8192); callback = file_data }
              ∷ []
            else []))
  ndnfs_release-fetch {row} {b} c found writes there same_dir small recent plain spelled some_path
        waiting =
      let (ready, _) =
        released-IsReady E D cs path now flags w found writes there same_dir small recent in
      fetch-HasFetched E D path now b (signature_of E path (pos now) b) cs (length b / 8192 + 1) 0 c
        _ plain spelled some_path recent small (omega arith) (omega arith) ready waiting
