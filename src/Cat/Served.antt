-- ===== src/Cat/Served.antt =====
-- test/cat_file.cc and test/cat_file_pipe.cc against server/servermodule.cc: the server answers the
-- interests that wait.
use mathlib.Core.List.{append_assoc}
use ndnfs_port.Prelude.{
  ℕ, zero, suc, ◌+◌, ◌*◌, ◌/◌, ◌<◌, ◌==◌, pos, Bytes, false, ◌≡◌, ◌≢◌, refl, sym, ap, ◌∙◌, some,
  Option, List, [], ◌∷◌, ◌++◌, arith, length,
}
use ndnfs_port.External.{Env}
use ndnfs_port.External.Types.{Name, Packet}
use ndnfs_port.External.Documented.{Documented}
use ndnfs_port.World.{World, Sent}
use ndnfs_port.Server.Name.Forms.{ArePlain, joined}
use ndnfs_port.Server.Content.Serving.{segment_reply, segment_reply_some, segment_packet}
use ndnfs_port.Server.Interest.{on_interest}
use ndnfs_port.Server.Interest.Segments.{segment_interest, on_interest-segment_reply}
use ndnfs_port.Delivery.{IsReady}
use ndnfs_port.Cat.{Asked, Fetcher, file_data, segment_of}
use ndnfs_port.Cat.Network.{Step, answer, Reach, here, later}
use ndnfs_port.Cat.Single.{on_file_data}
use ndnfs_port.Cat.Single.Order.{
  HasReceived, received, on_file_data-received, asking, Reach-HasReceived,
}

-- The number of segments of a content.
abbrev pub total_of : Bytes → ℕ
total_of b = length b / 8192 + 1

module _ (E : Env) where
  -- The name of a version of a file.
  abbrev pub version_of : Name → ℕ → Name
  version_of cs v = cs ++ (E.ndn.version_component v ∷ [])

module _ (E : Env) (on_file_data : Packet → Fetcher → Option Fetcher) where
  -- One interest goes to the server, which sends one packet of that name, and the program takes it.
  pub data Exchange (s : Fetcher) (w : World E) : Fetcher → World E → Type 0 where
    exchange :
        (front back : List Asked) (a : Asked) (x : Sent) {t : Fetcher} {w' : World E}
        → s.pending ≡ front ++ (a ∷ back)
        → a.callback ≡ file_data
        → (on_interest E a.name w).1 ≡ w'
        → w'.sent ≡ w.sent ++ (x ∷ [])
        → x.packet.name ≡ a.name
        → on_file_data x.packet (record s { pending = front ++ back }) ≡ some t
        → Exchange s w t w'

  pub data Served (s : Fetcher) (w : World E) : ℕ → Fetcher → World E → Type 0 where
    start : Served s w 0 s w
    next :
        {k : ℕ} {t u : Fetcher} {w' w'' : World E}
        → Served s w k t w'
        → Exchange t w' u w''
        → Served s w (k + 1) u w''

  -- The server is one of the networks.
  Exchange-Step : {s t : Fetcher} {w w' : World E} → Exchange s w t w' → Step on_file_data s t
  Exchange-Step (exchange front back a x there file sent one named taken) =
      answer front back a x.packet there file named taken

  pub Served-Reach :
      {s : Fetcher} {w : World E} {k : ℕ} {t : Fetcher} {w' : World E}
      → Served s w k t w'
      → Reach on_file_data s k t
  Served-Reach start = here
  Served-Reach (next before e) = later (Served-Reach before) (Exchange-Step e)

module _ (E : Env) (D : Documented E) (path : Bytes) (v : ℕ) (b : Bytes) (key : ℕ → Bytes)
    (cs : Name) where
  -- One segment with content.
  Exchange-segment :
      (k : ℕ) (s : Fetcher) (w : World E)
      → ArePlain cs
      → joined E cs ≡ E.fs_prefix ++ path
      → path ≢ []
      → v < 2147483648
      → length b < 2147483648
      → k * 8192 < length b
      → IsReady E D path v b key (length b / 8192) w
      → HasReceived E D.conventions (version_of E cs v) (total_of b) k s
      → (t : Fetcher) × (w' : World E) × Exchange E (on_file_data E) s w t w'
        × IsReady E D path v b key (length b / 8192) w'
  unfolding segment_packet
  Exchange-segment k s w plain spelled some_path hv small more (there, signed) h =
      let (o, e, same) =
        on_interest-segment_reply E D cs path v k w plain spelled some_path hv (omega arith)
          (signed k (omega arith)) there small in
      let name = segment_interest E cs v k in
      let w' : World E = record w { os = o; sent = w.sent ++ segment_reply E name b k (key k) } in
      let p : Packet = segment_packet E name b k in
      let low : (k == total_of b) ≡ false = ground arith in
      let same_name : name ≡ (segment_of E (version_of E cs v) k).name =
        sym (append_assoc cs _ _) in
      (
        received E D.conventions (version_of E cs v) (total_of b) k (record s { pending = [] }),
        w',
        exchange [] [] (segment_of E (version_of E cs v) k)
            (record { packet = p; signature = key k }) (rw low at h.waits) refl
            (ap (λ n. (on_interest E n w).1) (sym same_name) ∙ ap (λ r. r.1) e)
            (ap (λ r. w.sent ++ r) (segment_reply_some E name b (key k) k more)) same_name
            (on_file_data-received E D.conventions (version_of E cs v) (total_of b) k p
              (record s { pending = [] }) (omega arith)
              (E.ndn.segment_component (length b / 8192), refl, D.conventions.is_segment-segment _)
              same_name h.known),
        (same _ ∙ there, signed),
      )

  -- All segments with content.
  pub Served-segments :
      (size : ℕ) (k : ℕ) (w : World E)
      → ArePlain cs
      → joined E cs ≡ E.fs_prefix ++ path
      → path ≢ []
      → v < 2147483648
      → length b < 2147483648
      → k * 8192 < length b + 8192
      → IsReady E D path v b key (length b / 8192) w
      → (s : Fetcher) × (w' : World E) × Served E
          (on_file_data E)
          (asking E D.conventions (version_of E cs v) (total_of b) (pos size))
          w
          k
          s
          w'
        × IsReady E D path v b key (length b / 8192) w'
  Served-segments size zero w plain spelled some_path hv small le ready =
      (asking E D.conventions (version_of E cs v) (total_of b) (pos size), w, start, ready)
  Served-segments size (suc k) w plain spelled some_path hv small le ready =
      let (s, w', before, ready') =
        Served-segments size k w plain spelled some_path hv small (omega arith) ready in
      let h =
        Reach-HasReceived E D.conventions (version_of E cs v) (total_of b) (pos size) (omega arith)
          (omega arith) (Served-Reach E (on_file_data E) before) in
      let (t, w'', step, ready'') =
        Exchange-segment k s w' plain spelled some_path hv small (omega arith) ready' h in
      let n : suc k ≡ k + 1 = omega arith in (t, w'', rw n (next before step), ready'')
