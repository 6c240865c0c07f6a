-- ===== src/Fetch.antt =====
-- test/handler.cc against server/servermodule.cc: a client that fetches a file from the server.
pub mod Content
pub mod Start
pub mod Retry
pub mod Typed
use mathlib.Core.List.{append_assoc, append-nil}
use ndnfs_port.Prelude.{
  ℕ, zero, suc, ◌<◌, ◌≤◌, ◌/◌, ◌%◌, ◌+◌, ◌*◌, ◌==◌, ==_iff, ltb→lt, length-drop, length_zero,
  take-of_le, take-append-drop, drop-drop, pos, Bytes, Bool, true, false, ◌≡◌, ◌≢◌, refl, sym, ap,
  subst, ◌∙◌, Option, none, some, List, [], ◌∷◌, ◌++◌, arith, length, drop, drop-length-append,
  take, ltb, inl, inr, Bool-cases, if◌then◌else◌,
}
use ndnfs_port.External.{Env}
use ndnfs_port.External.Types.{Name, FileRow}
use ndnfs_port.External.Documented.{Documented}
use ndnfs_port.World.{World, Sent}
use ndnfs_port.Client.{Client, Expressed, file_data, on_file_data}
use ndnfs_port.Client.Steps.{received, on_file_data-received}
use ndnfs_port.Server.Config.{server_path}
use ndnfs_port.Server.Name.Forms.{ArePlain, joined}
use ndnfs_port.Server.Content.Serving.{
  segment_reply, segment_reply_some, segment_reply_end, segment_packet,
}
use ndnfs_port.Server.Interest.{on_interest}
use ndnfs_port.Server.Interest.Segments.{segment_interest, on_interest-segment_reply}
use ndnfs_port.Fs.Release.Signing.{chunk, length-chunk, signature_of}
use ndnfs_port.Fs.Config.{abs_path}
use ndnfs_port.Fs.File.{access_mode}
use ndnfs_port.Delivery.{IsReady, released, released-IsReady}

module _ (E : Env) where
  -- The client takes the packet that an interest brought.
  unfoldable pub take_packet : List Sent → Client → Option Client
  take_packet [] c = none
  take_packet (s ∷ _) c = on_file_data E s.packet c

  -- An interest goes to the server, and the client takes the packet that it brings.
  pub exchange : Client → World E → Expressed → Option Client × World E
  unfolding take_packet
  exchange c w waiting =
      let w' = (on_interest E waiting.name w).1 in
      (take_packet (drop (length w.sent) w'.sent) c, w')

  -- `n` exchanges at most, each for the first interest that waits. One that brings nothing keeps waiting.
  pub fetch : ℕ → Client → World E → Client × World E
  fetch zero c w = (c, w)
  fetch (suc n) c w = elim c.pending [
    | [] ↦ (c, w)
    | waiting ∷ rest ↦
        let (taken, w') = exchange (record c { pending = rest }) w waiting in
        elim taken [ none ↦ (c, w') | some c' ↦ fetch n c' w' ]
  ]

  abbrev resume : ℕ → Client → Option Client × World E → Client × World E
  resume n c x = elim x.0 [ none ↦ (c, x.1) | some c' ↦ fetch n c' x.1 ]

  abbrev at_pending : ℕ → Client → World E → List Expressed → Client × World E
  at_pending n c w pending = elim pending [
    | [] ↦ (c, w)
    | waiting ∷ rest ↦ resume n c (exchange (record c { pending = rest }) w waiting)
  ]

  fetch-suc : (n : ℕ) (c : Client) (w : World E) → fetch (suc n) c w ≡ at_pending n c w c.pending
  unfolding fetch
  fetch-suc n c w = refl

  pub fetch_round :
      (n : ℕ) (c c' : Client) (w w' : World E) (waiting : Expressed)
      → c.pending ≡ waiting ∷ []
      → exchange (record c { pending = [] }) w waiting ≡ (some c', w')
      → fetch (suc n) c w ≡ fetch n c' w'
  fetch_round n c c' w w' waiting e x =
      fetch-suc n c w ∙ ap (at_pending n c w) e ∙ ap (resume n c) x

  pub fetch_stuck :
      (n : ℕ) (c : Client) (w w' : World E) (waiting : Expressed)
      → c.pending ≡ waiting ∷ []
      → exchange (record c { pending = [] }) w waiting ≡ (none, w')
      → fetch (suc n) c w ≡ (c, w')
  fetch_stuck n c w w' waiting e x = fetch-suc n c w ∙ ap (at_pending n c w) e ∙ ap (resume n c) x

  pub fetch_idle : (n : ℕ) (c : Client) (w : World E) → c.pending ≡ [] → fetch n c w ≡ (c, w)
  unfolding fetch
  fetch_idle zero c w e = refl
  fetch_idle (suc n) c w e = fetch-suc n c w ∙ ap (at_pending n c w) e

  -- What an exchange does where the server adds `reply` to what it sent.
  pub exchange-eq :
      (c : Client) (w w' : World E) (waiting : Expressed) (reply : List Sent)
      → (on_interest E waiting.name w).1 ≡ w'
      → w'.sent ≡ w.sent ++ reply
      → exchange c w waiting ≡ (take_packet reply c, w')
  unfolding exchange
  exchange-eq c w w' waiting reply e s =
      ap (λ (x : World E). (take_packet (drop (length w.sent) x.sent) c, x)) e
      ∙ ap (λ r. (take_packet r c, w'))
          (ap (drop (length w.sent)) s ∙ drop-length-append w.sent reply)
