-- ===== src/Cat/Network.antt =====
-- What the network may do to such a program: it answers any of the interests that wait, in any order.
pub mod Alive
use ndnfs_port.Prelude.{ℕ, ◌+◌, ◌≡◌, Option, some, List, ◌∷◌, ◌++◌}
use ndnfs_port.External.Types.{Packet}
use ndnfs_port.Cat.{Asked, Fetcher, file_data, on_timeout}

module _ (on_file_data : Packet → Fetcher → Option Fetcher) where
  -- A packet with the name of the interest goes to `onFileData`. One on which that throws ends the
  -- program, and is no step.
  pub data Step (s : Fetcher) : Fetcher → Type 0 where
    answer :
        (front back : List Asked) (a : Asked) (p : Packet) {t : Fetcher}
        → s.pending ≡ front ++ (a ∷ back)
        → a.callback ≡ file_data
        → p.name ≡ a.name
        → on_file_data p (record s { pending = front ++ back }) ≡ some t
        → Step s t

  -- Behind a number of answers, none of the interests having timed out.
  pub data Reach (s : Fetcher) : ℕ → Fetcher → Type 0 where
    here : Reach s 0 s
    later : {k : ℕ} {t u : Fetcher} → Reach s k t → Step t u → Reach s (k + 1) u

  -- Any run: answers, and interests that bring no data, for which `onTimeout` is called.
  pub data Run (s : Fetcher) : Fetcher → Type 0 where
    begin : Run s s
    answered : {t u : Fetcher} → Run s t → Step t u → Run s u
    expired :
        {t : Fetcher} (front back : List Asked) (a : Asked)
        → Run s t
        → t.pending ≡ front ++ (a ∷ back)
        → Run s (on_timeout (record t { pending = front ++ back }))
