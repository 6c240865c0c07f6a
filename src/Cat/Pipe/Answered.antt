-- ===== src/Cat/Pipe/Answered.antt =====
-- test/cat_file_pipe.cc against server/servermodule.cc: the interests are answered in the order in which
-- they were sent.
use ndnfs_port.Prelude.{ℕ, zero, suc, ◌+◌, ◌-◌, ltb, pos, Bytes, ◌≡◌, List, [], ◌∷◌, if◌then◌else◌}
use ndnfs_port.External.{Env}
use ndnfs_port.External.Types.{Name}
use ndnfs_port.External.Documented.{Documented}
use ndnfs_port.World.{World}
use ndnfs_port.Cat.{Asked, Fetcher, segment_of}
use ndnfs_port.Cat.Served.{Served, version_of, total_of}
use ndnfs_port.Cat.Pipe.Gap.{received}

-- The segment that the program asks for in its interest number `j`: segment 8 is left out.
abbrev pub wanted : ℕ → ℕ
wanted j = if ltb j 8 then j else j + 1

-- How many answers bring the program to the last of `total` segments.
abbrev pub answers : ℕ → ℕ
answers total = if ltb total 9 then total else total - 1

module _ (E : Env) (file : Name) where
  -- `n` interests from number `j` on.
  window : ℕ → ℕ → List Asked
  window zero j = []
  window (suc n) j = segment_of E file (wanted j) ∷ window n (suc j)

module _ (E : Env) (D : Documented E) (path : Bytes) (v : ℕ) (b : Bytes) (key : ℕ → Bytes)
    (cs : Name) where
  file : Name
  file = version_of E cs v

  -- The program behind `k` answers.
  record IsAt (k : ℕ) (s : Fetcher) : Type 0 where
    named : s.file_name ≡ file
    known : s.total_seg ≡ pos (total_of b)
    current : s.current_seg ≡ pos (8 + k)
    waits : s.pending ≡ window E file 8 k

  -- The program behind the next answer.
  abbrev behind : ℕ → Fetcher → Fetcher
  behind k s =
      received E D.conventions file (total_of b) k (wanted k)
        (record s { pending = window E file 7 (suc k) })
