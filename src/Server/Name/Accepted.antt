-- ===== src/Server/Name/Accepted.antt =====
-- server/servermodule.cc, parseName: the names that are not refused.
use ndnfs_port.Prelude.{ℤ, Option, none, some, Bytes, ◌≡◌, [], ◌∷◌, ◌++◌, All}
use ndnfs_port.External.{Env}
use ndnfs_port.External.Types.{Name}
use ndnfs_port.Server.Name.{Scan, Scanned, refused, Parsed, result, crash, out_of_range}
use ndnfs_port.Server.Name.Components.{IsFront, IsVersion, IsSegment}

-- Nothing, a version, or a version and a segment.
abbrev pub IsTail : Name → Type 0
IsTail [] = Unit
IsTail (v ∷ []) = IsVersion v
IsTail (v ∷ s ∷ []) = IsVersion v × IsSegment s
IsTail _ = ⊥

abbrev pub IsForm : Name → Type 0
IsForm name = (front tail : Name) × (name ≡ front ++ tail) × All IsFront front × IsTail tail

abbrev pub IsStopped : Scanned → Type 0
IsStopped x = (t : Scan) × (x ≡ refused t)

-- The result code of parseName, where it returns.
abbrev pub code : Parsed → Option ℤ
code (result ret _ _ _) = some ret
code crash = none
code out_of_range = none

module _ (E : Env) where
  data Kind (c : Bytes) : Type 0 where
    front : IsFront c → Kind c
    version : IsVersion c → Kind c
    segment : IsSegment c → Kind c
