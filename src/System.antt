-- ===== src/System.antt =====
-- fs/ndnfs.cc and server/server.cc beside each other: two processes over one database and one directory.
pub mod Catalogue
pub mod Told
use ndnfs_port.Prelude.{Bool, List, [], ◌∷◌}
use ndnfs_port.Exec.{run}
use ndnfs_port.External.{Env}
use ndnfs_port.External.Types.{Name}
use ndnfs_port.External.Documented.{Documented}
use ndnfs_port.World.{World}
use ndnfs_port.Fs.Requests.{Request, handle}
use ndnfs_port.Fs.Requests.Listed.{IsAdmitted}
use ndnfs_port.Server.Interest.{on_interest}

-- FUSE makes a request of the file system, or an interest comes to the server.
pub data Event : Type 0 where
  request : Request → Event
  interest : Name → Event

-- The requests, in their order.
abbrev pub requests : List Event → List Request
requests [] = []
requests (request r ∷ rest) = r ∷ requests rest
requests (interest _ ∷ rest) = requests rest

module _ (E : Env) where
  unfoldable pub happen : Event → World E → World E
  happen (request r) w = (run (handle E r) w).1
  happen (interest name) w = (on_interest E name w).1

  -- One event after another, in whatever order the two processes come to them.
  abbrev pub happen_all : World E → List Event → World E
  happen_all w [] = w
  happen_all w (e ∷ rest) = happen_all (happen e w) rest

  -- No rename has a target with rows when it is made.
  abbrev pub AreAdmitted : Documented E → World E → List Event → Type 0
  AreAdmitted D w [] = Unit
  AreAdmitted D w (request r ∷ rest) =
      IsAdmitted E D w r × AreAdmitted D (happen (request r) w) rest
  AreAdmitted D w (interest name ∷ rest) = AreAdmitted D (happen (interest name) w) rest
