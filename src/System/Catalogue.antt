-- ===== src/System/Catalogue.antt =====
-- What any interleaving of requests and interests does to the database.
use ndnfs_port.Prelude.{ap, ◌∙◌, ◌≡◌, refl, List, [], ◌∷◌}
use ndnfs_port.Exec.{run}
use ndnfs_port.External.{Env}
use ndnfs_port.External.Types.{Name}
use ndnfs_port.External.Documented.{Documented}
use ndnfs_port.World.{World}
use ndnfs_port.Fs.Requests.{handle}
use ndnfs_port.Fs.Requests.Rows.{IsListed}
use ndnfs_port.Fs.Requests.Listed.{handle-Good}
use ndnfs_port.Fs.Requests.Catalogue.{change_all}
use ndnfs_port.Fs.Requests.Refines.{catalogue_of, handle-Does, unchanged}
use ndnfs_port.Server.Interest.{on_interest}
use ndnfs_port.Server.Replies.{on_interest-IsReply}
use ndnfs_port.System.{Event, request, interest, requests, happen, happen_all, AreAdmitted}

module _ (E : Env) (D : Documented E) where
  -- An interest leaves the catalogue as it is.
  interest-catalogue :
      (name : Name) (w : World E) → catalogue_of E (on_interest E name w).1 ≡ catalogue_of E w
  interest-catalogue name w =
      let (f, v, _, _) = on_interest-IsReply E name w in
      unchanged E D w (on_interest E name w).1 f v

  -- Any interleaving of requests, failing or not, with interests, in which no rename has a target with
  -- rows, does to the files and the versions of the database what the requests alone, in their
  -- order, do to the catalogue: mknod adds a file that is not there, with its version; release gives
  -- a file that is there and was open for writing a new current version; unlink takes a file's row
  -- away and no version; rename moves a path's entries; no other request changes it.
  pub happen_all-change_all :
      (w : World E) (es : List Event)
      → AreAdmitted E D w es
      → catalogue_of E (happen_all E w es) ≡ change_all (requests es) (catalogue_of E w)
  unfolding happen
  happen_all-change_all w [] a = refl
  happen_all-change_all w (request r ∷ rest) (a, more) =
      happen_all-change_all (run (handle E r) w).1 rest more
      ∙ ap (change_all (requests rest)) (handle-Does E D r w a)
  happen_all-change_all w (interest name ∷ rest) more =
      happen_all-change_all (on_interest E name w).1 rest more
      ∙ ap (change_all (requests rest)) (interest-catalogue name w)

  -- From a database in which every file's current version is one of its versions, such a run leads to
  -- such a database.
  pub happen_all-IsListed :
      (w : World E) (es : List Event)
      → AreAdmitted E D w es
      → IsListed E w.files w.versions
      → IsListed E (happen_all E w es).files (happen_all E w es).versions
  unfolding happen
  happen_all-IsListed w [] a h = h
  happen_all-IsListed w (request r ∷ rest) (a, more) h =
      happen_all-IsListed (run (handle E r) w).1 rest more (handle-Good E D r w a h)
  happen_all-IsListed w (interest name ∷ rest) more h =
      let (f, v, _, _) = on_interest-IsReply E name w in
      happen_all-IsListed (on_interest E name w).1 rest more (rw (f, v) h)
