-- ===== src/System/Told.antt =====
-- server/servermodule.cc: the information that the server gives is that of the catalogue.
use ndnfs_port.Prelude.{ap, ◌∙◌, ◌<◌, pos, Bytes, ◌≡◌, ◌≢◌, some, List, [], ◌∷◌, ◌++◌, length}
use ndnfs_port.External.{Env}
use ndnfs_port.External.Types.{Name, FileRow}
use ndnfs_port.External.Documented.{Documented}
use ndnfs_port.World.{World}
use ndnfs_port.Fs.Requests.Rows.{IsListed}
use ndnfs_port.Fs.Requests.Catalogue.{change_all}
use ndnfs_port.Fs.Requests.Refines.{catalogue_of}
use ndnfs_port.Server.Config.{server_path}
use ndnfs_port.Server.Name.Forms.{ArePlain, joined}
use ndnfs_port.Server.Interest.{on_interest}
use ndnfs_port.Server.Interest.Information.{info_packet, on_interest-info}
use ndnfs_port.System.{Event, requests, happen_all, AreAdmitted}
use ndnfs_port.System.Catalogue.{happen_all-change_all, happen_all-IsListed}

module _ (E : Env) (D : Documented E) where
  -- Requests, failing or not, and interests come in any order to a database in which every file's
  -- current version is one of its versions; no rename has a target with rows. The path has then the
  -- row that the requests alone give it in the catalogue, it is of type 7, a regular file, and the
  -- server reads less than 2 GiB from it. An interest whose name, of components without markers,
  -- spells the server's prefix and the path, which is not empty, then sends one packet: the
  -- information about that content, with the current version of that row.
  pub happen_all-told :
      (w : World E) (es : List Event) (cs : Name) (path : Bytes) {row : FileRow} {b : Bytes}
      → AreAdmitted E D w es
      → IsListed E w.files w.versions
      → (change_all (requests es) (catalogue_of E w)).file path ≡ some row
      → row.file_type ≡ pos 7
      → D.view.content (happen_all E w es).os (server_path E path) ≡ some b
      → length b < 2147483648
      → ArePlain cs
      → joined E cs ≡ E.fs_prefix ++ path
      → path ≢ []
      → let packet = info_packet E path row b in
        (on_interest E cs (happen_all E w es)).1.sent
        ≡ (happen_all E w es).sent
          ++ (record { packet = packet; signature = E.ndn.sign packet } ∷ [])
  unfolding catalogue_of IsListed
  happen_all-told w es cs path {row} admitted listed current file there small plain spelled
        some_path =
      let w' : World E = happen_all E w es in
      let found : E.files.select w'.files path ≡ some row =
        ap (λ c. c.file path) (happen_all-change_all E D w es admitted) ∙ current in
      let version = happen_all-IsListed E D w es admitted listed path row found in
      ap (λ r. r.1.sent)
        (on_interest-info E D cs path row w' plain spelled some_path found file version there small)
