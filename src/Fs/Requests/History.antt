-- ===== src/Fs/Requests/History.antt =====
-- fs/ndnfs.cc: the versions of files over a run of requests, by way of the catalogue.
use ndnfs_port.Prelude.{
  ap, ◌∙◌, ◌≡◌, Bool, true, false, some, List, [], ◌∷◌, ◌&&◌, not, arith, to_int,
}
use ndnfs_port.Exec.{run}
use ndnfs_port.External.{Env}
use ndnfs_port.External.Types.{VersionRow}
use ndnfs_port.External.Table.{VersionKey, version_key}
use ndnfs_port.External.Documented.{Documented}
use ndnfs_port.World.{World}
use ndnfs_port.Fs.Requests.{Request, mknod, release, rename, handle, serve}
use ndnfs_port.Fs.Requests.Listed.{IsAdmitted, AreAdmitted}
use ndnfs_port.Fs.Requests.Catalogue.{Catalogue, change, change_all}
use ndnfs_port.Fs.Requests.Refines.{catalogue_of, serve-change_all}

abbrev pub is_rename : Request → Bool
is_rename (rename _ _) = true
is_rename _ = false

abbrev pub has_no_rename : List Request → Bool
has_no_rename [] = true
has_no_rename (r ∷ rest) = not (is_rename r) && has_no_rename rest

-- No request but a rename takes a version away or changes its row.
change-version :
    {v : VersionRow} (r : Request) (c : Catalogue) (k : VersionKey)
    → is_rename r ≡ false
    → c.version k ≡ some v
    → (change r c).version k ≡ some v
change-version (mknod path mode dev now) c k h e =
    ground (arith, version_key.same_iff (path, to_int now) k)
change-version (release path flags now) c k h e =
    ground (arith, version_key.same_iff (path, to_int now) k)
change-version (rename from to) c k h e = cc
change-version _ c k h e = e

change_all-version :
    {v : VersionRow} (rs : List Request) (c : Catalogue) (k : VersionKey)
    → has_no_rename rs ≡ true
    → c.version k ≡ some v
    → (change_all rs c).version k ≡ some v
change_all-version [] c k h e = e
change_all-version (r ∷ rest) c k h e =
    change_all-version rest (change r c) k (ground arith) (change-version r c k (ground arith) e)

module _ (E : Env) (D : Documented E) where
  not_rename-IsAdmitted : (w : World E) (r : Request) → is_rename r ≡ false → IsAdmitted E D w r
  not_rename-IsAdmitted w (rename from to) h = cc
  not_rename-IsAdmitted w _ h = tt

  no_rename-AreAdmitted :
      (w : World E) (rs : List Request) → has_no_rename rs ≡ true → AreAdmitted E D w rs
  no_rename-AreAdmitted w [] h = tt
  no_rename-AreAdmitted w (r ∷ rest) h = (
    not_rename-IsAdmitted w r (ground arith),
    no_rename-AreAdmitted (run (handle E r) w).1 rest (ground arith),
  )

  -- A version that file_versions has stays there, with its row, over any run of requests without a
  -- rename, whatever fails and whatever is unlinked in it.
  pub serve-version :
      {v : VersionRow} (w : World E) (rs : List Request) (k : VersionKey)
      → has_no_rename rs ≡ true
      → E.versions.select w.versions k ≡ some v
      → E.versions.select (serve E w rs).versions k ≡ some v
  unfolding catalogue_of
  serve-version w rs k h e =
      ap (λ c. c.version k) (serve-change_all E D w rs (no_rename-AreAdmitted w rs h))
      ∙ change_all-version rs (catalogue_of E w) k h e
