-- ===== src/Fs/Requests/Catalogue.antt =====
-- What the database promises, without tables, files and system calls: a catalogue of the files and of
-- their versions, and what the requests do to it.
use mathlib.Core.Option
use ndnfs_port.Prelude.{
  ℕ, ℤ, Bytes, ◌==◌, Option, none, some, List, [], ◌∷◌, eqb, to_int, if◌then◌else◌,
}
use ndnfs_port.External.Types.{FileRow, VersionRow}
use ndnfs_port.External.Table.{Key, VersionKey, path_key, version_key, keep_first}
use ndnfs_port.Fs.File.{access_mode, new_row}
use ndnfs_port.Fs.Requests.{Request, mknod, release, unlink, rename}

pub record Catalogue : Type 0 where
  pub file : Bytes → Option FileRow
  pub version : VersionKey → Option VersionRow

-- A map changed at one key.
abbrev pub set_at : {K V : Type 0} ⦃k : Key K⦄ → K → Option V → (K → Option V) → K → Option V
set_at ⦃k⦄ a v f b = if k.same a b then v else f b

-- The values at one path moved to another.
abbrev pub move_path : {K V : Type 0} ⦃k : Key K⦄ → Bytes → Bytes → (K → Option V) → K → Option V
move_path ⦃k⦄ to from f b =
    if eqb (k.path b) to then f (k.at_path b from) else if eqb (k.path b) from then none else f b

abbrev pub no_size : VersionRow
no_size = record { size = none }

abbrev pub add_version :
    Bytes → ℤ → (VersionKey → Option VersionRow) → VersionKey → Option VersionRow
add_version path ver f = set_at (path, ver) (keep_first (f (path, ver)) no_size) f

-- A new file, with its creation time as its first version.
abbrev pub created : Bytes → ℕ → ℕ → Catalogue → Catalogue
created path mode now c = record {
  file = set_at path (some (new_row path mode (to_int now))) c.file;
  version = add_version path (to_int now) c.version;
}

-- A new current version.
abbrev pub stamped : ℤ → FileRow → FileRow
stamped ver row = record row { current_version = ver }

abbrev pub published : Bytes → ℕ → Catalogue → Catalogue
published path now c = record {
  file = set_at path (Option.map (stamped (to_int now)) (c.file path)) c.file;
  version = add_version path (to_int now) c.version;
}

-- A file that is gone keeps its versions.
abbrev pub removed : Bytes → Catalogue → Catalogue
removed path c = record c { file = set_at path none c.file }

abbrev pub moved : Bytes → Bytes → Catalogue → Catalogue
moved from to c = record { file = move_path to from c.file; version = move_path to from c.version }

abbrev pub if_present : {A B : Type 0} → Option A → B → B → B
if_present none here absent = absent
if_present (some _) here absent = here

-- What a request does to the catalogue.
abbrev pub change : Request → Catalogue → Catalogue
change (mknod path mode dev now) c = if_present (c.file path) c (created path mode now c)
change (release path flags now) c =
    if_present (c.file path) (if access_mode flags == 0 then c else published path now c) c
change (unlink path) c = removed path c
change (rename from to) c = moved from to c
change _ c = c

-- One request after another.
abbrev pub change_all : List Request → Catalogue → Catalogue
change_all [] c = c
change_all (r ∷ rest) c = change_all rest (change r c)
