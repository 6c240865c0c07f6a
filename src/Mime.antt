-- ===== src/Mime.antt =====
-- fs/mime-inference.cc: the map from extensions to MIME types, and the inference from a path.
pub mod Table
pub mod Lookup
use mathlib.Core.List.{foldl}
use ndnfs_port.Prelude.{
  ℤ, pos, Bytes, String, Option, none, some, List, [], ◌∷◌, drop, codes, eqb, rfind, if◌then◌else◌,
}
use Table.{inserted_pairs}

-- `std::map<const char *, const char *, str_cmp>`, by its entries.
abbrev pub MimeMap : Type 0
MimeMap = List (Bytes × Bytes)

-- `find`
unfoldable pub lookup : Bytes → MimeMap → Option Bytes
unfolding eqb
lookup k [] = none
lookup k ((j, v) ∷ m) = if eqb j k then some v else lookup k m

-- `insert` leaves an entry that is there alone.
pub insert : MimeMap → Bytes × Bytes → MimeMap
unfolding lookup
insert m (k, v) = elim (lookup k m) [ some _ ↦ m | none ↦ (k, v) ∷ m ]

abbrev insert_text : MimeMap → String × String → MimeMap
insert_text m (k, v) = insert m (codes k, codes v)

-- ext_mime_map after initialize_ext_mime_map()
pub ext_mime_map : MimeMap
unfolding insert inserted_pairs codes
ext_mime_map = foldl insert_text [] inserted_pairs

-- The result code, and the text that is copied to `mime_type`.
pub infer_in : MimeMap → Bytes → ℤ × Bytes
unfolding rfind lookup
infer_in m path = elim (rfind b'.' path) [
  | none ↦ (pos 0, [])
  | some i ↦ elim (lookup (drop i path) m) [ some v ↦ (pos 1, v) | none ↦ (pos 0, []) ]
]

pub mime_infer : Bytes → ℤ × Bytes
unfolding infer_in
mime_infer path = infer_in ext_mime_map path
