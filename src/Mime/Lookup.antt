-- ===== src/Mime/Lookup.antt =====
-- fs/mime-inference.cc: which of the inserted types is inferred, and how long it can be.
use mathlib.Core.List.{foldl}
use ndnfs_port.Prelude.{
  ℤ, ◌⊎◌, ◌++◌, ◌==◌, ==_iff, ◌≢◌, pos, All, suc, ◌≤◌, ◌<◌, Bytes, String, ◌≡◌, refl, sym, ap, ◌∙◌,
  Bool, true, ◌&&◌, Option, none, some, List, [], ◌∷◌, map, arith, length, drop, codes, eqb,
  eqb_iff, rfind, ltb, if◌then◌else◌, inl, inr, Bool-cases, Option-cases,
}
use ndnfs_port.Mime.{MimeMap, lookup, insert, insert_text, ext_mime_map, infer_in, mime_infer}
use ndnfs_port.Mime.Table.{inserted_pairs}

-- The pairs as they are written, one for each call of `insert`.
abbrev pub in_order : List (String × String) → MimeMap
in_order ps = map (λ (k, v). (codes k, codes v)) ps

abbrev or_else : Option Bytes → Option Bytes → Option Bytes
or_else none o = o
or_else (some v) o = some v

or_else-none : (o : Option Bytes) → or_else o none ≡ o
or_else-none none = refl
or_else-none (some v) = refl

or_else_assoc : (a b c : Option Bytes) → or_else (or_else a b) c ≡ or_else a (or_else b c)
or_else_assoc none b c = refl
or_else_assoc (some v) b c = refl

lookup_head :
    (k j v : Bytes) (m : MimeMap)
    → lookup k ((j, v) ∷ m) ≡ or_else (if eqb j k then some v else none) (lookup k m)
unfolding lookup
lookup_head k j v m = elim (Bool-cases (eqb j k)) [ inl e ↦ rw e refl | inr e ↦ rw e refl ]

-- Only an entry that is not there yet is added.
lookup-insert :
    (k : Bytes) (m : MimeMap) (j v : Bytes)
    → lookup k (insert m (j, v)) ≡ or_else (lookup k m) (if eqb j k then some v else none)
unfolding insert
lookup-insert k m j v = elim (Option-cases (lookup j m)) [
  | inl free ↦ elim (Bool-cases (eqb j k)) [
    | inl e ↦
        let at : lookup k m ≡ none = rw (sym ((eqb_iff j k).0 e)) free in
        rw (free, insert, lookup_head k j v m, e, at) refl
    | inr e ↦ rw (free, insert, lookup_head k j v m, e) (sym (or_else-none (lookup k m)))
  ]
  | inr (u, taken) ↦ elim (Bool-cases (eqb j k)) [
    | inl e ↦
        let at : lookup k m ≡ some u = rw (sym ((eqb_iff j k).0 e)) taken in
        rw (taken, insert, e, at) refl
    | inr e ↦ rw (taken, insert, e) (sym (or_else-none (lookup k m)))
  ]
]

lookup-inserts :
    (k : Bytes) (ps : List (String × String)) (m : MimeMap)
    → lookup k (foldl insert_text m ps) ≡ or_else (lookup k m) (lookup k (in_order ps))
unfolding lookup
lookup-inserts k [] m = sym (or_else-none (lookup k m))
lookup-inserts k ((j, v) ∷ ps) m =
    lookup-inserts k ps (insert_text m (j, v))
    ∙ ap (λ o. or_else o (lookup k (in_order ps))) (lookup-insert k m (codes j) (codes v))
    ∙ or_else_assoc (lookup k m) _ _
    ∙ ap (or_else (lookup k m)) (sym (lookup_head k (codes j) (codes v) (in_order ps)))

infer_in-cong :
    (m n : MimeMap) (path : Bytes)
    → ((k : Bytes) → lookup k m ≡ lookup k n)
    → infer_in m path ≡ infer_in n path
unfolding infer_in
infer_in-cong m n path h = elim (Option-cases (rfind b'.' path)) [
  | inl e ↦ rw (e, infer_in) refl
  | inr (i, e) ↦ rw (e, infer_in, h (drop i path)) refl
]

-- Later calls of `insert` with the same extension have no effect.
mime_infer-in_order : (path : Bytes) → mime_infer path ≡ infer_in (in_order inserted_pairs) path
unfolding mime_infer ext_mime_map
mime_infer-in_order path =
    infer_in-cong ext_mime_map (in_order inserted_pairs) path
      (λ k. lookup-inserts k inserted_pairs [])

-- No '.' in a text.
abbrev pub IsDotless : Bytes → Type 0
IsDotless s = All (λ c. c ≢ b'.') s

-- Either no '.', or the text from the last one on.
last_dot :
    (path : Bytes)
    → (IsDotless path × (rfind b'.' path ≡ none))
      ⊎ ((front ext : Bytes) × (path ≡ front ++ (b'.' ∷ ext))
          × IsDotless ext
          × (rfind b'.' path ≡ some (length front)))
unfolding rfind
last_dot [] = inl (tt, refl)
last_dot (c ∷ path) = elim (last_dot path) [
  | inr (front, ext, e, free, found) ↦ inr (c ∷ front, ext, ap (λ s. c ∷ s) e, free, rw found refl)
  | inl (free, missed) ↦ elim (Bool-cases (c == b'.')) [
    | inl dot ↦
        let same : c ≡ b'.' = (==_iff c b'.').0 dot in
        inr ([], path, ap (λ d. d ∷ path) same, free, rw (missed, dot) refl)
    | inr other ↦ inl (
      (λ e. let dot : (c == b'.') ≡ true = (==_iff c b'.').1 e in cc, free),
      rw (missed, other) refl,
    )
  ]
]

-- None of the calls of `insert` is for the extension.
abbrev pub AreOther : Bytes → List (String × String) → Type 0
AreOther ext ps = All (λ (k, v). codes k ≢ ext) ps

first_call :
    (ext : Bytes) (ps : List (String × String))
    → (AreOther ext ps × (lookup ext (in_order ps) ≡ none))
      ⊎ ((before after : List (String × String)) × (k v : String) × (ps
            ≡ before ++ ((k, v) ∷ after))
          × AreOther ext before
          × (codes k ≡ ext)
          × (lookup ext (in_order ps) ≡ some (codes v)))
unfolding lookup
first_call ext [] = inl (tt, refl)
first_call ext ((k, v) ∷ ps) = elim (Bool-cases (eqb (codes k) ext)) [
  | inl here ↦ inr ([], ps, k, v, refl, tt, (eqb_iff (codes k) ext).0 here, rw (lookup, here) refl)
  | inr other ↦
      let ne : codes k ≢ ext =
        λ e. let here : eqb (codes k) ext ≡ true = (eqb_iff (codes k) ext).1 e in cc in
      elim (first_call ext ps) [
        | inl (rest, missed) ↦ inl ((ne, rest), rw (lookup, other) missed)
        | inr (before, after, j, u, e, rest, same, found) ↦ inr (
          (k, v) ∷ before,
          after,
          j,
          u,
          ap (λ l. (k, v) ∷ l) e,
          (ne, rest),
          same,
          rw (lookup, other) found,
        )
      ]
]

drop-append : (x y : Bytes) → drop (length x) (x ++ y) ≡ y
drop-append [] y = refl
drop-append (c ∷ x) y = drop-append x y

abbrev inferred_of : Option Bytes → ℤ × Bytes
inferred_of (some v) = (pos 1, v)
inferred_of none = (pos 0, [])

infer_in-dotless :
    (m : MimeMap) (path : Bytes) → rfind b'.' path ≡ none → infer_in m path ≡ (pos 0, [])
unfolding infer_in
infer_in-dotless m path e = rw (e, infer_in) refl

infer_in-extension :
    (m : MimeMap) (front ext : Bytes)
    → rfind b'.' (front ++ ext) ≡ some (length front)
    → infer_in m (front ++ ext) ≡ inferred_of (lookup ext m)
unfolding infer_in
infer_in-extension m front ext e = elim (Option-cases (lookup ext m)) [
  | inl missed ↦ rw (e, infer_in, at_ext missed, missed) refl
  | inr (v, found) ↦ rw (e, infer_in, at_ext found, found) refl
]
  where
    at_ext :
        {r : Option Bytes} → lookup ext m ≡ r → lookup (drop (length front) (front ++ ext)) m ≡ r
    at_ext h = ap (λ k. lookup k m) (drop-append front ext) ∙ h

-- Every path either has no '.', and no type is inferred; or its extension goes from its last '.' to its end.
-- If no call of `insert` is for that extension, no type is inferred; otherwise the type is that of
-- the first call for it, in the order of the source.
pub mime_infer-first :
    (path : Bytes)
    → (IsDotless path × (mime_infer path ≡ (pos 0, [])))
      ⊎ ((front ext : Bytes) × (path ≡ front ++ (b'.' ∷ ext))
          × IsDotless ext
          × ((AreOther (b'.' ∷ ext) inserted_pairs × (mime_infer path ≡ (pos 0, [])))
              ⊎ ((before after : List (String × String)) × (k v : String) × (inserted_pairs
                    ≡ before ++ ((k, v) ∷ after))
                  × AreOther (b'.' ∷ ext) before
                  × (codes k ≡ b'.' ∷ ext)
                  × (mime_infer path ≡ (pos 1, codes v)))))
mime_infer-first path = elim (last_dot path) [
  | inl (free, missed) ↦
      inl (free, mime_infer-in_order path ∙ infer_in-dotless (in_order inserted_pairs) path missed)
  | inr (front, ext, e, free, found) ↦
      let dotted = b'.' ∷ ext in
      let inferred : mime_infer path ≡ inferred_of (lookup dotted (in_order inserted_pairs)) =
        mime_infer-in_order path
        ∙ ap (infer_in (in_order inserted_pairs)) e
        ∙ infer_in-extension (in_order inserted_pairs) front dotted (rw (← e) found) in
      inr (
        front,
        ext,
        e,
        free,
        elim (first_call dotted inserted_pairs) [
          | inl (others, none_found) ↦ inl (others, rw none_found at inferred)
          | inr (before, after, k, v, parts, others, same, is_v) ↦
              inr (before, after, k, v, parts, others, same, rw is_v at inferred)
        ],
      )
]

-- With the closing NUL each text fits a buffer of 100 bytes.
abbrev all_short : List (String × String) → Bool
all_short [] = true
all_short ((k, v) ∷ ps) = ltb (length (codes v)) 100 && all_short ps

inserted-short : all_short inserted_pairs ≡ true
unfolding inserted_pairs codes
inserted-short = refl

lookup-short :
    (k : Bytes) (ps : List (String × String)) {v : Bytes}
    → all_short ps ≡ true
    → lookup k (in_order ps) ≡ some v
    → length v < 100
unfolding lookup
lookup-short k [] h e = cc
lookup-short k ((j, u) ∷ ps) {v} h e = elim (Bool-cases (eqb (codes j) k)) [
  | inl here ↦ ground (arith, e, lookup_head k (codes j) (codes u) (in_order ps))
  | inr other ↦
      lookup-short k ps (ground arith)
        (ground (arith, e, lookup_head k (codes j) (codes u) (in_order ps)))
]

infer_in-short :
    (ps : List (String × String)) (path : Bytes)
    → all_short ps ≡ true
    → length (infer_in (in_order ps) path).1 < 100
unfolding infer_in
infer_in-short ps path h = elim (Option-cases (rfind b'.' path)) [
  | inl e ↦ rw (e, infer_in) (omega arith)
  | inr (i, e) ↦ elim (Option-cases (lookup (drop i path) (in_order ps))) [
    | inl g ↦ rw (e, infer_in, g) (omega arith)
    | inr (v, g) ↦ rw (e, infer_in, g) (lookup-short (drop i path) ps h g)
  ]
]

-- For every path the text that is copied to `mime_type`, with its closing NUL, fits the 100 bytes there.
pub mime_infer_bound : (path : Bytes) → suc (length (mime_infer path).1) ≤ 100
mime_infer_bound path =
    rw (mime_infer-in_order path) (omega (arith, infer_in-short inserted_pairs path inserted-short))
