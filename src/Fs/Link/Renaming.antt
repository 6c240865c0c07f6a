-- ===== src/Fs/Link/Renaming.antt =====
-- fs/file.cc, ndnfs_rename: what becomes of the rows of both paths.
use ndnfs_port.Prelude.{
  ℤ, pos, neg, Bytes, ◌≡◌, ◌≢◌, refl, ◌∙◌, sym, false, none, eqb, eqb_iff, eqb_refl, arith, inl,
  inr, Bool-cases,
}
use ndnfs_port.Exec.{ok, err, returned, run}
use ndnfs_port.External.{Env}
use ndnfs_port.External.Table.{Key, Table, IsLawful, path_key, version_key, segment_key}
use ndnfs_port.External.Documented.{Documented}
use ndnfs_port.World.{World}
use ndnfs_port.Fs.Config.{abs_path}
use ndnfs_port.Fs.Link.{ndnfs_rename}

-- Different paths are told apart.
eqb_ne : (a b : Bytes) → a ≢ b → eqb a b ≡ false
eqb_ne a b h = elim (Bool-cases (eqb a b)) [ inl e ↦ absurd (h ((eqb_iff a b).0 e)) | inr e ↦ e ]

-- No row has the path.
abbrev pub IsFree : {K V : Type 0} ⦃k : Key K⦄ (t : Table K V) → t.Rows → Bytes → Type 0
IsFree {K} ⦃k⦄ t r p = (c : K) → k.path c ≡ p → t.select r c ≡ none

module _ {K V : Type 0} ⦃k : Key K⦄ (t : Table K V) (L : IsLawful t) where
  select-rename_to :
      (r : t.Rows) (to from : Bytes) (b : K)
      → IsFree t r to
      → k.path b ≡ to
      → t.select (t.rename r to from) b ≡ t.select r (k.at_path b from)
  select-rename_to r to from b free at =
      L.select-rename r to from b free ∙ rw (at, eqb_refl to) refl

  select-rename_from :
      (r : t.Rows) (to from : Bytes) (b : K)
      → IsFree t r to
      → to ≢ from
      → k.path b ≡ from
      → t.select (t.rename r to from) b ≡ none
  select-rename_from r to from b free ne at =
      L.select-rename r to from b free
      ∙ rw (at, eqb_ne from to (λ e. ne (sym e)), eqb_refl from) refl

module _ (E : Env) (D : Documented E) where
  abbrev pub HasMoved : Bytes → Bytes → World E → World E → Type 0
  HasMoved from to w w' =
      ((E.files.select w'.files to ≡ E.files.select w.files from)
        × (E.files.select w'.files from ≡ none))
      × ((v : ℤ)
          → (E.versions.select w'.versions (to, v) ≡ E.versions.select w.versions (from, v))
            × (E.versions.select w'.versions (from, v) ≡ none))
      × ((v i : ℤ)
          → (E.segments.select w'.segments (to, v, i) ≡ E.segments.select w.segments (from, v, i))
            × (E.segments.select w'.segments (from, v, i) ≡ none))

  rename_rows :
      (from to : Bytes) (w : World E)
      → ((run (ndnfs_rename E from to) w).1.files ≡ E.files.rename w.files to from)
        × ((run (ndnfs_rename E from to) w).1.versions ≡ E.versions.rename w.versions to from)
        × ((run (ndnfs_rename E from to) w).1.segments ≡ E.segments.rename w.segments to from)
  unfolding ndnfs_rename
  rename_rows from to w = (ground arith, ground arith, ground arith)

  -- A rename to another path of which no table has rows moves the rows of all three tables there, whether
  -- or not the system call succeeds; the result is that of the call.
  pub ndnfs_rename-HasMoved :
      (from to : Bytes) (w : World E)
      → to ≢ from
      → IsFree E.files w.files to
      → IsFree E.versions w.versions to
      → IsFree E.segments w.segments to
      → HasMoved from to w (run (ndnfs_rename E from to) w).1
        × ((run (ndnfs_rename E from to) w).0
            ≡ elim (E.posix.rename w.os (abs_path E from) (abs_path E to)).0 [
              | ok _ ↦ returned (pos 0)
              | err e ↦ returned (neg e)
            ])
  unfolding ndnfs_rename
  ndnfs_rename-HasMoved from to w ne f v s =
      let (ef, ev, es) = rename_rows from to w in
      (
        (
          rw (ef) (
            select-rename_to E.files D.files w.files to from to f refl,
            select-rename_from E.files D.files w.files to from from f ne refl,
          ),
          λ i. rw ev (
            select-rename_to E.versions D.versions w.versions to from (to, i) v refl,
            select-rename_from E.versions D.versions w.versions to from (from, i) v ne refl,
          ),
          λ i j. rw es (
            select-rename_to E.segments D.segments w.segments to from (to, i, j) s refl,
            select-rename_from E.segments D.segments w.segments to from (from, i, j) s ne refl,
          ),
        ),
        ground arith,
      )
