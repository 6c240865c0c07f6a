-- ===== src/Fs/Requests/Rows.antt =====
-- The three tables under the statements of the handlers: whether each current version is a row of
-- `file_versions`.
use ndnfs_port.Prelude.{
  ℤ, Bytes, ◌≡◌, ◌≢◌, Option, none, some, arith, inl, inr, Bool-cases, eqb, eqb_iff, true,
}
use ndnfs_port.External.{Env}
use ndnfs_port.External.Types.{FileRow, VersionRow}
use ndnfs_port.External.Table.{path_key, version_key, VersionKey, keep_first}
use ndnfs_port.External.Documented.{Documented}

module _ (E : Env) where
  unfoldable pub IsListed : E.files.Rows → E.versions.Rows → Type 0
  IsListed files versions =
      (p : Bytes) (row : FileRow)
      → E.files.select files p ≡ some row
      → E.versions.select versions (p, row.current_version) ≢ none

module _ (E : Env) (D : Documented E) where
  keep_first-ne-none : {V : Type 0} (o : Option V) (v : V) → keep_first o v ≢ none
  keep_first-ne-none none v e = cc
  keep_first-ne-none (some u) v e = cc

  -- Another listed version takes none away.
  insert_keeps :
      (versions : E.versions.Rows) (a b : VersionKey) (v : VersionRow)
      → E.versions.select versions b ≢ none
      → E.versions.select (E.versions.insert versions a v) b ≢ none
  insert_keeps versions a b v h e = ground (
    arith,
    D.versions.select-insert versions a b v,
    keep_first-ne-none (E.versions.select versions a) v,
    version_key.same_iff a b,
  )

  insert_lists :
      (versions : E.versions.Rows) (a : VersionKey) (v : VersionRow)
      → E.versions.select (E.versions.insert versions a v) a ≢ none
  insert_lists versions a v e = ground (
    arith,
    D.versions.select-insert versions a a v,
    keep_first-ne-none (E.versions.select versions a) v,
    version_key.same_iff a a,
  )

  -- A new current version that is listed too.
  pub update-IsListed :
      (files : E.files.Rows) (versions : E.versions.Rows) (path : Bytes) (ver : ℤ) (v : VersionRow)
      → IsListed E files versions
      → IsListed E
          (E.files.update files path (λ row. record row { current_version = ver })).1
          (E.versions.insert versions (path, ver) v)
  unfolding IsListed
  update-IsListed files versions path ver v h p row found = elim (Bool-cases (eqb path p)) [
    | inl e ↦ same_path e
    | inr e ↦ insert_keeps versions _ _ v (
        h p row (
          ground (
            arith,
            D.files.select-update files path p (λ row. record row { current_version = ver }),
          )))
  ]
    where
      same_path :
          eqb path p ≡ true
          → E.versions.select (E.versions.insert versions (path, ver) v) (p, row.current_version)
            ≢ none
      same_path e =
          let at : path ≡ p = (eqb_iff path p).0 e in
          let new : row.current_version ≡ ver = ground (
            arith,
            D.files.select-update files path p (λ row. record row { current_version = ver }),
          ) in
          rw (← at, new) (insert_lists versions (path, ver) v)

  pub insert-IsListed :
      (files : E.files.Rows) (versions : E.versions.Rows) (path : Bytes) (new : FileRow)
      (v : VersionRow)
      → IsListed E files versions
      → E.files.select files path ≡ none
      → IsListed E
          (E.files.insert files path new)
          (E.versions.insert versions (path, new.current_version) v)
  unfolding IsListed
  insert-IsListed files versions path new v h absent p row found = elim (Bool-cases (eqb path p)) [
    | inl e ↦ same_path e
    | inr e ↦
        insert_keeps versions _ _ v
          (h p row (ground (arith, D.files.select-insert files path p new)))
  ]
    where
      same_path :
          eqb path p ≡ true
          → E.versions.select
              (E.versions.insert versions (path, new.current_version) v)
              (p, row.current_version)
            ≢ none
      same_path e =
          let at : path ≡ p = (eqb_iff path p).0 e in
          let is_new : row ≡ new = ground (arith, D.files.select-insert files path p new) in
          rw (← at, is_new) (insert_lists versions (path, new.current_version) v)

  pub delete-IsListed :
      (files : E.files.Rows) (versions : E.versions.Rows) (path : Bytes)
      → IsListed E files versions
      → IsListed E (E.files.delete files path) versions
  unfolding IsListed
  delete-IsListed files versions path h p row found =
      h p row (ground (arith, D.files.select-delete files path p))

  -- The rows of a file move together if none stands at the new path.
  pub rename-IsListed :
      (files : E.files.Rows) (versions : E.versions.Rows) (from to : Bytes)
      → IsListed E files versions
      → E.files.select files to ≡ none
      → ((v : ℤ) → E.versions.select versions (to, v) ≡ none)
      → IsListed E (E.files.rename files to from) (E.versions.rename versions to from)
  unfolding IsListed
  rename-IsListed files versions from to h free free_versions p row found gone = ground (
    arith,
    D.files.select-rename files to from p (λ c e. rw e free),
    D.versions.select-rename versions to from (p, row.current_version) taken,
    h p row,
    h from row,
  )
    where
      taken : (c : VersionKey) → version_key.path c ≡ to → E.versions.select versions c ≡ none
      taken (q, v) e = rw e (free_versions v)
