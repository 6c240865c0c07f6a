-- ===== src/External/Table/Rows.antt =====
-- The table laws at one key and at two different keys.
use mathlib.Core.Option
use ndnfs_port.Prelude.{◌≡◌, ◌≢◌, refl, ◌∙◌, true, false, none, some, inl, inr, Bool-cases}
use ndnfs_port.External.Table.{Key, Table, IsLawful, keep_first}

module _ {K V : Type 0} ⦃k : Key K⦄ (t : Table K V) (L : IsLawful t) where
  same_self : (a : K) → k.same a a ≡ true
  same_self a = (k.same_iff a a).1 refl

  same_ne : (a b : K) → a ≢ b → k.same a b ≡ false
  same_ne a b h = elim (Bool-cases (k.same a b)) [
    | inl e ↦ absurd (h ((k.same_iff a b).0 e))
    | inr e ↦ e
  ]

  pub select-insert_self :
      (r : t.Rows) (a : K) (v : V) → t.select (t.insert r a v) a ≡ keep_first (t.select r a) v
  select-insert_self r a v = L.select-insert r a a v ∙ rw (same_self a)

  pub select-insert_ne :
      (r : t.Rows) (a b : K) (v : V) → a ≢ b → t.select (t.insert r a v) b ≡ t.select r b
  select-insert_ne r a b v h = L.select-insert r a b v ∙ rw (same_ne a b h)

  pub select-replace_self : (r : t.Rows) (a : K) (v : V) → t.select (t.replace r a v) a ≡ some v
  select-replace_self r a v = L.select-replace r a a v ∙ rw (same_self a)

  pub select-replace_ne :
      (r : t.Rows) (a b : K) (v : V) → a ≢ b → t.select (t.replace r a v) b ≡ t.select r b
  select-replace_ne r a b v h = L.select-replace r a b v ∙ rw (same_ne a b h)

  pub select-update_self :
      (r : t.Rows) (a : K) (f : V → V) → t.select (t.update r a f).1 a ≡ Option.map f (t.select r a)
  select-update_self r a f = L.select-update r a a f ∙ rw (same_self a)

  pub select-update_ne :
      (r : t.Rows) (a b : K) (f : V → V) → a ≢ b → t.select (t.update r a f).1 b ≡ t.select r b
  select-update_ne r a b f h = L.select-update r a b f ∙ rw (same_ne a b h)

  pub select-delete_self : (r : t.Rows) (a : K) → t.select (t.delete r a) a ≡ none
  select-delete_self r a = L.select-delete r a a ∙ rw (same_self a)

  pub select-delete_ne : (r : t.Rows) (a b : K) → a ≢ b → t.select (t.delete r a) b ≡ t.select r b
  select-delete_ne r a b h = L.select-delete r a b ∙ rw (same_ne a b h)
