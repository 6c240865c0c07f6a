-- ===== src/External/Table.antt =====
-- An SQLite table with a primary key, by the statements that the program runs on it, and what
-- SQLite documents of them. The keys are (path), (path, version) and (path, version, segment).
pub mod Rows
use mathlib.Core.Option
use ndnfs_port.Prelude.{
  ℤ, pos, Bytes, ◌≡◌, ◌↔◌, Bool, true, ◌&&◌, Option, none, some, arith, eqb, eqb_iff, eqb_ℤ,
  eqb_ℤ_iff, if◌then◌else◌,
}

pub record Key (K : Type 0) : Type 0 where
  pub same : K → K → Bool
  pub same_iff : (a b : K) → (same a b ≡ true) ↔ (a ≡ b)
  pub path : K → Bytes
  -- The key with another path.
  pub at_path : K → Bytes → K

pub record Table (K V : Type 0) : Type 1 where
  pub Rows : Type 0
  -- SELECT … WHERE key = ?
  pub select : Rows → K → Option V
  -- INSERT INTO …
  pub insert : Rows → K → V → Rows
  -- INSERT OR REPLACE INTO …
  pub replace : Rows → K → V → Rows
  -- UPDATE … SET … WHERE key = ?, with the result code of sqlite3_step
  pub update : Rows → K → (V → V) → ℤ × Rows
  -- DELETE … WHERE key = ?
  pub delete : Rows → K → Rows
  -- UPDATE … SET path = to WHERE path = from
  pub rename : Rows → Bytes → Bytes → Rows

abbrev pub keep_first : {V : Type 0} → Option V → V → Option V
keep_first none v = some v
keep_first (some w) v = some w

module _ {K V : Type 0} ⦃k : Key K⦄ where
  pub record IsLawful (t : Table K V) : Type 0 where
    -- An INSERT whose key is taken fails and changes nothing.
    pub select-insert :
        (r : t.Rows) (a b : K) (v : V)
        → t.select (t.insert r a v) b
          ≡ (if k.same a b then keep_first (t.select r a) v else t.select r b)
    pub select-replace :
        (r : t.Rows) (a b : K) (v : V)
        → t.select (t.replace r a v) b ≡ (if k.same a b then some v else t.select r b)
    -- An UPDATE ends with SQLITE_DONE, also where no row matches.
    pub update_done : (r : t.Rows) (a : K) (f : V → V) → (t.update r a f).0 ≡ pos 101
    pub select-update :
        (r : t.Rows) (a b : K) (f : V → V)
        → t.select (t.update r a f).1 b
          ≡ (if k.same a b then Option.map f (t.select r a) else t.select r b)
    pub select-delete :
        (r : t.Rows) (a b : K)
        → t.select (t.delete r a) b ≡ (if k.same a b then none else t.select r b)
    -- An UPDATE moves the rows if no row stands at the new path.
    pub select-rename :
        (r : t.Rows) (to from : Bytes) (b : K)
        → ((c : K) → k.path c ≡ to → t.select r c ≡ none)
        → t.select (t.rename r to from) b ≡ (
            if eqb (k.path b) to
            then t.select r (k.at_path b from)
            else if eqb (k.path b) from
            then none
            else t.select r b)

instance abbrev pub path_key : Key Bytes
path_key = record { same = eqb; same_iff = eqb_iff; path = λ p. p; at_path = λ _ p. p }

abbrev pub VersionKey : Type 0
VersionKey = Bytes × ℤ

abbrev pub SegmentKey : Type 0
SegmentKey = Bytes × ℤ × ℤ

abbrev same_version : VersionKey → VersionKey → Bool
same_version (p, v) (q, w) = eqb p q && eqb_ℤ v w

pub same_version_iff : (a b : VersionKey) → (same_version a b ≡ true) ↔ (a ≡ b)
same_version_iff (p, v) (q, w) = ground (arith, eqb_iff p q, eqb_ℤ_iff v w)

abbrev same_segment : SegmentKey → SegmentKey → Bool
same_segment (p, v, i) (q, w, j) = eqb p q && (eqb_ℤ v w && eqb_ℤ i j)

pub same_segment_iff : (a b : SegmentKey) → (same_segment a b ≡ true) ↔ (a ≡ b)
same_segment_iff (p, v, i) (q, w, j) = ground (arith, eqb_iff p q, eqb_ℤ_iff v w, eqb_ℤ_iff i j)

instance abbrev pub version_key : Key VersionKey
version_key = record {
  same = same_version;
  same_iff = same_version_iff;
  path = λ (p, _). p;
  at_path = λ (_, v) p. (p, v);
}

instance abbrev pub segment_key : Key SegmentKey
segment_key = record {
  same = same_segment;
  same_iff = same_segment_iff;
  path = λ (p, _, _). p;
  at_path = λ (_, v, i) p. (p, v, i);
}
