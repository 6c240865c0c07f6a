-- ===== src/Server/Name/Components.antt =====
-- server/servermodule.cc, parseName: what a component does in front of a version, behind it, and behind a
-- segment.
use native.Mathlib.Decide.{ℕ_discrete}
use ndnfs_port.Prelude.{
  ℕ, ◌<◌, pos, negsuc, Bytes, true, ◌≡◌, ◌≢◌, refl, [], ◌∷◌, ◌++◌, arith, to_int, to_int-of_lt,
}
use ndnfs_port.External.{Env}
use ndnfs_port.Server.Name.{Scan, scanned, refused, scan_component}

-- A component in front of the version: of the path, or a meta marker.
abbrev pub IsFront : Bytes → Type 0
IsFront [] = ⊥
IsFront (m ∷ body) = (m ≢ 0xFD) × (m ≢ 0x00)

abbrev pub IsVersion : Bytes → Type 0
IsVersion c = (body : Bytes) × (c ≡ 0xFD ∷ body)

abbrev pub IsSegment : Bytes → Type 0
IsSegment c = (body : Bytes) × (c ≡ 0x00 ∷ body)

module _ (E : Env) where
  -- Not empty, and with a number below 2 ^ 31 where it has one.
  abbrev pub IsReadable : Bytes → Type 0
  IsReadable [] = ⊥
  IsReadable (m ∷ body) =
      (m ≡ 0xFD → E.ndn.to_version (m ∷ body) < 2147483648)
      × (m ≡ 0x00 → E.ndn.to_segment (m ∷ body) < 2147483648)

  -- The scan in front of a version, behind it, and behind a segment.
  abbrev pub AtFront : Scan → Type 0
  AtFront s = (s.version ≡ negsuc 0) × (s.seg ≡ negsuc 0)

  abbrev pub AtVersion : Scan → Type 0
  AtVersion s = ((v : ℕ) × (s.version ≡ pos v)) × (s.seg ≡ negsuc 0)

  abbrev pub AtSegment : Scan → Type 0
  AtSegment s = ((v : ℕ) × (s.version ≡ pos v)) × ((k : ℕ) × (s.seg ≡ pos k))

  -- What each kind of component does there.
  pub front_scanned :
      (s : Scan) (c : Bytes)
      → AtFront s
      → IsFront c
      → (s' : Scan) × (scan_component E s c ≡ scanned s') × AtFront s'
  unfolding scan_component
  front_scanned s [] at c = absurd c
  front_scanned s (m ∷ body) (v, g) (nv, ns) = elim (ℕ_discrete m 0xC1) [
    | yes meta ↦ (record s { has_meta = true }, ground arith, (v, g))
    | no path ↦ (
      record s { oss = s.oss ++ (b'/' ∷ E.ndn.to_escaped_string (m ∷ body)) },
      ground arith,
      (v, g),
    )
  ]

  pub version_scanned :
      (s : Scan) (c : Bytes)
      → AtFront s
      → IsVersion c
      → IsReadable c
      → (s' : Scan) × (scan_component E s c ≡ scanned s') × AtVersion s'
  unfolding scan_component
  version_scanned s [] at (_, e) r = absurd r
  version_scanned s (m ∷ body) (v, g) (b, e) (rv, rs) =
      let m_is : m ≡ 0xFD = cc in
      let n : to_int (E.ndn.to_version (m ∷ body)) ≡ pos (E.ndn.to_version (m ∷ body)) =
        to_int-of_lt _ (rv m_is) in
      (record s { version = pos (E.ndn.to_version (m ∷ body)) }, ground arith, ((_, refl), g))

  pub segment_scanned :
      (s : Scan) (c : Bytes)
      → AtVersion s
      → IsSegment c
      → IsReadable c
      → (s' : Scan) × (scan_component E s c ≡ scanned s') × AtSegment s'
  unfolding scan_component
  segment_scanned s [] at (_, e) r = absurd r
  segment_scanned s (m ∷ body) ((v, ev), g) (b, e) (rv, rs) =
      let m_is : m ≡ 0x00 = cc in
      let n : to_int (E.ndn.to_segment (m ∷ body)) ≡ pos (E.ndn.to_segment (m ∷ body)) =
        to_int-of_lt _ (rs m_is) in
      (record s { seg = pos (E.ndn.to_segment (m ∷ body)) }, ground arith, ((v, ev), (_, refl)))

  pub segment_refused_front :
      (s : Scan) (c : Bytes) → AtFront s → IsSegment c → scan_component E s c ≡ refused s
  unfolding scan_component
  segment_refused_front s [] at (_, e) = cc
  segment_refused_front s (m ∷ body) (v, g) (b, e) = let m_is : m ≡ 0x00 = cc in ground arith

  pub other_refused :
      (s : Scan) (c : Bytes)
      → AtVersion s
      → IsReadable c
      → (IsSegment c → ⊥)
      → scan_component E s c ≡ refused s
  unfolding scan_component
  other_refused s [] at r ns = absurd r
  other_refused s (m ∷ body) ((v, ev), g) r ns =
      let m_is : m ≢ 0x00 = λ e. ns (body, rw e refl) in ground arith

  pub all_refused :
      (s : Scan) (c : Bytes) → AtSegment s → IsReadable c → scan_component E s c ≡ refused s
  unfolding scan_component
  all_refused s [] at r = absurd r
  all_refused s (m ∷ body) ((v, ev), (k, ek)) r = ground arith
