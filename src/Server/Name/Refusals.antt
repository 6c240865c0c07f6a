-- ===== src/Server/Name/Refusals.antt =====
-- server/servermodule.cc, parseName: the names that it refuses.
use ndnfs_port.Prelude.{ℕ, ◌<◌, pos, negsuc, Bytes, ◌≡◌, ◌≢◌, refl, ◌∙◌, [], ◌∷◌, ℤ, ◌++◌, arith}
use ndnfs_port.External.{Env}
use ndnfs_port.External.Types.{Name}
use ndnfs_port.External.Ndn.{Conventions}
use ndnfs_port.Server.Name.{
  Scan, scanned, refused, start, scan_component, scan_name, Parsed, result, parse_name,
}
use ndnfs_port.Server.Name.Forms.{
  ArePlain, joined, version_scanned, segment_scanned, scan_start, at_end,
}

-- What parseName gives with the code -1: the version and the segment met before, and no path.
abbrev pub refusal : ℤ → ℤ → Parsed
refusal version seg = result (negsuc 0) version seg []

-- A component of a path, or a marker of meta information.
abbrev pub IsPathOrMeta : Bytes → Type 0
IsPathOrMeta [] = ⊥
IsPathOrMeta (m ∷ body) = (m ≢ 0xFD) × (m ≢ 0x00)

module _ (E : Env) where
  scan_next :
      (s s' : Scan) (c : Bytes) (rest : Name)
      → scan_component E s c ≡ scanned s'
      → scan_name E s (c ∷ rest) ≡ scan_name E s' rest
  unfolding scan_name
  scan_next s s' c rest e = rw (e, scan_name) refl

  scan_refused :
      (s : Scan) (c : Bytes) (rest : Name)
      → scan_component E s c ≡ refused s
      → scan_name E s (c ∷ rest) ≡ refused s
  unfolding scan_name
  scan_refused s c rest e = rw (e, scan_name) refl

  parse_name-refusal :
      (name : Name) (s : Scan)
      → scan_name E start name ≡ refused s
      → parse_name E name ≡ refusal s.version s.seg
  unfolding parse_name
  parse_name-refusal name s e = rw (e, parse_name) refl

  path_refused :
      (s : Scan) (v : ℕ) (c : Bytes)
      → IsPathOrMeta c
      → s.version ≡ pos v
      → scan_component E s c ≡ refused s
  unfolding scan_component
  path_refused s v [] p e = absurd p
  path_refused s v (m ∷ body) (a, b) e = ground arith

module _ (E : Env) (C : Conventions E.ndn) where
  early_segment :
      (s : Scan) (k : ℕ)
      → s.version ≡ negsuc 0
      → scan_component E s (E.ndn.segment_component k) ≡ refused s
  unfolding scan_component
  early_segment s k e = rw (C.segment_marker k, scan_component) (ground arith)

  second_version :
      (s : Scan) (v v' : ℕ)
      → s.version ≡ pos v
      → scan_component E s (E.ndn.version_component v') ≡ refused s
  unfolding scan_component
  second_version s v v' e = rw (C.version_marker v', scan_component) (ground arith)

  second_segment :
      (s : Scan) (v k k' : ℕ)
      → s.version ≡ pos v
      → s.seg ≡ pos k
      → scan_component E s (E.ndn.segment_component k') ≡ refused s
  unfolding scan_component
  second_segment s v k k' e g = rw (C.segment_marker k', scan_component) (ground arith)

  -- Behind the components of a path, whatever follows, parseName refuses: a segment before any version; a
  -- second version; a second segment; and a component of a path, or a meta marker, behind a version.
  -- It leaves the version and the segment met before, below 2 ^ 31, in its output arguments, and no path.
  pub parse_name-refused :
      (cs rest : Name) (v k n : ℕ) (c : Bytes)
      → ArePlain cs
      → v < 2147483648
      → k < 2147483648
      → IsPathOrMeta c
      → (parse_name E (cs ++ (E.ndn.segment_component n ∷ rest)) ≡ refusal (negsuc 0) (negsuc 0))
        × (parse_name E (cs ++ (E.ndn.version_component v ∷ E.ndn.version_component n ∷ rest))
            ≡ refusal (pos v) (negsuc 0))
        × (parse_name E (
              cs
              ++ (E.ndn.version_component v
                  ∷ E.ndn.segment_component k
                  ∷ E.ndn.segment_component n
                  ∷ rest))
            ≡ refusal (pos v) (pos k))
        × (parse_name E (cs ++ (E.ndn.version_component v ∷ c ∷ rest)) ≡ refusal (pos v) (negsuc 0))
  parse_name-refused cs rest v k n c plain hv hk other =
      let s = at_end E C (joined E cs) in
      let sv : Scan = record s { version = pos v } in
      let svk : Scan = record sv { seg = pos k } in
      let at_version = version_scanned E C s v hv refl in
      let at_segment = segment_scanned E C sv v k hk refl refl in
      (
        parse_name-refusal E _ s
            (scan_start E C cs _ plain ∙ scan_refused E s _ rest (early_segment s n refl)),
        parse_name-refusal E _ sv (
            scan_start E C cs _ plain
            ∙ scan_next E s sv _ _ at_version
            ∙ scan_refused E sv _ rest (second_version sv v n refl)),
        parse_name-refusal E _ svk (
            scan_start E C cs _ plain
            ∙ scan_next E s sv _ _ at_version
            ∙ scan_next E sv svk _ _ at_segment
            ∙ scan_refused E svk _ rest (second_segment svk v k n refl refl)),
        parse_name-refusal E _ sv (
            scan_start E C cs _ plain
            ∙ scan_next E s sv _ _ at_version
            ∙ scan_refused E sv c rest (path_refused E sv v c other refl)),
      )
