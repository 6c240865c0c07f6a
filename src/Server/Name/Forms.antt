-- ===== src/Server/Name/Forms.antt =====
-- server/servermodule.cc, parseName: the three forms of names that clients ask for.
use ndnfs_port.Prelude.{
  ℕ, ◌<◌, ◌^◌, pos, negsuc, Bytes, true, ◌≡◌, ◌≢◌, refl, sym, ap, ◌∙◌, [], ◌∷◌, ◌++◌, arith,
  length-append, drop-length-append, codes, eqb, to_int, to_int-of_lt, if◌then◌else◌,
}
use mathlib.Core.List.{append_assoc, append-nil}
use ndnfs_port.External.{Env}
use ndnfs_port.External.Types.{Name}
use ndnfs_port.External.Ndn.{Conventions}
use ndnfs_port.Server.Name.{
  Scan, scanned, start, scan_component, scan_name, request_kind, result, finish_name, parse_name,
}

-- A component of a path: not empty, and without a marker that parseName knows.
abbrev pub IsPlain : Bytes → Type 0
IsPlain [] = ⊥
IsPlain (m ∷ body) = (m ≢ 0xFD) × (m ≢ 0x00) × (m ≢ 0xC1)

abbrev pub ArePlain : Name → Type 0
ArePlain [] = Unit
ArePlain (c ∷ cs) = IsPlain c × ArePlain cs

-- The path of the program for what is left of the joined components behind the prefix.
abbrev pub or_root : Bytes → Bytes
or_root rest = if eqb rest [] then codes "/" else rest

module _ (E : Env) where
  -- The components of a path, each behind a slash.
  unfoldable pub joined : Name → Bytes
  joined [] = []
  joined (c ∷ cs) = b'/' ∷ (E.ndn.to_escaped_string c ++ joined cs)

  abbrev add_path : Scan → Name → Scan
  add_path s cs = record s { oss = s.oss ++ joined cs }

  plain-scanned :
      (s : Scan) (c : Bytes)
      → IsPlain c
      → s.version ≡ negsuc 0
      → s.seg ≡ negsuc 0
      → scan_component E s c
        ≡ scanned (record s { oss = s.oss ++ (b'/' ∷ E.ndn.to_escaped_string c) })
  unfolding scan_component
  plain-scanned s [] p v g = absurd p
  plain-scanned s (m ∷ body) p v g = ground arith

  scan_name-plain :
      (s : Scan) (cs rest : Name)
      → ArePlain cs
      → s.version ≡ negsuc 0
      → s.seg ≡ negsuc 0
      → scan_name E s (cs ++ rest) ≡ scan_name E (add_path s cs) rest
  unfolding scan_name joined
  scan_name-plain s [] rest p v g = rw append-nil
  scan_name-plain s (c ∷ cs) rest (p, ps) v g =
      rw (plain-scanned s c p v g, scan_name)
        (scan_name-plain (record s { oss = s.oss ++ (b'/' ∷ E.ndn.to_escaped_string c) }) cs rest ps
            v g
          ∙ rw append_assoc)

module _ (E : Env) (C : Conventions E.ndn) where
  small_word : (n : ℕ) → n < 2147483648 → n < 2 ^ 64
  small_word n h = omega arith

  pub version_scanned :
      (s : Scan) (v : ℕ)
      → v < 2147483648
      → s.version ≡ negsuc 0
      → scan_component E s (E.ndn.version_component v) ≡ scanned (record s { version = pos v })
  unfolding scan_component
  version_scanned s v h e =
      let back : to_int (E.ndn.to_version (E.ndn.version_component v)) ≡ pos v =
        ap to_int (C.to_version-version v (small_word v h)) ∙ to_int-of_lt v h in
      rw (C.version_marker v, scan_component)
        (ground (arith, ap to_int (ap E.ndn.to_version (C.version_marker v)), back))

  pub segment_scanned :
      (s : Scan) (v k : ℕ)
      → k < 2147483648
      → s.version ≡ pos v
      → s.seg ≡ negsuc 0
      → scan_component E s (E.ndn.segment_component k) ≡ scanned (record s { seg = pos k })
  unfolding scan_component
  segment_scanned s v k h e g =
      let back : to_int (E.ndn.to_segment (E.ndn.segment_component k)) ≡ pos k =
        ap to_int (C.to_segment-segment k (small_word k h)) ∙ to_int-of_lt k h in
      rw (C.segment_marker k, scan_component)
        (ground (arith, ap to_int (ap E.ndn.to_segment (C.segment_marker k)), back))

  finish_name-prefix :
      (s : Scan) (rest : Bytes)
      → s.oss ≡ E.fs_prefix ++ rest
      → finish_name E s ≡ result (request_kind s) s.version s.seg (or_root rest)
  unfolding finish_name
  finish_name-prefix s rest e =
      rw e (ground (arith, length-append E.fs_prefix rest, drop-length-append E.fs_prefix rest))

  -- The scan after the components of a path that spell the prefix and `rest`.
  abbrev pub at_end : Bytes → Scan
  at_end oss = record start { oss = oss }

  scan_one :
      (oss : Bytes) (v : ℕ)
      → v < 2147483648
      → scan_name E (at_end oss) (E.ndn.version_component v ∷ [])
        ≡ scanned (record (at_end oss) { version = pos v })
  unfolding scan_name
  scan_one oss v h = rw (version_scanned (at_end oss) v h refl, scan_name) refl

  scan_two :
      (oss : Bytes) (v k : ℕ)
      → v < 2147483648
      → k < 2147483648
      → scan_name E (at_end oss) (E.ndn.version_component v ∷ E.ndn.segment_component k ∷ [])
        ≡ scanned (record (at_end oss) { version = pos v; seg = pos k })
  unfolding scan_name
  scan_two oss v k h h' =
      rw (version_scanned (at_end oss) v h refl, scan_name)
        (rw (segment_scanned (record (at_end oss) { version = pos v }) v k h' refl refl, scan_name)
          refl)

  -- What parse_name makes of a scan that went through.
  parse_name-scanned :
      (name : Name) (s : Scan)
      → scan_name E start name ≡ scanned s
      → parse_name E name ≡ finish_name E s
  unfolding parse_name
  parse_name-scanned name s e = rw (e, parse_name) refl

  pub scan_start :
      (cs more : Name)
      → ArePlain cs
      → scan_name E start (cs ++ more) ≡ scan_name E (at_end (joined E cs)) more
  scan_start cs more plain = scan_name-plain E start cs more plain refl refl

  -- A name of components without markers that spell the prefix and a rest is parsed to that rest,
  -- or to "/" where it is empty: with a version and a segment behind it as a request for the
  -- segment, with a version alone as one for the version, and with neither as one for information,
  -- with the numbers that the client put in, below 2 ^ 31.
  pub parse_name-forms :
      (cs : Name) (rest : Bytes) (v k : ℕ)
      → ArePlain cs
      → joined E cs ≡ E.fs_prefix ++ rest
      → v < 2147483648
      → k < 2147483648
      → (parse_name E (cs ++ (E.ndn.version_component v ∷ E.ndn.segment_component k ∷ []))
          ≡ result (pos 3) (pos v) (pos k) (or_root rest))
        × (parse_name E (cs ++ (E.ndn.version_component v ∷ []))
            ≡ result (pos 2) (pos v) (negsuc 0) (or_root rest))
        × (parse_name E cs ≡ result (pos 1) (negsuc 0) (negsuc 0) (or_root rest))
  unfolding request_kind scan_name
  parse_name-forms cs rest v k plain spelled hv hk = (
    parse_name-scanned (cs ++ (E.ndn.version_component v ∷ E.ndn.segment_component k ∷ []))
          (record (at_end (joined E cs)) { version = pos v; seg = pos k })
          (scan_start cs _ plain ∙ scan_two (joined E cs) v k hv hk)
        ∙ finish_name-prefix (record (at_end (joined E cs)) { version = pos v; seg = pos k }) rest
            spelled,
    parse_name-scanned (cs ++ (E.ndn.version_component v ∷ []))
          (record (at_end (joined E cs)) { version = pos v })
          (scan_start cs _ plain ∙ scan_one (joined E cs) v hv)
        ∙ finish_name-prefix (record (at_end (joined E cs)) { version = pos v }) rest spelled,
    parse_name-scanned cs (at_end (joined E cs))
          (ap (scan_name E start) (sym (append-nil cs)) ∙ scan_start cs [] plain)
        ∙ finish_name-prefix (at_end (joined E cs)) rest spelled,
  )

  -- A marker of a file behind a path asks for its information as the path alone does.
  pub parse_name-marked :
      (cs : Name) (c : Bytes) (rest body : Bytes)
      → ArePlain cs
      → joined E cs ≡ E.fs_prefix ++ rest
      → c ≡ 0xC1 ∷ body
      → parse_name E (cs ++ (c ∷ [])) ≡ result (pos 1) (negsuc 0) (negsuc 0) (or_root rest)
  unfolding request_kind scan_name scan_component
  parse_name-marked cs c rest body plain spelled marked =
      let s = record (at_end (joined E cs)) { has_meta = true } in
      let through : scan_name E (at_end (joined E cs)) (c ∷ []) ≡ scanned s = rw marked refl in
      parse_name-scanned (cs ++ (c ∷ [])) s (scan_start cs (c ∷ []) plain ∙ through)
      ∙ finish_name-prefix s rest spelled
