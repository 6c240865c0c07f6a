-- ===== src/Client/Retry.antt =====
-- test/handler.cc, onAttrData: a packet that is a segment where information was asked for.
use ndnfs_port.Prelude.{
  ℕ, Bytes, false, ◌≡◌, ◌≢◌, refl, sym, ◌∙◌, some, [], ◌∷◌, ◌++◌, codes, eqb_iff, length,
  length-append, ◌+◌, ltb, arith, Bool-cases, inl, inr,
}
use ndnfs_port.External.{Env}
use ndnfs_port.External.Types.{Name, Packet}
use ndnfs_port.External.Ndn.{Conventions}
use ndnfs_port.Server.Config.{file_component_name, dir_component_name}
use ndnfs_port.Server.Name.Forms.{IsPlain, ArePlain}
use ndnfs_port.Server.Interest.Marked.{marked_name}
use ndnfs_port.Server.Interest.Segments.{segment_interest}
use ndnfs_port.Client.{Client, attr_data, is_marker, has_marker, retry, on_attr_data}
use ndnfs_port.Client.Information.{split_last_two-append}

module _ (E : Env) (C : Conventions E.ndn) where
  -- Both markers begin with the octet 0xC1.
  not_marker :
      (c : Bytes)
      → ((body : Bytes) → c ≢ 0xC1 ∷ body)
      → (is_marker E c file_component_name ≡ false) × (is_marker E c dir_component_name ≡ false)
  unfolding is_marker file_component_name dir_component_name codes
  not_marker c other = (
    elim (Bool-cases (is_marker E c file_component_name)) [
      | inl marked ↦
          let (body, e) = C.escaped_octet c (codes ".FS.file") ((eqb_iff _ _).0 marked) in
          absurd (other body e)
      | inr plain ↦ plain
    ],
    elim (Bool-cases (is_marker E c dir_component_name)) [
      | inl marked ↦
          let (body, e) = C.escaped_octet c (codes ".FS.dir") ((eqb_iff _ _).0 marked) in
          absurd (other body e)
      | inr plain ↦ plain
    ],
  )

  plain_no_marker :
      (c : Bytes)
      → IsPlain c
      → (is_marker E c file_component_name ≡ false) × (is_marker E c dir_component_name ≡ false)
  plain_no_marker [] p = absurd p
  plain_no_marker (m ∷ body) (_, _, other) =
      not_marker (m ∷ body) (λ body' e. let same : m ≡ 0xC1 = cc e in other same)

  version_no_marker :
      (v : ℕ)
      → (is_marker E (E.ndn.version_component v) file_component_name ≡ false)
        × (is_marker E (E.ndn.version_component v) dir_component_name ≡ false)
  version_no_marker v = not_marker (E.ndn.version_component v) (λ body e.
      let same : ◌≡◌ {A = Bytes} (0xFD ∷ C.version_body v) (0xC1 ∷ body) =
        sym (C.version_marker v) ∙ e in
      let bad : ◌≡◌ {A = ℕ} 0xFD 0xC1 = cc same in omega arith)

  segment_no_marker :
      (k : ℕ)
      → (is_marker E (E.ndn.segment_component k) file_component_name ≡ false)
        × (is_marker E (E.ndn.segment_component k) dir_component_name ≡ false)
  segment_no_marker k = not_marker (E.ndn.segment_component k) (λ body e.
      let same : ◌≡◌ {A = Bytes} (0x00 ∷ C.segment_body k) (0xC1 ∷ body) =
        sym (C.segment_marker k) ∙ e in
      let bad : ◌≡◌ {A = ℕ} 0x00 0xC1 = cc same in omega arith)

  segment_has_no_marker :
      (cs : Name) (v k : ℕ) → ArePlain cs → has_marker E (segment_interest E cs v k) ≡ false
  unfolding has_marker
  segment_has_no_marker [] v k plain =
      let (a, b) = version_no_marker v in let (c, d) = segment_no_marker k in rw (a, b, c, d) refl
  segment_has_no_marker (n ∷ cs) v k (p, plain) =
      let (a, b) = plain_no_marker n p in rw (a, b) (segment_has_no_marker cs v k plain)

  -- The client asks again with the marker of a file behind the name that it asked for.
  pub on_attr_data-segment :
      (cs : Name) (v k : ℕ) (packet : Packet) (c : Client)
      → ArePlain cs
      → packet.name ≡ segment_interest E cs v k
      → on_attr_data E cs packet c
        ≡ some (record c {
          pending = c.pending ++ (record { name = marked_name E cs; callback = attr_data } ∷ []);
        })
  unfolding on_attr_data retry
  on_attr_data-segment cs v k packet c plain named =
      let (a, b) = version_no_marker v in
      let short : ltb (length cs + 2) (length (segment_interest E cs v k)) ≡ false =
        ground
          (arith, length-append cs (E.ndn.version_component v ∷ E.ndn.segment_component k ∷ [])) in
      rw
        (
          named,
          on_attr_data,
          split_last_two-append cs (E.ndn.version_component v) (E.ndn.segment_component k),
          a,
          b,
          segment_has_no_marker cs v k plain,
          short,
        )
        refl
