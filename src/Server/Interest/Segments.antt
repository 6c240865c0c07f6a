-- ===== src/Server/Interest/Segments.antt =====
-- server/servermodule.cc, onInterestCallback: interests for a segment of a file.
use ndnfs_port.Prelude.{
  ℕ, ◌<◌, pos, Bytes, ◌≡◌, ◌≢◌, refl, ap, ◌∙◌, some, [], ◌∷◌, ◌++◌, arith, length, eqb, eqb_iff,
  Bool-cases, inl, inr,
}
use ndnfs_port.Exec.{run, state_after}
use ndnfs_port.External.{Env}
use ndnfs_port.External.Types.{Name}
use ndnfs_port.External.Documented.{Documented}
use ndnfs_port.World.{World}
use ndnfs_port.Server.Config.{server_path}
use ndnfs_port.Server.Name.Forms.{ArePlain, joined, parse_name-forms, or_root}
use ndnfs_port.Server.Content.{send_segment}
use ndnfs_port.Server.Content.Serving.{segment_reply, send_segment-reply, send_file_content-pos}
use ndnfs_port.Server.Interest.{handled, react, on_interest, answer}

pub or_root_some : (p : Bytes) → p ≢ [] → or_root p ≡ p
or_root_some p h = elim (Bool-cases (eqb p [])) [
  | inl e ↦ absurd (h ((eqb_iff p []).0 e))
  | inr e ↦ rw e refl
]

module _ (E : Env) where
  -- The name of segment `k` of version `v`, behind the components of a path.
  abbrev pub segment_interest : Name → ℕ → ℕ → Name
  segment_interest cs v k = cs ++ (E.ndn.version_component v ∷ E.ndn.segment_component k ∷ [])

  answer_segment :
      (name : Name) (v k : ℕ) (path : Bytes) (w : World E)
      → (run (answer E name (pos 3) (pos v) (pos k) path) w).1
        ≡ (run (send_segment E name path (pos v) (pos k)) w).1
  unfolding answer
  answer_segment name v k path w =
      rw (send_file_content-pos E name path (pos v) k) (state_after _ _)

  -- Whatever the tables say.
  pub on_interest-segment :
      Documented E
      → (cs : Name) (path : Bytes) (v k : ℕ) (w : World E) → ArePlain cs
      → joined E cs ≡ E.fs_prefix ++ path
      → path ≢ []
      → v < 2147483648
      → k < 2147483648
      → on_interest E (segment_interest cs v k) w
        ≡ (handled, (run (send_segment E (segment_interest cs v k) path (pos v) (pos k)) w).1)
  unfolding on_interest react
  on_interest-segment D cs path v k w plain spelled some_path hv hk =
      rw
        (
          (parse_name-forms E D.conventions cs path v k plain spelled hv hk).0,
          or_root_some path some_path,
          on_interest,
        )
        (ap (λ x. (handled, x)) (answer_segment (segment_interest cs v k) v k path w))

  -- An interest for a signed segment below 2 ^ 18 of a file below 2 GiB is handled, if its name
  -- consists of components without markers that spell the prefix and the path, which is not empty,
  -- and of a version below 2 ^ 31 and the segment. The segment's content, if it is not empty, goes
  -- out under the name of the interest with the stored signature and with size / 8192 as the last
  -- segment; the tables and the contents of all files stay.
  pub on_interest-segment_reply :
      (D : Documented E) (cs : Name) (path : Bytes) (v k : ℕ) (w : World E) {b signature : Bytes}
      → ArePlain cs
      → joined E cs ≡ E.fs_prefix ++ path
      → path ≢ []
      → v < 2147483648
      → k < 262144
      → E.segments.select w.segments (path, pos v, pos k) ≡ some signature
      → D.view.content w.os (server_path E path) ≡ some b
      → length b < 2147483648
      → (o : E.posix.Os) × (on_interest E (segment_interest cs v k) w ≡ (
        handled,
        record w {
          os = o;
          sent = w.sent ++ segment_reply E (segment_interest cs v k) b k signature;
        },
      ))
        × ((q : Bytes) → D.view.content o q ≡ D.view.content w.os q)
  on_interest-segment_reply D cs path v k w {b} {signature} plain spelled some_path hv hk found
        there small =
      let (o, e, same) =
        send_segment-reply E D.view D.reads (segment_interest cs v k) path (pos v) k w found there
          small hk in
      (
        o,
        on_interest-segment D cs path v k w plain spelled some_path hv (omega arith)
            ∙ ap (λ x. (handled, x.1)) e,
        same,
      )
