-- ===== src/Server/Content/Serving.antt =====
-- server/servermodule.cc, sendFileContent: what is put on the face for a segment that is signed.
use mathlib.Core.List.{append-nil}
use ndnfs_port.Prelude.{
  ℕ, suc, ◌+◌, ◌*◌, ◌/◌, ◌<◌, ◌^◌, ℤ, pos, Bytes, ◌≡◌, refl, sym, ap, ◌∙◌, some, [], ◌∷◌, ◌++◌,
  arith, length, length_zero, to_int-of_lt, to_u64-pos, ltb, lt→ltb, true, Bool-cases, inl, inr,
  if◌then◌else◌, List,
}
use ndnfs_port.Exec.{next, returned, run}
use ndnfs_port.External.{Env}
use ndnfs_port.External.Types.{Name, Packet, Stat}
use ndnfs_port.External.Posix.{View, Reads}
use ndnfs_port.World.{World, Sent, contents}
use ndnfs_port.Fs.Config.{seg_size}
use ndnfs_port.Fs.Segment.{segment_to_size}
use ndnfs_port.Fs.Segment.Offsets.{segment_to_size-of_lt}
use ndnfs_port.Fs.Release.Signing.{chunk, length-chunk}
use ndnfs_port.Server.Config.{default_freshness_period, server_path}
use ndnfs_port.Server.Content.{
  sizes, read_file_size, final_block_of, reply_with, send_segment, send_file_content,
}

-- The size of a file below 2 GiB and the number of its segments, as the server reports them.
pub sizes-of_lt :
    (st : Stat) → st.st_size < 2147483648 → sizes st ≡ (pos st.st_size, pos (st.st_size / 8192 + 1))
unfolding sizes
sizes-of_lt st h = ground (arith, to_int-of_lt st.st_size h)

module _ (E : Env) where
  final_block_of-suc :
      (n : ℕ) → n < 2 ^ 64 → final_block_of E (pos (n + 1)) ≡ some (E.ndn.segment_component n)
  unfolding final_block_of
  final_block_of-suc n h =
      let e : n + 1 ≡ suc n = omega arith in rw e (ground (arith, to_u64-pos n h))

  -- The packet of segment `k` of the content `b`.
  unfoldable pub segment_packet : Name → Bytes → ℕ → Packet
  segment_packet name b k = record {
    name = name;
    content = chunk b k;
    final_block_id = some (E.ndn.segment_component (length b / 8192));
    freshness_period = some default_freshness_period;
  }

  -- What is put on the face: nothing for a segment with no content.
  pub segment_reply : Name → Bytes → ℕ → Bytes → List Sent
  segment_reply name b k signature =
      if ltb 0 (length (chunk b k))
      then record { packet = segment_packet name b k; signature = signature } ∷ []
      else []

  pub contents-segment_reply :
      (name : Name) (b signature : Bytes) (k : ℕ)
      → contents (segment_reply name b k signature) ≡ chunk b k
  unfolding segment_reply segment_packet
  contents-segment_reply name b signature k = elim (Bool-cases (ltb 0 (length (chunk b k)))) [
    | inl e ↦ rw e (append-nil (chunk b k))
    | inr e ↦
        let none_left : length (chunk b k) ≡ 0 = ground arith in
        rw e (sym (length_zero (chunk b k) none_left))
  ]

  pub segment_reply_some :
      (name : Name) (b signature : Bytes) (k : ℕ)
      → k * 8192 < length b
      → segment_reply name b k signature
        ≡ record { packet = segment_packet name b k; signature = signature } ∷ []
  unfolding segment_reply
  segment_reply_some name b signature k more =
      let some_bytes : ltb 0 (length (chunk b k)) ≡ true =
        lt→ltb 0 (length (chunk b k)) (omega (arith, length-chunk b k)) in
      rw some_bytes refl

  -- Behind the last byte there is nothing to send.
  pub segment_reply_end :
      (name : Name) (b signature : Bytes) (k : ℕ)
      → length b ≡ k * 8192
      → segment_reply name b k signature ≡ []
  unfolding segment_reply
  segment_reply_end name b signature k h =
      let none_left : length (chunk b k) ≡ 0 = omega (arith, length-chunk b k) in rw none_left

  reply_with-chunk :
      (name : Name) (b signature : Bytes) (k : ℕ) (w : World E)
      → run
          (reply_with E name
            (some (E.ndn.segment_component (length b / 8192)))
            signature
            (chunk b k))
          w
        ≡ (
          returned (pos (length (chunk b k))),
          record w { sent = w.sent ++ segment_reply name b k signature },
        )
  unfolding reply_with segment_reply segment_packet
  reply_with-chunk name b signature k w = elim (Bool-cases (ltb 0 (length (chunk b k)))) [
    | inl e ↦
        let small : length (chunk b k) < 2147483648 = omega (arith, length-chunk b k) in
        rw (e, to_int-of_lt (length (chunk b k)) small)
    | inr e ↦
        let zero_length : length (chunk b k) ≡ 0 = ground arith in
        rw (e, append-nil) (ap (λ n. (returned (pos n), w)) (sym zero_length))
  ]

  pub send_file_content-pos :
      (name : Name) (path : Bytes) (ver : ℤ) (k : ℕ)
      → send_file_content E name path ver (pos k) ≡ send_segment E name path ver (pos k)
  unfolding send_file_content
  send_file_content-pos name path ver k = refl

module _ (E : Env) (V : View E.posix) (R : Reads E.posix V) where
  pub read_file_size-content :
      (path : Bytes) (w : World E) {b : Bytes}
      → V.content w.os (server_path E path) ≡ some b
      → length b < 2147483648
      → read_file_size E path w ≡ (next (pos (length b), pos (length b / 8192 + 1)), w)
  unfolding read_file_size
  read_file_size-content path w {b} there small =
      let (st, s, n) = R.stat-content w.os (server_path E path) there in
      ground (arith, s, sizes-of_lt st (omega arith), n)

  pub send_segment-reply :
      (name : Name) (path : Bytes) (ver : ℤ) (k : ℕ) (w : World E) {b signature : Bytes}
      → E.segments.select w.segments (path, ver, pos k) ≡ some signature
      → V.content w.os (server_path E path) ≡ some b
      → length b < 2147483648
      → k < 262144
      → (o : E.posix.Os) × (run (send_segment E name path ver (pos k)) w ≡ (
        returned (pos (length (chunk b k))),
        record w { os = o; sent = w.sent ++ segment_reply E name b k signature },
      ))
        × ((q : Bytes) → V.content o q ≡ V.content w.os q)
  unfolding send_segment
  send_segment-reply name path ver k w {b} {signature} found there small low =
      let (fd, o, e, c, same) = R.open-content w.os (server_path E path) there in
      let offset : segment_to_size (pos k) ≡ pos (k * 8192) =
        ap segment_to_size (sym (to_int-of_lt k (omega arith))) ∙ segment_to_size-of_lt k low in
      let sized : read_file_size E path w ≡ (next (pos (length b), pos (length b / 8192 + 1)), w) =
        read_file_size-content path w there small in
      let final = final_block_of-suc E (length b / 8192) (omega arith) in
      (
        (E.posix.close_file o fd).1,
        rw (found, sized, e, offset, R.pread-content o fd seg_size (k * 8192) c, final)
            (reply_with-chunk E name b signature k _),
        λ q. R.close-content o fd q ∙ same q,
      )
