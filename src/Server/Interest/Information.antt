-- ===== src/Server/Interest/Information.antt =====
-- server/servermodule.cc, onInterestCallback and sendFileMeta: interests for a file's information.
use ndnfs_port.Prelude.{
  ℕ, suc, ◌<◌, ◌/◌, ◌+◌, pos, negsuc, Bytes, ◌≡◌, ◌≢◌, refl, ap, ◌∙◌, Option, none, some, [], ◌∷◌,
  ◌++◌, arith, length, eqb, to_u64, to_u64-pos, if◌then◌else◌, Option-cases, inl, inr,
}
use ndnfs_port.Exec.{next, run, state_after}
use ndnfs_port.External.{Env}
use ndnfs_port.External.Types.{Name, Packet, FileInfo, FileRow}
use ndnfs_port.External.Documented.{Documented}
use ndnfs_port.World.{World}
use ndnfs_port.Fs.FileType.{file_type_code}
use ndnfs_port.Server.Config.{default_freshness_period, file_component_name, server_path}
use ndnfs_port.Server.Name.{result}
use ndnfs_port.Server.Name.Forms.{ArePlain, joined, parse_name-forms}
use ndnfs_port.Server.Content.{decrement}
use ndnfs_port.Server.Content.Serving.{read_file_size-content}
use ndnfs_port.Server.Meta.{meta_name, meta_packet, file_info, measure, send_file_meta}
use ndnfs_port.Server.Interest.{handled, mime_column, react, answer, answer_meta, on_interest}
use ndnfs_port.Server.Interest.Segments.{or_root_some}

module _ (E : Env) where
  -- The MIME type is told only if SQLite gives a text for the column that is not there.
  abbrev pub told_type : Bytes → Option Bytes
  told_type mime = elim E.column_beyond [
    | none ↦ none
    | some _ ↦ if eqb mime [] then none else some mime
  ]

  -- What is told of a regular file with the content `b`.
  abbrev pub info_of : FileRow → Bytes → FileInfo
  info_of row b = record {
    size = pos (length b);
    totalseg = pos (length b / 8192 + 1);
    version = row.current_version;
    mimetype = told_type row.mime_type;
    file_type = pos 7;
  }

  abbrev packet_with : Bytes → FileRow → FileInfo → ℕ → Packet
  packet_with path row info last = record {
    name = meta_name E path file_component_name row.current_version;
    content = E.ndn.serialize_file info;
    final_block_id = some (E.ndn.segment_component last);
    freshness_period = some default_freshness_period;
  }

  abbrev pub info_packet : Bytes → FileRow → Bytes → Packet
  info_packet path row b = packet_with path row (info_of row b) (length b / 8192)

  file_info-eq :
      (row : FileRow) (b : Bytes)
      → file_info E
          (mime_column E row.mime_type)
          row.current_version
          (pos 7)
          (pos (length b), pos (length b / 8192 + 1))
        ≡ info_of row b
  unfolding file_info mime_column eqb
  file_info-eq row b = elim (Option-cases E.column_beyond) [
    | inl e ↦ rw e refl
    | inr (_, e) ↦ rw e refl
  ]

  meta_packet-eq :
      (path : Bytes) (row : FileRow) (b : Bytes)
      → length b < 2147483648
      → meta_packet E path
          (mime_column E row.mime_type)
          row.current_version
          (pos 7)
          (pos (length b), pos (length b / 8192 + 1))
        ≡ info_packet path row b
  unfolding meta_packet decrement
  meta_packet-eq path row b small =
      let one_more : length b / 8192 + 1 ≡ suc (length b / 8192) = omega arith in
      let last : to_u64 (decrement (pos (length b / 8192 + 1))) ≡ length b / 8192 =
        rw (one_more, decrement) (to_u64-pos (length b / 8192) (omega arith)) in
      ap (λ i. packet_with path row i (to_u64 (decrement (pos (length b / 8192 + 1)))))
        (file_info-eq row b)
      ∙ ap (packet_with path row (info_of row b)) last

module _ (E : Env) (D : Documented E) where
  send_file_meta-reply :
      (path : Bytes) (row : FileRow) (w : World E) {b : Bytes}
      → row.file_type ≡ pos 7
      → E.versions.select w.versions (path, row.current_version) ≢ none
      → D.view.content w.os (server_path E path) ≡ some b
      → length b < 2147483648
      → send_file_meta E path (mime_column E row.mime_type) row.current_version row.file_type w ≡ (
        next (pos 0),
        record w {
          sent =
              w.sent
              ++ (record {
                packet = info_packet E path row b;
                signature = E.ndn.sign (info_packet E path row b);
              }
                  ∷ []);
        },
      )
  unfolding send_file_meta measure file_type_code
  send_file_meta-reply path row w {b} file listed there small =
      elim (Option-cases (E.versions.select w.versions (path, row.current_version))) [
        | inl e ↦ absurd (listed e)
        | inr (_, e) ↦
            rw
              (
                e,
                file,
                read_file_size-content E D.view D.reads path w there small,
                meta_packet-eq E path row b small,
              )
              refl
      ]

  answer_meta-file :
      (path : Bytes) (row : FileRow) (w : World E)
      → E.files.select w.files path ≡ some row
      → (run (answer_meta E path) w).1
        ≡ (send_file_meta E path
            (mime_column E row.mime_type)
            row.current_version
            row.file_type
            w).1
  unfolding answer_meta
  answer_meta-file path row w found = rw (found) (state_after _ _)

  -- An interest whose name consists of components without markers that spell the prefix and the
  -- path, which is not empty, is handled, if the path has a row of type 7, a regular file, whose
  -- version is listed, and a content below 2 GiB. One packet goes out that tells the size, the
  -- number size / 8192 + 1 of segments, and the current version, and names segment size / 8192 as
  -- the last one. Nothing else changes.
  pub on_interest-info :
      (cs : Name) (path : Bytes) (row : FileRow) (w : World E) {b : Bytes}
      → ArePlain cs
      → joined E cs ≡ E.fs_prefix ++ path
      → path ≢ []
      → E.files.select w.files path ≡ some row
      → row.file_type ≡ pos 7
      → E.versions.select w.versions (path, row.current_version) ≢ none
      → D.view.content w.os (server_path E path) ≡ some b
      → length b < 2147483648
      → on_interest E cs w ≡ (
        handled,
        record w {
          sent =
              w.sent
              ++ (record {
                packet = info_packet E path row b;
                signature = E.ndn.sign (info_packet E path row b);
              }
                  ∷ []);
        },
      )
  unfolding on_interest react answer
  on_interest-info cs path row w {b} plain spelled some_path found file listed there small =
      let parsed =
        (parse_name-forms E D.conventions cs path 0 0 plain spelled (omega arith)
          (omega arith)).2 in
      ap (react E cs w)
        (parsed ∙ ap (result (pos 1) (negsuc 0) (negsuc 0)) (or_root_some path some_path))
      ∙ ap (λ x. (handled, x))
          (answer_meta-file path row w found
            ∙ ap (λ r. r.1) (send_file_meta-reply path row w file listed there small))
