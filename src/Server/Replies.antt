-- ===== src/Server/Replies.antt =====
-- server/servermodule.cc: what a reply may do, whichever function makes it.
use ndnfs_port.Prelude.{
  ℤ, pos, negsuc, Bytes, ◌≡◌, refl, sym, Option, some, [], ◌∷◌, ◌++◌, ltb, length, inl, inr, ◌⊎◌,
  Bool-cases, Option-cases, eqb_ℤ, subst,
}
use ndnfs_port.Exec.{Exec, next, run, Sys-cases, call, pure, ◌>>◌, state_after}
use ndnfs_port.External.{Env}
use ndnfs_port.External.Types.{Name}
use ndnfs_port.External.Posix.{o_rdonly}
use ndnfs_port.World.{World, Sent}
use ndnfs_port.Fs.Config.{seg_size}
use ndnfs_port.Fs.FileType.{file_type_code, regular}
use ndnfs_port.Fs.Segment.{segment_to_size}
use ndnfs_port.Server.Config.{default_freshness_period, server_path}
use ndnfs_port.Server.Name.{Parsed, parse_name, result, crash, out_of_range, is_absent}
use ndnfs_port.Server.Content.{
  read_file_size, reply_with, send_segment, send_file_content, final_block_of,
}
use ndnfs_port.Server.Meta.{measure, send_file_meta, meta_packet}
use ndnfs_port.Server.Directory.{send_dir_page, query_path}
use ndnfs_port.Server.Interest.{answer_version, answer_meta, answer, react, on_interest}

module _ (E : Env) where
  -- The tables stay, and at most one packet goes out, marked fresh for the period configured.
  abbrev pub IsReply : World E → World E → Type 0
  IsReply w w' =
      (w'.files ≡ w.files)
      × (w'.versions ≡ w.versions)
      × (w'.segments ≡ w.segments)
      × ((w'.sent ≡ w.sent)
          ⊎ ((s : Sent) × (w'.sent ≡ w.sent ++ (s ∷ []))
              × (s.packet.freshness_period ≡ some default_freshness_period)))

  silent : (w : World E) → IsReply w w
  silent w = (refl, refl, refl, inl refl)

  reply_with-IsReply :
      (name : Name) (final : Option Bytes) (signature content : Bytes) (w : World E)
      → IsReply w (reply_with E name final signature content w).1
  unfolding reply_with
  reply_with-IsReply name final signature content w = elim (Bool-cases (ltb 0 (length content))) [
    | inl e ↦ rw e (refl, refl, refl, inr (_, refl, refl))
    | inr e ↦ rw e (silent w)
  ]

  read_file_size-same :
      (path : Bytes) (w : World E) → (x : ℤ × ℤ) × (read_file_size E path w ≡ (next x, w))
  unfolding read_file_size
  read_file_size-same path w = elim (Sys-cases (E.posix.stat w.os (server_path E path))) [
    | inl (st, e) ↦ rw (e, read_file_size) (_, refl)
    | inr (_, e) ↦ rw (e, read_file_size) (_, refl)
  ]

  send_segment-IsReply :
      (name : Name) (path : Bytes) (ver seg : ℤ) (w : World E)
      → IsReply w (send_segment E name path ver seg w).1
  unfolding send_segment
  send_segment-IsReply name path ver seg w =
      let (x, sized) = read_file_size-same path w in
      let opened = E.posix.open_file w.os (server_path E path) o_rdonly 0 in
      elim (Option-cases (E.segments.select w.segments (path, ver, seg))) [
        | inl e ↦ rw e (silent w)
        | inr (signature, e) ↦ elim (Sys-cases opened.0) [
          | inl (fd, f) ↦
              elim (Sys-cases (E.posix.pread opened.1 fd seg_size (segment_to_size seg))) [
                | inl (content, g) ↦
                    rw (e, sized, f, g)
                      (reply_with-IsReply name (final_block_of E x.1) signature content _)
                | inr (_, g) ↦ rw (e, sized, f, g) (refl, refl, refl, inl refl)
              ]
          | inr (_, f) ↦ rw (e, sized, f) (refl, refl, refl, inl refl)
        ]
      ]

  send_file_content-IsReply :
      (name : Name) (path : Bytes) (ver seg : ℤ) (w : World E)
      → IsReply w (send_file_content E name path ver seg w).1
  unfolding send_file_content
  send_file_content-IsReply name path ver seg w = elim (Bool-cases (is_absent seg)) [
    | inl e ↦
        rw (e, send_file_content)
          (send_segment-IsReply (name ++ (E.ndn.segment_component 0 ∷ [])) path ver (pos 0) w)
    | inr e ↦ rw (e, send_file_content) (send_segment-IsReply name path ver seg w)
  ]

  measure-same :
      (path : Bytes) (t : ℤ) (w : World E) → (x : ℤ × ℤ) × (measure E path t w ≡ (next x, w))
  unfolding measure
  measure-same path t w =
      let (x, sized) = read_file_size-same path w in
      elim (Bool-cases (eqb_ℤ t (file_type_code regular))) [
        | inl e ↦ (x, rw e sized)
        | inr e ↦ ((pos 0, pos 0), rw e refl)
      ]

  send_file_meta-IsReply :
      (path mime : Bytes) (ver t : ℤ) (w : World E)
      → IsReply w (send_file_meta E path mime ver t w).1
  unfolding send_file_meta meta_packet
  send_file_meta-IsReply path mime ver t w =
      let (x, measured) = measure-same path t w in
      elim (Option-cases (E.versions.select w.versions (path, ver))) [
        | inl e ↦ rw e (silent w)
        | inr (_, e) ↦ rw (e, measured) (refl, refl, refl, inr (_, refl, refl))
      ]

  send_dir_page-IsReply : (path : Bytes) (w : World E) → IsReply w (send_dir_page E path w).1
  unfolding send_dir_page
  send_dir_page-IsReply path w =
      elim (Sys-cases (E.posix.read_dir w.os (server_path E (query_path path)))) [
        | inl (found, e) ↦ rw e (refl, refl, refl, inr (_, refl, refl))
        | inr (_, e) ↦ rw e (silent w)
      ]

  -- A call whose result is dropped.
  call-IsReply :
      (m : Exec (World E) ℤ) (w : World E)
      → IsReply w (m w).1
      → IsReply w (run (call m >> pure (pos 0)) w).1
  call-IsReply m w h = subst (IsReply w) (sym (state_after (m w).0 (m w).1)) h

  answer_version-IsReply :
      (name : Name) (path : Bytes) (ver : ℤ) (w : World E)
      → IsReply w (run (answer_version E name path ver) w).1
  unfolding answer_version
  answer_version-IsReply name path ver w = elim (Option-cases (E.files.select w.files path)) [
    | inl e ↦ rw e (silent w)
    | inr (_, e) ↦ rw e (
        call-IsReply (send_file_content E name path ver (negsuc 0)) w
          (send_file_content-IsReply name path ver (negsuc 0) w))
  ]

  answer_meta-IsReply : (path : Bytes) (w : World E) → IsReply w (run (answer_meta E path) w).1
  unfolding answer_meta
  answer_meta-IsReply path w = elim (Option-cases (E.files.select w.files path)) [
    | inl e ↦ rw e (call-IsReply (send_dir_page E path) w (send_dir_page-IsReply path w))
    | inr (r, e) ↦ rw e (
        call-IsReply (send_file_meta E path _ r.current_version r.file_type) w
          (send_file_meta-IsReply path _ r.current_version r.file_type w))
  ]

  answer-IsReply :
      (name : Name) (code ver seg : ℤ) (path : Bytes) (w : World E)
      → IsReply w (run (answer E name code ver seg path) w).1
  unfolding answer
  answer-IsReply name code ver seg path w = elim (Bool-cases (eqb_ℤ code (pos 3))) [
    | inl e ↦
        rw (e, answer)
          (call-IsReply (send_file_content E name path ver seg) w
            (send_file_content-IsReply name path ver seg w))
    | inr e ↦ elim (Bool-cases (eqb_ℤ code (pos 2))) [
      | inl f ↦ rw (e, f, answer) (answer_version-IsReply name path ver w)
      | inr f ↦ elim (Bool-cases (eqb_ℤ code (pos 1))) [
        | inl g ↦ rw (e, f, g, answer) (answer_meta-IsReply path w)
        | inr g ↦ rw (e, f, g, answer) (silent w)
      ]
    ]
  ]

  react-IsReply : (name : Name) (w : World E) (p : Parsed) → IsReply w (react E name w p).1
  unfolding react
  react-IsReply name w (result code ver seg path) = answer-IsReply name code ver seg path w
  react-IsReply name w crash = silent w
  react-IsReply name w out_of_range = silent w

  -- Whatever name an interest has, the callback changes no table and puts at most one packet on the face;
  -- a packet put there has the configured freshness period.
  pub on_interest-IsReply : (name : Name) (w : World E) → IsReply w (on_interest E name w).1
  unfolding on_interest
  on_interest-IsReply name w = react-IsReply name w (parse_name E name)
