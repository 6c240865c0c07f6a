-- ===== src/Fetch/Typed.antt =====
-- test/client.cc against server/servermodule.cc: the interest that a line typed makes, and its answer.
use ndnfs_port.Prelude.{
  ap, subst, sym, ◌∙◌, All, to_int-of_lt, ◌≤◌, ℕ, ◌<◌, pos, Bytes, false, ◌≡◌, ◌≢◌, refl, some, [],
  ◌∷◌, ◌++◌, length,
}
use ndnfs_port.External.{Env}
use ndnfs_port.External.Types.{FileRow}
use ndnfs_port.External.Documented.{Documented}
use ndnfs_port.World.{World}
use ndnfs_port.Fs.Config.{abs_path}
use ndnfs_port.Fs.File.{access_mode}
use ndnfs_port.Server.Config.{server_path}
use ndnfs_port.Server.Name.Forms.{ArePlain, joined}
use ndnfs_port.Server.Interest.{on_interest}
use ndnfs_port.Client.Console.Words.{IsFreeOf, join}
use ndnfs_port.Client.Console.{stdin_read_line}
use ndnfs_port.Client.Console.Trim.{IsWhite}
use ndnfs_port.Client.Console.Line.{IsBlack, IsNotNul, stdin_read_line-append}
use mathlib.Core.List.{append_assoc}
use ndnfs_port.Client.Command.{fetch_command, show_command, occurs, fetching, obey}
use ndnfs_port.Client.Command.Dispatch.{obey-fetch}
use ndnfs_port.Delivery.{released, ndnfs_release-on_interest_info}
use ndnfs_port.Fs.Release.Publishing.{with_version}
use ndnfs_port.Server.Interest.Information.{info_of}
use ndnfs_port.Fetch.Start.{announced, told}

-- The command line that fetches a name into a file.
abbrev pub fetch_line : Bytes → Bytes → Bytes
fetch_line name_str file_name = fetch_command ++ join b' ' (name_str ∷ file_name ∷ [])

regroup :
    (e n front : Bytes) (c : ℕ) (s : Bytes)
    → (e ++ (n ++ (b' ' ∷ front))) ++ (c ∷ s) ≡ e ++ (n ++ (b' ' ∷ (front ++ (c ∷ s))))
regroup e n front c s =
    append_assoc e (n ++ (b' ' ∷ front)) (c ∷ s)
    ∙ ap (λ t. e ++ t) (append_assoc n (b' ' ∷ front) (c ∷ s))

-- The line is read without the white space behind it.
fetch_line-read :
    (name_str front : Bytes) (c : ℕ) (blanks : Bytes)
    → length (fetch_line name_str (front ++ (c ∷ [])) ++ blanks) ≤ 999
    → IsBlack c
    → All IsWhite blanks
    → All IsNotNul (fetch_line name_str (front ++ (c ∷ [])) ++ blanks)
    → stdin_read_line (fetch_line name_str (front ++ (c ∷ [])) ++ blanks)
      ≡ fetch_line name_str (front ++ (c ∷ []))
unfolding fetch_command
fetch_line-read name_str front c blanks fits black white no_nul =
    let etch : Bytes = b'e' ∷ b't' ∷ b'c' ∷ b'h' ∷ b' ' ∷ [] in
    let v : Bytes = etch ++ (name_str ++ (b' ' ∷ front)) in
    let typed : fetch_line name_str (front ++ (c ∷ [])) ++ blanks ≡ (b'f' ∷ v) ++ (c ∷ blanks) =
      ap (λ t. (b'f' ∷ t) ++ blanks) (sym (regroup etch name_str front c []))
      ∙ ap (λ t. b'f' ∷ t) (append_assoc v (c ∷ []) blanks) in
    let read =
      stdin_read_line-append b'f' v c blanks (subst (λ t. length t ≤ 999) typed fits) refl black
        white (subst (All IsNotNul) typed no_nul) in
    rw typed read ∙ ap (λ t. b'f' ∷ t) (regroup etch name_str front c [])

snoc_ne : (front : Bytes) (c : ℕ) → front ++ (c ∷ []) ≢ []
snoc_ne [] c e = cc
snoc_ne (x ∷ front) c e = cc

module _ (E : Env) (D : Documented E) (path : Bytes) (now flags : ℕ) (w : World E) where
  -- A regular file that has a row and less than 2 GiB is released after writing, at a time below 2
  -- ^ 31. The server finds it in the same directory. A user types "fetch ", a name, a space, a file
  -- name, whose last byte is not white space, and any white space, at most 999 bytes in all; there is
  -- no NUL, no space in a name, and no "show " in front of the white space at the end. The name's
  -- components have no markers and spell the server's prefix and the path, which is not empty. Then
  -- the line makes one interest, with that name, and a fetch into that file. The server answers the
  -- interest with one packet, the information about the file with the new version.
  pub obey-on_interest :
      {row : FileRow} {b : Bytes} (name_str front : Bytes) (last : ℕ) (blanks : Bytes)
      → length (fetch_line name_str (front ++ (last ∷ [])) ++ blanks) ≤ 999
      → IsFreeOf b' ' name_str
      → IsFreeOf b' ' (front ++ (last ∷ []))
      → IsBlack last
      → All IsWhite blanks
      → All IsNotNul (fetch_line name_str (front ++ (last ∷ [])) ++ blanks)
      → occurs show_command (fetch_line name_str (front ++ (last ∷ []))) ≡ false
      → E.files.select w.files path ≡ some row
      → row.file_type ≡ pos 7
      → access_mode flags ≢ 0
      → D.view.content w.os (abs_path E path) ≡ some b
      → server_path E path ≡ abs_path E path
      → length b < 2147483648
      → now < 2147483648
      → ArePlain (E.ndn.parse_uri name_str)
      → joined E (E.ndn.parse_uri name_str) ≡ E.fs_prefix ++ path
      → path ≢ []
      → let cs = E.ndn.parse_uri name_str in
        let packet = announced E D cs path now flags w row b in
        let input = fetch_line name_str (front ++ (last ∷ [])) ++ blanks in
        (obey E (stdin_read_line input) ≡ fetching cs (front ++ (last ∷ [])))
        × ((on_interest E cs (released E D cs path now flags w)).1.sent
            ≡ w.sent ++ (record { packet = packet; signature = E.ndn.sign packet } ∷ []))
        × (E.ndn.parse_file packet.content
            ≡ some (info_of E (with_version E D path w (pos now) row) b))
  obey-on_interest {row} {b} name_str front last blanks fits name_free file_free black white no_nul
        no_show found file writes there same_dir small recent plain spelled some_path =
      let cs = E.ndn.parse_uri name_str in
      (
        ap (obey E) (fetch_line-read name_str front last blanks fits black white no_nul)
            ∙ obey-fetch E name_str (front ++ (last ∷ [])) name_free file_free (snoc_ne front last)
                no_show,
        ndnfs_release-on_interest_info E D cs path now flags w found file writes there same_dir
            small plain spelled some_path,
        told E D cs path now flags w row b small recent
            ∙ ap (λ v. some (info_of E (with_version E D path w v row) b))
                (to_int-of_lt now recent),
      )
