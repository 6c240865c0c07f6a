-- ===== src/Server/Interest/Marked.antt =====
-- server/servermodule.cc, onInterestCallback: interests that end in the marker of a file.
use ndnfs_port.Prelude.{pos, negsuc, Bytes, ◌≡◌, refl, sym, ap, ◌∙◌, [], ◌∷◌, ◌++◌, arith}
use ndnfs_port.External.{Env}
use ndnfs_port.External.Types.{Name}
use ndnfs_port.External.Ndn.{Conventions}
use ndnfs_port.World.{World}
use ndnfs_port.Server.Config.{file_component_name}
use ndnfs_port.Server.Name.{Parsed, result}
use ndnfs_port.Server.Name.Forms.{ArePlain, joined, or_root, parse_name-forms, parse_name-marked}
use ndnfs_port.Server.Interest.{react, answer, on_interest}

module _ (E : Env) where
  -- The interest for the information about a file, as the clients spell it.
  abbrev pub marked_name : Name → Name
  marked_name cs = cs ++ (E.ndn.from_escaped_string file_component_name ∷ [])

module _ (E : Env) (C : Conventions E.ndn) (cs : Name) (path : Bytes) (w : World E) where
  -- The answer is that to the name without the marker.
  pub on_interest-marked_name :
      ArePlain cs
      → joined E cs ≡ E.fs_prefix ++ path
      → on_interest E (marked_name E cs) w ≡ on_interest E cs w
  unfolding on_interest react answer file_component_name
  on_interest-marked_name plain spelled =
      let asked : Parsed = result (pos 1) (negsuc 0) (negsuc 0) (or_root path) in
      let (body, octet) = C.file_marker_octet in
      let marked = parse_name-marked E C cs _ path body plain spelled octet in
      let bare = (parse_name-forms E C cs path 0 0 plain spelled (omega arith) (omega arith)).2 in
      let same : react E (marked_name E cs) w asked ≡ react E cs w asked = refl in
      ap (react E (marked_name E cs) w) marked ∙ same ∙ sym (ap (react E cs w) bare)
