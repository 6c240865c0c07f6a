-- ===== src/Client/Information.antt =====
-- test/handler.cc, onAttrData: the information about a file received.
use ndnfs_port.Prelude.{◌≡◌, refl, sym, Bytes, true, false, some, [], ◌∷◌, ◌++◌, codes, eqb, to_u64}
use mathlib.Core.List.{append_assoc}
use ndnfs_port.External.{Env}
use ndnfs_port.External.Types.{Name, Packet, FileInfo}
use ndnfs_port.External.Ndn.{Conventions}
use ndnfs_port.Server.Config.{file_component_name, dir_component_name}
use ndnfs_port.Client.{Client, file_data, split_last_two, is_marker, on_file_info, on_attr_data}
use ndnfs_port.Client.Steps.{split_last-append}

pub split_last_two-append :
    (front : Name) (m u : Bytes) → split_last_two (front ++ (m ∷ u ∷ [])) ≡ some (front, m)
unfolding split_last_two
split_last_two-append [] m u = refl
split_last_two-append (c ∷ front) m u =
    let e : front ++ (m ∷ u ∷ []) ≡ (front ++ (m ∷ [])) ++ (u ∷ []) =
      sym (append_assoc front (m ∷ []) (u ∷ [])) in
    rw (e, split_last_two, split_last-append (c ∷ (front ++ (m ∷ []))) u)
      (split_last-append (c ∷ front) m)

module _ (E : Env) (C : Conventions E.ndn) where
  pub not_dir :
      is_marker E (E.ndn.from_escaped_string file_component_name) dir_component_name ≡ false
  unfolding is_marker file_component_name dir_component_name eqb codes
  not_dir = rw C.file_marker refl

  pub is_file :
      is_marker E (E.ndn.from_escaped_string file_component_name) file_component_name ≡ true
  unfolding is_marker file_component_name eqb codes
  is_file = rw C.file_marker refl

  -- The client that has just asked for the first segment.
  abbrev pub asks : Name → FileInfo → Client → Client
  asks front info c = record c {
    total_segment = info.totalseg;
    done = true;
    pending =
        c.pending
        ++ (record {
          name =
              front
              ++ (E.ndn.version_component (to_u64 info.version) ∷ E.ndn.segment_component 0 ∷ []);
          callback = file_data;
        }
            ∷ []);
  }

  pub on_attr_data-asks :
      (interest_name front : Name) (u : Bytes) (packet : Packet) (info : FileInfo) (c : Client)
      → packet.name ≡ front ++ (E.ndn.from_escaped_string file_component_name ∷ u ∷ [])
      → E.ndn.parse_file packet.content ≡ some info
      → c.fetch_file ≡ true
      → on_attr_data E interest_name packet c ≡ some (asks front info c)
  unfolding on_attr_data on_file_info
  on_attr_data-asks interest_name front u packet info c named parsed fetches =
      rw
        (
          named,
          split_last_two-append front (E.ndn.from_escaped_string file_component_name) u,
          not_dir,
          is_file,
          on_file_info,
          parsed,
          fetches,
        )
        refl
