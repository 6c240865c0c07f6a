-- ===== src/Client.antt =====
-- test/handler.cc: the client's callbacks, which fetch a file segment by segment.
pub mod Steps
pub mod Information
pub mod Retry
pub mod Console
pub mod Command
use mathlib.Core.Option
use ndnfs_port.Prelude.{
  ℕ, ◌+◌, ℤ, pos, Bytes, Bool, true, false, Option, none, some, List, [], ◌∷◌, ◌++◌, length, ltb,
  eqb, eqb_ℤ, to_int, to_u64, if◌then◌else◌, ◌||◌,
}
use ndnfs_port.External.{Env}
use ndnfs_port.External.Types.{Name, Packet}
use ndnfs_port.Server.Config.{file_component_name, dir_component_name, content_meta_string}
use ndnfs_port.Server.Content.{increment}

-- Which callback takes the data of an interest.
pub data Callback : Type 0 where
  attr_data file_data : Callback

pub record Expressed : Type 0 where
  pub name : Name
  pub callback : Callback

-- `Handler`. What a file gets appended is `saved`; output and the outcome of verification, which is
-- only printed, leave no trace.
pub record Client : Type 0 where
  pub done : Bool
  pub fetch_file : Bool
  pub file_name : Bytes
  pub current_segment : ℤ
  pub total_segment : ℤ
  pub saved : Bytes
  -- the interests expressed and not answered yet
  pub pending : List Expressed

-- The constructor, with the interests that have been expressed for it.
unfoldable handler : Bytes → Bool → List Expressed → Client
handler file_name fetch_file pending = record {
  done = false;
  fetch_file = fetch_file;
  file_name = file_name;
  current_segment = pos 0;
  total_segment = pos 0;
  saved = [];
  pending = pending;
}

-- getPrefix(size - 1) and the last component; `none` for the empty name.
unfoldable pub split_last : Name → Option (Name × Bytes)
split_last [] = none
split_last (c ∷ rest) = elim (split_last rest) [
  | none ↦ some ([], c)
  | some (front, last) ↦ some (c ∷ front, last)
]

-- getPrefix(size - 2) and get(size - 2); `none` for the empty name, on which `get` throws. In a name of one
-- component the index is -1, which stands for the last one.
unfoldable pub split_last_two : Name → Option (Name × Bytes)
unfolding split_last
split_last_two name = elim (split_last name) [
  | none ↦ none
  | some ([], only) ↦ some ([], only)
  | some (c ∷ front, _) ↦ split_last (c ∷ front)
]

abbrev express : Name → Callback → Client → Client
express name callback c = record c {
  pending = c.pending ++ (record { name = name; callback = callback } ∷ []);
}

module _ (E : Env) where
  unfoldable pub is_marker : Bytes → Bytes → Bool
  unfolding eqb
  is_marker component marker = eqb (E.ndn.to_escaped_string component) marker

  pub has_marker : Name → Bool
  unfolding is_marker file_component_name dir_component_name
  has_marker [] = false
  has_marker (c ∷ rest) =
      (is_marker c file_component_name || is_marker c dir_component_name) || has_marker rest

  -- A data packet with another name: either it is one of those that cannot be handled, or the marker of
  -- a file or of a listing is put behind the name of the interest.
  pub retry : Name → Name → Client → Client
  unfolding has_marker content_meta_string
  retry interest_name data_name c =
      if has_marker data_name
      then record c { done = true }
      else express
          (interest_name
            ++ (E.ndn.from_escaped_string (
                  if ltb (length interest_name + 2) (length data_name)
                  then content_meta_string
                  else file_component_name)
                ∷ []))
          attr_data c

  -- The information about a file.
  pub on_file_info : Name → Bytes → Client → Client
  on_file_info front content c = elim (E.ndn.parse_file content) [
    | none ↦ record c { done = true }
    | some info ↦
        let known = record c { total_segment = info.totalseg; done = true } in
        if c.fetch_file
        then express
            (front
              ++ (E.ndn.version_component (to_u64 info.version) ∷ E.ndn.segment_component 0 ∷ []))
            file_data known
        else known
  ]

  -- `none` where the name is empty.
  unfoldable pub on_attr_data : Name → Packet → Client → Option Client
  unfolding split_last_two is_marker retry on_file_info
  on_attr_data interest_name packet c =
      Option.map
        (λ (front, component).
          if is_marker component dir_component_name
          then record c { done = true }
          else if is_marker component file_component_name
          then on_file_info front packet.content c
          else retry interest_name packet.name c)
        (split_last_two packet.name)

  -- getPrefix(size - 1) and rbegin()->toSegment(); `none` where the name is empty, or toSegment throws.
  unfoldable pub last_segment : Name → Option (Name × ℕ)
  unfolding split_last
  last_segment name = elim (split_last name) [
    | none ↦ none
    | some (front, last) ↦
        if E.ndn.is_segment last then some (front, E.ndn.to_segment last) else none
  ]

  -- The content is appended where a file is given, and the next segment is asked for until all are there.
  -- `none` where the name does not end in a segment.
  pub on_file_data : Packet → Client → Option Client
  unfolding last_segment increment eqb
  on_file_data packet c =
      Option.map
        (λ (front, last).
          let next = increment (to_int last) in
          let kept = record c {
            saved = if eqb c.file_name [] then c.saved else c.saved ++ packet.content;
            current_segment = next;
          } in
          if eqb_ℤ next c.total_segment
          then kept
          else express (front ++ (E.ndn.segment_component (to_u64 next) ∷ [])) file_data kept)
        (last_segment packet.name)

unfoldable on_timeout : Client → Client
on_timeout c = record c { done = true }
