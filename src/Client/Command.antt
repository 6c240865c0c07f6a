-- ===== src/Client/Command.antt =====
-- test/client.cc: the options, and what the command loop does with a line.
pub mod Dispatch
use ndnfs_port.Prelude.{
  ℕ, ℤ, pos, Bytes, Bool, true, false, List, [], ◌∷◌, ◌||◌, ◌&&◌, ◌==◌, codes, length, drop,
  if◌then◌else◌,
}
use ndnfs_port.External.{Env}
use ndnfs_port.External.Types.{Name}
use ndnfs_port.Client.Console.{split}

unfoldable pub fetch_command : Bytes
unfolding codes
fetch_command = codes "fetch "

unfoldable pub show_command : Bytes
unfolding codes
show_command = codes "show "

unfoldable pub help_command : Bytes
unfolding codes
help_command = codes "help"

unfoldable pub starts_with : Bytes → Bytes → Bool
starts_with [] s = true
starts_with (c ∷ pattern) [] = false
starts_with (c ∷ pattern) (d ∷ s) = (c == d) && starts_with pattern s

-- strstr(s, pattern) != NULL
unfoldable pub occurs : Bytes → Bytes → Bool
unfolding starts_with
occurs pattern [] = starts_with pattern []
occurs pattern (c ∷ s) = starts_with pattern (c ∷ s) || occurs pattern s

-- What the loop does with a line. `showing` and `fetching` are the interest sent, and for a fetch the file to
-- save in. Its callbacks are bound to the address of a `Handler` that ends with the block that sends
-- it, before any callback can run, so nothing is said of what an answer leads to.
pub data Reply : Type 0 where
  showing : Name → Reply
  fetching : Name → Bytes → Reply
  expects_two_inputs : Reply
  helped : Reply
  unknown : Reply

pub data Start : Type 0 where
  exits : ℤ → Start
  -- The command loop.
  prompts : Start

-- The loop over what `getopt` gives: -h and any other option end the program by usage().
unfoldable read_options : List ℕ → Start
read_options [] = prompts
read_options (opt ∷ rest) = exits (pos 1)

module _ (E : Env) where
  -- One round of the loop over a line.
  unfoldable pub obey : Bytes → Reply
  unfolding show_command fetch_command help_command occurs split
  obey input =
      if occurs show_command input
      then showing (E.ndn.parse_uri (drop (length show_command) input))
      else if occurs fetch_command input
      then elim (split (drop (length fetch_command) input) b' ') [
        | name_str ∷ file_name ∷ [] ↦ fetching (E.ndn.parse_uri name_str) file_name
        | _ ↦ expects_two_inputs
      ]
      else if occurs help_command input
      then helped
      else unknown
