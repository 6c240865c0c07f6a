-- ===== src/Client/Console.antt =====
-- test/console-handling.h: the line typed, without the white space round it, and its words.
pub mod Trim
pub mod Words
pub mod Line
use ndnfs_port.Prelude.{
  ℕ, suc, ◌+◌, ◌-◌, Bytes, Bool, true, false, Option, none, some, List, [], ◌∷◌, ◌++◌, ◌||◌, ◌==◌,
  ltb, eqb, length, take, drop, until_nul, if◌then◌else◌,
}
use mathlib.Core.Option

-- WHITESPACE_CHARS
abbrev pub is_white : ℕ → Bool
is_white c = (c == b' ') || ((c == b'\n') || ((c == b'\r') || (c == b'\t')))

-- str.find_first_not_of(WHITESPACE_CHARS)
unfoldable pub find_first_not_white : Bytes → Option ℕ
find_first_not_white [] = none
find_first_not_white (c ∷ s) =
    let later = Option.map suc (find_first_not_white s) in if is_white c then later else some 0

-- str.find_last_not_of(WHITESPACE_CHARS)
unfoldable pub find_last_not_white : Bytes → Option ℕ
find_last_not_white [] = none
find_last_not_white (c ∷ s) = elim (find_last_not_white s) [
  | some i ↦ some (suc i)
  | none ↦ if is_white c then none else some 0
]

unfoldable pub trim_left : Bytes → Bytes
unfolding find_first_not_white
trim_left str = elim (find_first_not_white str) [
  | some found ↦ if ltb 0 found then drop found str else str
  | none ↦ []
]

unfoldable pub trim_right : Bytes → Bytes
unfolding find_last_not_white
trim_right str = elim (find_last_not_white str) [
  | some found ↦ if ltb (found + 1) (length str) then take (found + 1) str else str
  | none ↦ []
]

unfoldable pub trim : Bytes → Bytes
unfolding trim_left trim_right
trim str = trim_right (trim_left str)

abbrev pub input_buffer_size : ℕ
input_buffer_size = 1000

-- Of what there is to be read, the first 999 bytes as a line; string(inputBuffer) ends at the first NUL. A
-- `read` that fails is left out: it has the code write in front of the buffer.
unfoldable pub stdin_read_line : Bytes → Bytes
unfolding until_nul trim
stdin_read_line input = trim (until_nul (take (input_buffer_size - 1) input))

-- The items that `getline` gives, over the one begun: the end of the text ends an item that is not empty.
unfoldable pub split_from : Bytes → ℕ → Bytes → List Bytes
unfolding eqb
split_from item delim [] = if eqb item [] then [] else item ∷ []
split_from item delim (c ∷ s) =
    let next = item ∷ split_from [] delim s in
    let longer = split_from (item ++ (c ∷ [])) delim s in if c == delim then next else longer

unfoldable pub split : Bytes → ℕ → List Bytes
unfolding split_from
split s delim = split_from [] delim s
