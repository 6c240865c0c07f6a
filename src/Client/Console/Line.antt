-- ===== src/Client/Console/Line.antt =====
-- test/console-handling.h, stdinReadLine: a line with white space behind it.
use ndnfs_port.Prelude.{
  ◌≤◌, until_nul, ℕ, suc, ◌+◌, Bytes, false, ◌≡◌, refl, sym, ap, ◌∙◌, some, none, [], ◌∷◌, ◌++◌,
  ◌==◌, ltb, length, take, take-of_le, All, arith, inl, inr, Bool-cases,
}
use ndnfs_port.Client.Console.{
  is_white, find_first_not_white, find_last_not_white, trim_left, trim_right, trim, stdin_read_line,
}
use ndnfs_port.Client.Console.Trim.{IsWhite}

abbrev pub IsBlack : ℕ → Type 0
IsBlack c = is_white c ≡ false

abbrev pub IsNotNul : ℕ → Type 0
IsNotNul c = (c == 0) ≡ false

find_last-white : (r : Bytes) → All IsWhite r → find_last_not_white r ≡ none
unfolding find_last_not_white
find_last-white [] h = refl
find_last-white (c ∷ r) (w, h) = rw (find_last-white r h, w) refl

-- The last byte that is not white.
find_last-append :
    (v : Bytes) (c : ℕ) (r : Bytes)
    → IsBlack c
    → All IsWhite r
    → find_last_not_white (v ++ (c ∷ r)) ≡ some (length v)
unfolding find_last_not_white
find_last-append [] c r b h = rw (find_last-white r h, b) refl
find_last-append (x ∷ v) c r b h = rw (find_last-append v c r b h) refl

take-append : (v : Bytes) (c : ℕ) (r : Bytes) → take (suc (length v)) (v ++ (c ∷ r)) ≡ v ++ (c ∷ [])
take-append [] c r = refl
take-append (x ∷ v) c r = ap (λ t. x ∷ t) (take-append v c r)

trim_right-append :
    (v : Bytes) (c : ℕ) (r : Bytes)
    → IsBlack c
    → All IsWhite r
    → trim_right (v ++ (c ∷ r)) ≡ v ++ (c ∷ [])
unfolding trim_right
trim_right-append v c r b h =
    let n : length v + 1 ≡ suc (length v) = omega arith in
    let cut = take-append v c r in
    elim (Bool-cases (ltb (length v + 1) (length (v ++ (c ∷ r))))) [
      | inl shorter ↦ rw (trim_right, find_last-append v c r b h, shorter, n) cut
      | inr whole ↦
          let le = take-of_le (suc (length v)) (v ++ (c ∷ r)) (ground arith) in
          rw (trim_right, find_last-append v c r b h, whole) (sym le ∙ cut)
    ]

trim_left-black : (c : ℕ) (s : Bytes) → IsBlack c → trim_left (c ∷ s) ≡ c ∷ s
unfolding trim_left find_first_not_white
trim_left-black c s b = rw (trim_left, find_first_not_white, b) refl

until_nul-of_no_nul : (s : Bytes) → All IsNotNul s → until_nul s ≡ s
unfolding until_nul
until_nul-of_no_nul [] h = refl
until_nul-of_no_nul (c ∷ s) (n, h) = rw n (ap (λ t. c ∷ t) (until_nul-of_no_nul s h))

short_line-read : (s : Bytes) → length s ≤ 999 → stdin_read_line s ≡ trim (until_nul s)
unfolding stdin_read_line
short_line-read s fits = ap (λ t. trim (until_nul t)) (take-of_le 999 s fits)

-- A line of at most 999 bytes without a NUL that begins and ends with something else than white space is read as it was typed,
-- without the white space behind it.
pub stdin_read_line-append :
    (a : ℕ) (v : Bytes) (c : ℕ) (r : Bytes)
    → length ((a ∷ v) ++ (c ∷ r)) ≤ 999
    → IsBlack a
    → IsBlack c
    → All IsWhite r
    → All IsNotNul ((a ∷ v) ++ (c ∷ r))
    → stdin_read_line ((a ∷ v) ++ (c ∷ r)) ≡ (a ∷ v) ++ (c ∷ [])
unfolding trim
stdin_read_line-append a v c r fits ba bc h n =
    short_line-read ((a ∷ v) ++ (c ∷ r)) fits
    ∙ rw (until_nul-of_no_nul ((a ∷ v) ++ (c ∷ r)) n, trim_left-black a (v ++ (c ∷ r)) ba)
        (trim_right-append (a ∷ v) c r bc h)
