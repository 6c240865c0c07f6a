-- ===== src/Client/Console/Trim.antt =====
-- test/console-handling.h, trim: what it takes away, and that nothing more could be taken.
use mathlib.Core.List.{append-nil}
use ndnfs_port.Prelude.{
  ℕ, zero, suc, ◌+◌, Bytes, true, false, ◌≡◌, refl, ◌≢◌, subst, sym, ◌∙◌, ap, Option, none, some,
  [], ◌∷◌, ◌++◌, ltb, length, take, drop, take-append-drop, take-of_le, All, arith, inl, inr,
  Option-cases, Bool-cases, if◌then◌else◌,
}
use ndnfs_port.Client.Console.{
  is_white, find_first_not_white, find_last_not_white, trim_left, trim_right, trim,
}

abbrev pub IsWhite : ℕ → Type 0
IsWhite c = is_white c ≡ true

-- `t` is `s` without white space on both sides, and has none there.
pub record IsTrimmed (s t : Bytes) : Type 0 where
  pub left : Bytes
  pub right : Bytes
  pub parts : left ++ (t ++ right) ≡ s
  pub white_left : All IsWhite left
  pub white_right : All IsWhite right
  pub starts : (c : ℕ) (rest : Bytes) → t ≡ c ∷ rest → is_white c ≡ false
  pub ends : (front : Bytes) (c : ℕ) → t ≡ front ++ (c ∷ []) → is_white c ≡ false

abbrev StartsBlack : Bytes → Type 0
StartsBlack t = (c : ℕ) (rest : Bytes) → t ≡ c ∷ rest → is_white c ≡ false

abbrev EndsBlack : Bytes → Type 0
EndsBlack t = (front : Bytes) (c : ℕ) → t ≡ front ++ (c ∷ []) → is_white c ≡ false

heads : {c d : ℕ} {s t : Bytes} → c ∷ s ≡ d ∷ t → c ≡ d
heads e = cc

EndsBlack-one : {c : ℕ} → is_white c ≡ false → EndsBlack (c ∷ [])
EndsBlack-one b [] d e = subst (λ x. is_white x ≡ false) (heads e) b
EndsBlack-one b (x ∷ []) d e = cc
EndsBlack-one b (x ∷ y ∷ front) d e = cc

EndsBlack-cons : {c : ℕ} {t : Bytes} → EndsBlack t → t ≢ [] → EndsBlack (c ∷ t)
EndsBlack-cons h ne [] d e = absurd (ne cc)
EndsBlack-cons h ne (x ∷ front) d e = h front d cc

found_some : {i : ℕ} (s : Bytes) → find_last_not_white s ≡ some i → take (suc i) s ≢ []
unfolding find_last_not_white
found_some [] e none_left = cc
found_some (x ∷ s) e none_left = cc

-- What the search from the left finds.
abbrev FirstFound : Bytes → Option ℕ → Type 0
FirstFound s none = All IsWhite s
FirstFound s (some i) = All IsWhite (take i s) × StartsBlack (drop i s)

first_found : (s : Bytes) → FirstFound s (find_first_not_white s)
unfolding find_first_not_white
first_found [] = tt
first_found (c ∷ s) = elim (Bool-cases (is_white c)) [
  | inl w ↦ elim (Option-cases (find_first_not_white s)) [
    | inl e ↦ rw (w, e) (w, subst (FirstFound s) e (first_found s))
    | inr (i, e) ↦ let (h, k) = subst (FirstFound s) e (first_found s) in rw (w, e) ((w, h), k)
  ]
  | inr b ↦ rw b (tt, λ d rest e. subst (λ x. is_white x ≡ false) (heads e) b)
]

-- What the search from the right finds.
abbrev LastFound : Bytes → Option ℕ → Type 0
LastFound s none = All IsWhite s
LastFound s (some i) = EndsBlack (take (suc i) s) × All IsWhite (drop (suc i) s)

last_found : (s : Bytes) → LastFound s (find_last_not_white s)
unfolding find_last_not_white
last_found [] = tt
last_found (c ∷ s) = elim (Option-cases (find_last_not_white s)) [
  | inl e ↦ elim (Bool-cases (is_white c)) [
    | inl w ↦ rw (e, w) (w, subst (LastFound s) e (last_found s))
    | inr b ↦ rw (e, b) (EndsBlack-one b, subst (LastFound s) e (last_found s))
  ]
  | inr (i, e) ↦
      let (h, k) = subst (LastFound s) e (last_found s) in
      rw e (EndsBlack-cons h (found_some s e), k)
]

-- White space is taken away on the left, and all of it.
record IsLeft (s t : Bytes) : Type 0 where
  pub left : Bytes
  pub parts : left ++ t ≡ s
  pub white : All IsWhite left
  pub starts : StartsBlack t

trim_left-IsLeft : (s : Bytes) → IsLeft s (trim_left s)
unfolding trim_left
trim_left-IsLeft s = elim (Option-cases (find_first_not_white s)) [
  | inl e ↦
      rw (trim_left, e)
        (record {
          left = s;
          parts = append-nil s;
          white = subst (FirstFound s) e (first_found s);
          starts = λ c rest x. cc;
        })
  | inr (zero, e) ↦
      rw (trim_left, e)
        (record {
          left = [];
          parts = refl;
          white = tt;
          starts = (subst (FirstFound s) e (first_found s)).1;
        })
  | inr (suc i, e) ↦
      let (h, k) = subst (FirstFound s) e (first_found s) in
      let moves : ltb 0 (suc i) ≡ true = ground arith in
      rw (trim_left, e, moves)
        (record {
          left = take (suc i) s;
          parts = take-append-drop (suc i) s;
          white = h;
          starts = k;
        })
]

ends_nil : (front : Bytes) (c : ℕ) → [] ≡ front ++ (c ∷ []) → is_white c ≡ false
ends_nil [] c e = cc
ends_nil (x ∷ front) c e = cc

cut_at :
    (s : Bytes) (i : ℕ) → (if ltb (i + 1) (length s) then take (i + 1) s else s) ≡ take (suc i) s
cut_at s i =
    let n : i + 1 ≡ suc i = omega arith in
    elim (Bool-cases (ltb (i + 1) (length s))) [
      | inl shorter ↦ rw (shorter, n) refl
      | inr whole ↦ rw whole (sym (take-of_le (suc i) s (ground arith)))
    ]

record IsRight (s t : Bytes) : Type 0 where
  pub right : Bytes
  pub parts : t ++ right ≡ s
  pub white : All IsWhite right
  pub ends : EndsBlack t

trim_right-IsRight : (s : Bytes) → IsRight s (trim_right s)
unfolding trim_right
trim_right-IsRight s = elim (Option-cases (find_last_not_white s)) [
  | inl e ↦
      rw (trim_right, e)
        (record {
          right = s;
          parts = refl;
          white = subst (LastFound s) e (last_found s);
          ends = λ front c x. ends_nil front c x;
        })
  | inr (i, e) ↦
      let (h, k) = subst (LastFound s) e (last_found s) in
      rw (trim_right, e, cut_at s i)
        (record { right = drop (suc i) s; parts = take-append-drop (suc i) s; white = k; ends = h })
]

-- Every text is white space, its trimmed form, and white space again, and the trimmed form neither starts
-- nor ends with white space.
pub trim-IsTrimmed : (s : Bytes) → IsTrimmed s (trim s)
unfolding trim
trim-IsTrimmed s =
    let l = trim_left-IsLeft s in
    let r = trim_right-IsRight (trim_left s) in
    record {
      left = l.left;
      right = r.right;
      parts = rw r.parts l.parts;
      white_left = l.white;
      white_right = r.white;
      starts = λ c rest e. l.starts c (rest ++ r.right) (sym r.parts ∙ ap (λ t. t ++ r.right) e);
      ends = r.ends;
    }
