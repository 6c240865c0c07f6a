-- ===== src/Fs/Segment/Escape.antt =====
-- fs/segment.cc: the loop that turns "%2F" back into "/" ends, and does in many passes over the text
-- what one pass does.
use mathlib.Core.Option
use ndnfs_port.Prelude.{
  ℕ, zero, suc, ◌+◌, ◌≤◌, ◌<◌, Bytes, ◌≡◌, refl, sym, ap, ◌∙◌, inl, inr, true, false, Option, none,
  some, [], ◌∷◌, ◌++◌, length, length-append, length-take, length-drop, take, drop, arith, codes,
  eqb, Bool-cases, Option-cases,
}
use ndnfs_port.Fs.Segment.{is_escaped_slash, find_escaped_slash, unescape_loop, unescape_slashes}

is_escaped_slash_inv : (s : Bytes) → is_escaped_slash s ≡ true → s ≡ b'%' ∷ b'2' ∷ b'F' ∷ drop 3 s
unfolding eqb codes
is_escaped_slash_inv [] h = cc
is_escaped_slash_inv (a ∷ []) h = ground arith
is_escaped_slash_inv (a ∷ b ∷ []) h = ground arith
is_escaped_slash_inv (a ∷ b ∷ c ∷ s) h = ground arith

is_escaped_slash-le : (s : Bytes) → is_escaped_slash s ≡ true → 3 ≤ length s
is_escaped_slash-le s h = rw (is_escaped_slash_inv s h) (omega arith)

-- Where the search goes on, it goes on behind the first byte.
find-cons :
    (c : ℕ) (s : Bytes)
    → is_escaped_slash (c ∷ s) ≡ false
    → find_escaped_slash (c ∷ s) ≡ Option.map suc (find_escaped_slash s)
unfolding find_escaped_slash
find-cons c s h = rw (h, find_escaped_slash)

find-here :
    (c : ℕ) (s : Bytes) → is_escaped_slash (c ∷ s) ≡ true → find_escaped_slash (c ∷ s) ≡ some 0
unfolding find_escaped_slash
find-here c s h = rw (h, find_escaped_slash)

map-suc_inv :
    (o : Option ℕ) {i : ℕ} → Option.map suc o ≡ some i → (j : ℕ) × (o ≡ some j) × (i ≡ suc j)
map-suc_inv none h = cc
map-suc_inv (some j) h = (j, refl, ground arith)

find_escaped_slash-le : (s : Bytes) (i : ℕ) → find_escaped_slash s ≡ some i → i + 3 ≤ length s
find_escaped_slash-le [] i h = unfold find_escaped_slash in cc
find_escaped_slash-le (c ∷ s) i h = elim (Bool-cases (is_escaped_slash (c ∷ s))) [
  | inl e ↦ omega (arith, is_escaped_slash-le (c ∷ s) e, zero_of e)
  | inr e ↦
      later (map-suc_inv (find_escaped_slash s) (rw (find-cons c s e) at h))
        (find_escaped_slash-le s)
]
  where
    zero_of : is_escaped_slash (c ∷ s) ≡ true → i ≡ 0
    zero_of e = ground (arith, find-here c s e)

    later :
        (j : ℕ) × (find_escaped_slash s ≡ some j) × (i ≡ suc j)
        → ((k : ℕ) → find_escaped_slash s ≡ some k → k + 3 ≤ length s)
        → i + 3 ≤ suc (length s)
    later (j, f, e) ih = omega (arith, ih j f)

-- One pass from left to right.
pub unescape : Bytes → Bytes
unescape (a ∷ b ∷ c ∷ s) = elim (is_escaped_slash (a ∷ b ∷ c ∷ s)) [
  | true ↦ b'/' ∷ unescape s
  | false ↦ a ∷ unescape (b ∷ c ∷ s)
]
unescape s = s

-- The text after one round of the loop.
abbrev after_round : Bytes → ℕ → Bytes
after_round s i = take i s ++ (b'/' ∷ drop (i + 3) s)

length-after_round :
    (s : Bytes) (i : ℕ) → i + 3 ≤ length s → length (after_round s i) + 2 ≡ length s
length-after_round s i h = rw length-append (omega (arith, length-take i s, length-drop (i + 3) s))

loop-done : (f : ℕ) (s : Bytes) → find_escaped_slash s ≡ none → unescape_loop (suc f) s ≡ some s
unfolding unescape_loop
loop-done f s e = rw (e, unescape_loop)

loop-round :
    (f : ℕ) (s : Bytes) (i : ℕ)
    → find_escaped_slash s ≡ some i
    → unescape_loop (suc f) s ≡ unescape_loop f (after_round s i)
unfolding unescape_loop
loop-round f s i e = rw (e, unescape_loop)

unescape_loop_total :
    (fuel : ℕ) (s : Bytes)
    → length s < fuel
    → (t : Bytes) × (unescape_loop fuel s ≡ some t) × (find_escaped_slash t ≡ none)
unescape_loop_total zero s h = absurd (omega arith)
unescape_loop_total (suc fuel) s h = elim (Option-cases (find_escaped_slash s)) [
  | inl e ↦ (s, loop-done fuel s e, e)
  | inr (i, e) ↦
      let le : i + 3 ≤ length s = find_escaped_slash-le s i e in
      let (t, p, q) =
        unescape_loop_total fuel (after_round s i) (omega (arith, length-after_round s i le)) in
      (t, loop-round fuel s i e ∙ p, q)
]

unescape-cons :
    (c : ℕ) (s : Bytes) → is_escaped_slash (c ∷ s) ≡ false → unescape (c ∷ s) ≡ c ∷ unescape s
unfolding unescape
unescape-cons c [] h = refl
unescape-cons c (b ∷ []) h = refl
unescape-cons c (b ∷ d ∷ s) h = rw (h, unescape)

unescape-here :
    (c : ℕ) (s : Bytes)
    → is_escaped_slash (c ∷ s) ≡ true
    → unescape (c ∷ s) ≡ b'/' ∷ unescape (drop 2 s)
unfolding unescape eqb codes
unescape-here c [] h = ground arith
unescape-here c (b ∷ []) h = ground arith
unescape-here c (b ∷ d ∷ s) h = rw (h, unescape)

-- The slash that a round puts in begins or continues no new "%2F".
no_new_match :
    (c : ℕ) (s : Bytes) (i : ℕ)
    → is_escaped_slash (c ∷ s) ≡ false
    → i + 3 ≤ length s
    → is_escaped_slash (c ∷ after_round s i) ≡ false
unfolding eqb codes
no_new_match c s zero h le = ground arith
no_new_match c [] (suc i) h le = absurd (omega arith)
no_new_match c (b ∷ s) (suc zero) h le = ground arith
no_new_match c (b ∷ []) (suc (suc i)) h le = absurd (omega arith)
no_new_match c (b ∷ d ∷ s) (suc (suc i)) h le = ground arith

slash_starts_none : (s : Bytes) → is_escaped_slash (b'/' ∷ s) ≡ false
unfolding eqb codes
slash_starts_none s = refl

after_round-suc : (c : ℕ) (s : Bytes) (j : ℕ) → after_round (c ∷ s) (suc j) ≡ c ∷ after_round s j
after_round-suc c s j = let e : suc j + 3 ≡ suc (j + 3) = omega arith in rw e

unescape-after_round :
    (s : Bytes) (i : ℕ) → find_escaped_slash s ≡ some i → unescape (after_round s i) ≡ unescape s
unescape-after_round [] i h = unfold find_escaped_slash in cc
unescape-after_round (c ∷ s) i h = elim (Bool-cases (is_escaped_slash (c ∷ s))) [
  | inl e ↦ at_front e
  | inr e ↦
      behind e (map-suc_inv (find_escaped_slash s) (rw (find-cons c s e) at h))
        (unescape-after_round s)
]
  where
    at_front : is_escaped_slash (c ∷ s) ≡ true → unescape (after_round (c ∷ s) i) ≡ unescape (c ∷ s)
    at_front e =
        let z : i ≡ 0 = ground (arith, find-here c s e) in
        rw z
          (rw (unescape-here c s e) (unescape-cons b'/' (drop 2 s) (slash_starts_none (drop 2 s))))

    behind :
        is_escaped_slash (c ∷ s) ≡ false
        → (j : ℕ) × (find_escaped_slash s ≡ some j) × (i ≡ suc j)
        → ((k : ℕ) → find_escaped_slash s ≡ some k → unescape (after_round s k) ≡ unescape s)
        → unescape (after_round (c ∷ s) i) ≡ unescape (c ∷ s)
    behind e (j, f, z) ih =
        rw (z, after_round-suc c s j)
          (unescape-cons c (after_round s j) (no_new_match c s j e (find_escaped_slash-le s j f))
            ∙ ap (λ (r : Bytes). c ∷ r) (ih j f)
            ∙ sym (unescape-cons c s e))

unescape-of_none : (s : Bytes) → find_escaped_slash s ≡ none → unescape s ≡ s
unescape-of_none [] h = unfold unescape in refl
unescape-of_none (c ∷ s) h = elim (Bool-cases (is_escaped_slash (c ∷ s))) [
  | inl e ↦ absurd (impossible e)
  | inr e ↦ unescape-cons c s e ∙ ap (λ (r : Bytes). c ∷ r) (unescape-of_none s (none_of e))
]
  where
    impossible : is_escaped_slash (c ∷ s) ≡ true → ⊥
    impossible e = cc (find-here c s e)

    none_of : is_escaped_slash (c ∷ s) ≡ false → find_escaped_slash s ≡ none
    none_of e = ground (arith, find-cons c s e)

loop-eq-unescape : (fuel : ℕ) (s t : Bytes) → unescape_loop fuel s ≡ some t → t ≡ unescape s
loop-eq-unescape zero s t h = unfold unescape_loop in cc
loop-eq-unescape (suc fuel) s t h = elim (Option-cases (find_escaped_slash s)) [
  | inl e ↦ rw (unescape-of_none s e) (ground (arith, loop-done fuel s e))
  | inr (i, e) ↦
      loop-eq-unescape fuel (after_round s i) t (sym (loop-round fuel s i e) ∙ h)
      ∙ unescape-after_round s i e
]

-- For every text the loop ends within its bound, its result is what one pass from left to right gives,
-- and no "%2F" is left in it.
pub unescape_slashes_lem :
    (s : Bytes)
    → (unescape_slashes s ≡ some (unescape s)) × (find_escaped_slash (unescape s) ≡ none)
unfolding unescape_slashes
unescape_slashes_lem s =
    let (t, p, q) = unescape_loop_total (suc (length s)) s (omega arith) in
    let e : t ≡ unescape s = loop-eq-unescape (suc (length s)) s t p in (p ∙ ap some e, rw e at q)
