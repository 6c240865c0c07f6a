-- ===== src/Client/Console/Words.antt =====
-- test/console-handling.h, split: the words of a line.
use mathlib.Core.List.{append-nil, append_assoc}
use ndnfs_port.Prelude.{
  ℕ, Bytes, true, false, ◌≡◌, ◌≢◌, refl, sym, ap, ◌∙◌, List, [], ◌∷◌, ◌++◌, ◌==◌, eqb, All, arith,
}
use ndnfs_port.Client.Console.{split_from, split}

-- Items with the delimiter between them.
abbrev pub join : ℕ → List Bytes → Bytes
join delim [] = []
join delim (w ∷ []) = w
join delim (w ∷ v ∷ ws) = w ++ (delim ∷ join delim (v ∷ ws))

abbrev pub IsFreeOf : ℕ → Bytes → Type 0
IsFreeOf delim w = All (λ c. (c == delim) ≡ false) w

-- An empty last item could not be told from none.
abbrev pub EndsFull : List Bytes → Type 0
EndsFull [] = Unit
EndsFull (w ∷ []) = w ≢ []
EndsFull (w ∷ v ∷ ws) = EndsFull (v ∷ ws)

split_from-delim :
    (item : Bytes) (delim : ℕ) (w s : Bytes)
    → IsFreeOf delim w
    → split_from item delim (w ++ (delim ∷ s)) ≡ (item ++ w) ∷ split_from [] delim s
unfolding split_from
split_from-delim item delim [] s h =
    let e : (delim == delim) ≡ true = ground arith in rw (e, append-nil item) refl
split_from-delim item delim (c ∷ w) s (other, h) =
    rw other
      (split_from-delim (item ++ (c ∷ [])) delim w s h ∙ rw (append_assoc item (c ∷ []) w) refl)

split_from-end :
    (item : Bytes) (delim : ℕ) (w : Bytes)
    → IsFreeOf delim w
    → item ++ w ≢ []
    → split_from item delim w ≡ (item ++ w) ∷ []
unfolding split_from eqb
split_from-end [] delim [] h full = absurd (full refl)
split_from-end (x ∷ item) delim [] h full = rw (append-nil item) refl
split_from-end item delim (c ∷ w) (other, h) full =
    let e : (item ++ (c ∷ [])) ++ w ≡ item ++ (c ∷ w) = append_assoc item (c ∷ []) w in
    rw other
      (split_from-end (item ++ (c ∷ [])) delim w h (λ empty. full (sym e ∙ empty)) ∙ rw e refl)

-- Items without the delimiter, of which the last is not empty, are found again in the text that has them
-- with the delimiter between them.
pub split-join :
    (delim : ℕ) (ws : List Bytes)
    → All (IsFreeOf delim) ws
    → EndsFull ws
    → split (join delim ws) delim ≡ ws
unfolding split split_from eqb
split-join delim [] h full = refl
split-join delim (w ∷ []) (free, _) full = split_from-end [] delim w free full
split-join delim (w ∷ v ∷ ws) (free, h) full =
    split_from-delim [] delim w (join delim (v ∷ ws)) free
    ∙ ap (λ rest. w ∷ rest) (split-join delim (v ∷ ws) h full)
