-- ===== src/Server/Html/Order.antt =====
-- server/servermodule.cc: std::sort of the names of a directory, by the order of std::string.
use mathlib.Core.List.{Perm, Permᴰ}
use mathlib.Core.List.Perm
use ndnfs_port.Prelude.{
  Bytes, ◌≡◌, refl, sym, ap, ◌∙◌, true, false, List, [], ◌∷◌, arith, inl, inr, ◌⊎◌, Bool-cases,
}
use ndnfs_port.Server.Html.{leb_bytes, insert_sorted, sort}

pub leb_total : (a b : Bytes) → (leb_bytes a b ≡ true) ⊎ (leb_bytes b a ≡ true)
unfolding leb_bytes
leb_total [] b = inl refl
leb_total (x ∷ a) [] = inr refl
leb_total (x ∷ a) (y ∷ b) = elim (leb_total a b) [
  | inl e ↦ ground (arith, e)
  | inr e ↦ ground (arith, e)
]

pub leb_antisymm : (a b : Bytes) → leb_bytes a b ≡ true → leb_bytes b a ≡ true → a ≡ b
unfolding leb_bytes
leb_antisymm [] [] h g = refl
leb_antisymm [] (y ∷ b) h g = cc
leb_antisymm (x ∷ a) [] h g = cc
leb_antisymm (x ∷ a) (y ∷ b) h g = ground (arith, leb_antisymm a b)

pub leb_trans : (a b c : Bytes) → leb_bytes a b ≡ true → leb_bytes b c ≡ true → leb_bytes a c ≡ true
unfolding leb_bytes
leb_trans [] b c h g = refl
leb_trans (x ∷ a) [] c h g = cc
leb_trans (x ∷ a) (y ∷ b) [] h g = cc
leb_trans (x ∷ a) (y ∷ b) (z ∷ c) h g = ground (arith, leb_trans a b c)

-- `x` is not above any of the names.
abbrev pub IsBelow : Bytes → List Bytes → Type 0
IsBelow x [] = Unit
IsBelow x (y ∷ ys) = (leb_bytes x y ≡ true) × IsBelow x ys

abbrev pub IsSorted : List Bytes → Type 0
IsSorted [] = Unit
IsSorted (x ∷ xs) = IsBelow x xs × IsSorted xs

IsBelow-trans : (x y : Bytes) (zs : List Bytes) → leb_bytes x y ≡ true → IsBelow y zs → IsBelow x zs
IsBelow-trans x y [] h b = tt
IsBelow-trans x y (z ∷ zs) h (p, b) = (leb_trans x y z h p, IsBelow-trans x y zs h b)

IsBelow-insert_sorted :
    (z x : Bytes) (ys : List Bytes)
    → leb_bytes z x ≡ true
    → IsBelow z ys
    → IsBelow z (insert_sorted x ys)
unfolding insert_sorted
IsBelow-insert_sorted z x [] h b = (h, tt)
IsBelow-insert_sorted z x (y ∷ ys) h (p, b) = elim (Bool-cases (leb_bytes x y)) [
  | inl e ↦ rw (e, insert_sorted) (h, (p, b))
  | inr e ↦ rw (e, insert_sorted) (p, IsBelow-insert_sorted z x ys h b)
]

above : (x y : Bytes) → leb_bytes x y ≡ false → leb_bytes y x ≡ true
above x y e = elim (leb_total x y) [ inl t ↦ cc | inr t ↦ t ]

insert_sorted-IsSorted : (x : Bytes) (ys : List Bytes) → IsSorted ys → IsSorted (insert_sorted x ys)
unfolding insert_sorted
insert_sorted-IsSorted x [] s = (tt, tt)
insert_sorted-IsSorted x (y ∷ ys) (b, s) = elim (Bool-cases (leb_bytes x y)) [
  | inl e ↦ rw (e, insert_sorted) ((e, IsBelow-trans x y ys e b), (b, s))
  | inr e ↦
      rw (e, insert_sorted)
        (IsBelow-insert_sorted y x ys (above x y e) b, insert_sorted-IsSorted x ys s)
]

insert_sorted-perm : (x : Bytes) (ys : List Bytes) → Perm (insert_sorted x ys) (x ∷ ys)
unfolding insert_sorted
insert_sorted-perm x [] = Perm.rfl
insert_sorted-perm x (y ∷ ys) = elim (Bool-cases (leb_bytes x y)) [
  | inl e ↦ rw (e, insert_sorted) Perm.rfl
  | inr e ↦
      rw (e, insert_sorted) (Perm.trans (Perm.cons y (insert_sorted-perm x ys)) (Perm.swap x y ys))
]

-- Sorting the names of a directory gives them all, each as often as it was there, in ascending order.
pub sort-IsSorted : (xs : List Bytes) → IsSorted (sort xs) × Perm (sort xs) xs
unfolding sort
sort-IsSorted [] = (tt, Perm.rfl)
sort-IsSorted (x ∷ xs) =
    let (s, p) = sort-IsSorted xs in
    (
      insert_sorted-IsSorted x (sort xs) s,
      Perm.trans (insert_sorted-perm x (sort xs)) (Perm.cons x p),
    )

insert-le :
    (x y : Bytes) (ys : List Bytes) → leb_bytes x y ≡ true → insert_sorted x (y ∷ ys) ≡ x ∷ (y ∷ ys)
unfolding insert_sorted
insert-le x y ys e = rw e refl

insert-gt :
    (x y : Bytes) (ys : List Bytes)
    → leb_bytes x y ≡ false
    → insert_sorted x (y ∷ ys) ≡ y ∷ insert_sorted x ys
unfolding insert_sorted
insert-gt x y ys e = rw e refl

insert-nil : (x : Bytes) → insert_sorted x [] ≡ x ∷ []
unfolding insert_sorted
insert-nil x = refl

comm_front :
    (x y : Bytes) (zs : List Bytes)
    → insert_sorted x zs ≡ x ∷ zs
    → insert_sorted y zs ≡ y ∷ zs
    → insert_sorted x (insert_sorted y zs) ≡ insert_sorted y (insert_sorted x zs)
comm_front x y zs hx hy = elim (Bool-cases (leb_bytes x y)) [
  | inl e ↦ elim (Bool-cases (leb_bytes y x)) [
    | inl f ↦
        ap (λ z. insert_sorted z (insert_sorted y zs)) (leb_antisymm x y e f)
        ∙ ap (λ z. insert_sorted y (insert_sorted z zs)) (sym (leb_antisymm x y e f))
    | inr f ↦
        ap (insert_sorted x) hy
        ∙ insert-le x y zs e
        ∙ ap (λ t. x ∷ t) (sym hy)
        ∙ sym (insert-gt y x zs f)
        ∙ ap (insert_sorted y) (sym hx)
  ]
  | inr e ↦
      ap (insert_sorted x) hy
      ∙ insert-gt x y zs e
      ∙ ap (λ t. y ∷ t) hx
      ∙ sym (insert-le y x zs (above x y e))
      ∙ ap (insert_sorted y) (sym hx)
]

comm_across :
    (x y z : Bytes) (zs : List Bytes)
    → leb_bytes x z ≡ true
    → leb_bytes y z ≡ false
    → insert_sorted x (insert_sorted y (z ∷ zs)) ≡ insert_sorted y (insert_sorted x (z ∷ zs))
comm_across x y z zs e f =
    let g : leb_bytes y x ≡ false = elim (Bool-cases (leb_bytes y x)) [
      | inl t ↦ let u = leb_trans y x z t e in cc
      | inr t ↦ t
    ] in
    ap (insert_sorted x) (insert-gt y z zs f)
    ∙ insert-le x z (insert_sorted y zs) e
    ∙ ap (λ t. x ∷ t) (sym (insert-gt y z zs f))
    ∙ sym (insert-gt y x (z ∷ zs) g)
    ∙ ap (insert_sorted y) (sym (insert-le x z zs e))

insert_sorted_comm :
    (x y : Bytes) (zs : List Bytes)
    → insert_sorted x (insert_sorted y zs) ≡ insert_sorted y (insert_sorted x zs)
insert_sorted_comm x y [] = comm_front x y [] (insert-nil x) (insert-nil y)
insert_sorted_comm x y (z ∷ zs) = elim (Bool-cases (leb_bytes x z)) [
  | inl e ↦ elim (Bool-cases (leb_bytes y z)) [
    | inl f ↦ comm_front x y (z ∷ zs) (insert-le x z zs e) (insert-le y z zs f)
    | inr f ↦ comm_across x y z zs e f
  ]
  | inr e ↦ elim (Bool-cases (leb_bytes y z)) [
    | inl f ↦ sym (comm_across y x z zs f e)
    | inr f ↦
        ap (insert_sorted x) (insert-gt y z zs f)
        ∙ insert-gt x z (insert_sorted y zs) e
        ∙ ap (λ t. z ∷ t) (insert_sorted_comm x y zs)
        ∙ sym (insert-gt y z (insert_sorted x zs) f)
        ∙ ap (insert_sorted y) (sym (insert-gt x z zs e))
  ]
]

-- The order in which the names came does not matter.
pub sort-permᴰ : {xs ys : List Bytes} → Permᴰ xs ys → sort xs ≡ sort ys
unfolding sort
sort-permᴰ Permᴰ.nil = refl
sort-permᴰ (Permᴰ.cons {a} {b} {l₁} {l₂} e p) =
    ap (λ x. insert_sorted x (sort l₁)) e ∙ ap (insert_sorted b) (sort-permᴰ p)
sort-permᴰ (Permᴰ.swap {a} {b} {a'} {b'} {l} e f) =
    insert_sorted_comm a b (sort l)
    ∙ ap (λ x. insert_sorted x (insert_sorted a (sort l))) f
    ∙ ap (λ x. insert_sorted a' (insert_sorted x (sort l))) e
sort-permᴰ (Permᴰ.trans p q) = sort-permᴰ p ∙ sort-permᴰ q
