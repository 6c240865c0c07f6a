-- ===== src/Server/Html/Listing.antt =====
-- server/servermodule.cc, sendDirMetaBrowserFriendly: the page as a function of the set of names.
use mathlib.Core.List.{Perm, Permᴰ, append_assoc, append-nil}
use mathlib.Core.Logic.{∥∥₁_elim}
use mathlib.Core.Path.{subst₂}
use native.Mathlib.Nat.{ℕ_set}
use mathlib.Core.List.Permᴰ
use ndnfs_port.Prelude.{
  Bytes, ◌≡◌, refl, sym, ap, subst, ◌∙◌, Bool, not, ◌&&◌, ◌||◌, List, [], ◌∷◌, ◌++◌, codes, eqb,
  eqb_iff, if◌then◌else◌, inl, inr, Bool-cases, arith,
}
use ndnfs_port.Server.Html.{
  Page, parent_link, add_entry, add_entries, add_links, sort, directory_page,
}
use ndnfs_port.Server.Html.Order.{sort-permᴰ}

abbrev is_dot : Bytes → Bool
is_dot name = eqb name (codes ".")

abbrev is_dot_dot : Bytes → Bool
is_dot_dot name = eqb name (codes "..")

-- The names that get a link of their own.
pub linked : List Bytes → List Bytes
linked [] = []
linked (name ∷ rest) = if is_dot name || is_dot_dot name then linked rest else name ∷ linked rest

-- The page's head: a link to the parent for each entry "..", but not in the root.
pub head_of : Bytes → Bytes → List Bytes → Bytes
head_of query_path content [] = content
head_of query_path content (name ∷ rest) =
    head_of query_path
      (if is_dot_dot name && not (eqb query_path (codes "/"))
        then parent_link ++ content
        else content)
      rest

module _ (q : Bytes) where
  add_entry-eq :
      (page : Page) (name : Bytes)
      → add_entry q page name ≡ record {
        content = head_of q page.content (name ∷ []);
        names = page.names ++ linked (name ∷ []);
      }
  unfolding add_entry head_of linked
  add_entry-eq page name =
      ground (arith, append-nil page.names, eqb_iff name (codes "."), eqb_iff name (codes ".."))

  linked_cons :
      (name : Bytes) (rest : List Bytes) → linked (name ∷ rest) ≡ linked (name ∷ []) ++ linked rest
  unfolding linked
  linked_cons name rest = elim (Bool-cases (is_dot name || is_dot_dot name)) [
    | inl e ↦ rw e refl
    | inr e ↦ rw e refl
  ]

  add_entries-eq :
      (found : List Bytes) (page : Page)
      → add_entries q page found
        ≡ record { content = head_of q page.content found; names = page.names ++ linked found }
  unfolding add_entries head_of linked
  add_entries-eq [] page =
      ap (λ (ns : List Bytes). record { content = page.content; names = ns })
        (sym (append-nil page.names))
  add_entries-eq (name ∷ rest) page =
      ap (λ p. add_entries q p rest) (add_entry-eq page name)
      ∙ add_entries-eq rest _
      ∙ ap
          (λ (ns : List Bytes). record {
            content = head_of q page.content (name ∷ rest);
            names = ns;
          })
          (append_assoc page.names _ _ ∙ ap (λ t. page.names ++ t) (sym (linked_cons name rest)))

  -- The head with one more entry.
  abbrev with_entry : Bytes → Bytes → Bytes
  with_entry name content =
      if is_dot_dot name && not (eqb q (codes "/")) then parent_link ++ content else content

  with_entry_comm :
      (a b content : Bytes)
      → with_entry a (with_entry b content) ≡ with_entry b (with_entry a content)
  with_entry_comm a b content = elim (Bool-cases (is_dot_dot a && not (eqb q (codes "/")))) [
    | inl e ↦ elim (Bool-cases (is_dot_dot b && not (eqb q (codes "/")))) [
      | inl f ↦ rw (e, f) refl
      | inr f ↦ rw (e, f) refl
    ]
    | inr e ↦ rw e refl
  ]

  head_of-permᴰ :
      {xs ys : List Bytes} (content : Bytes)
      → Permᴰ xs ys
      → head_of q content xs ≡ head_of q content ys
  unfolding head_of
  head_of-permᴰ content Permᴰ.nil = refl
  head_of-permᴰ content (Permᴰ.cons {a} {b} {l₁} {l₂} e p) =
      ap (λ x. head_of q (with_entry x content) l₁) e ∙ head_of-permᴰ (with_entry b content) p
  head_of-permᴰ content (Permᴰ.swap {a} {b} {a'} {b'} {l} e f) =
      ap (λ c. head_of q c l)
        (with_entry_comm b a content
          ∙ ap (λ x. with_entry x (with_entry b content)) e
          ∙ ap (λ x. with_entry b' (with_entry x content)) f)
  head_of-permᴰ content (Permᴰ.trans p r) = head_of-permᴰ content p ∙ head_of-permᴰ content r

linked_cons-permᴰ :
    (a : Bytes) (xs ys : List Bytes)
    → Permᴰ (linked xs) (linked ys)
    → Permᴰ (linked (a ∷ xs)) (linked (a ∷ ys))
unfolding linked
linked_cons-permᴰ a xs ys p = elim (Bool-cases (is_dot a || is_dot_dot a)) [
  | inl e ↦ rw (e, linked) p
  | inr e ↦ rw (e, linked) (Permᴰ.cons refl p)
]

linked_swap-permᴰ : (a b : Bytes) (l : List Bytes) → Permᴰ (linked (a ∷ b ∷ l)) (linked (b ∷ a ∷ l))
unfolding linked
linked_swap-permᴰ a b l = elim (Bool-cases (is_dot a || is_dot_dot a)) [
  | inl e ↦ rw (e, linked) (Permᴰ.refl _)
  | inr e ↦ elim (Bool-cases (is_dot b || is_dot_dot b)) [
    | inl f ↦ rw (e, f, linked) (Permᴰ.refl _)
    | inr f ↦ rw (e, f, linked) (Permᴰ.swap refl refl)
  ]
]

linked-permᴰ : {xs ys : List Bytes} → Permᴰ xs ys → Permᴰ (linked xs) (linked ys)
unfolding linked
linked-permᴰ Permᴰ.nil = Permᴰ.nil
linked-permᴰ (Permᴰ.cons {a} {b} {l₁} {l₂} e p) =
    subst (λ x. Permᴰ (linked (a ∷ l₁)) (linked (x ∷ l₂))) e
      (linked_cons-permᴰ a l₁ l₂ (linked-permᴰ p))
linked-permᴰ (Permᴰ.swap {a} {b} {a'} {b'} {l} e f) =
    subst₂ (λ x y. Permᴰ (linked (a ∷ b ∷ l)) (linked (y ∷ x ∷ l))) e f (linked_swap-permᴰ a b l)
linked-permᴰ (Permᴰ.trans p r) = Permᴰ.trans (linked-permᴰ p) (linked-permᴰ r)

pub directory_page-eq :
    (q : Bytes) (found : List Bytes)
    → directory_page q found
      ≡ add_links (head_of q (codes "<html><body>") found) (sort (linked found))
        ++ codes "</body></html>"
unfolding directory_page
directory_page-eq q found =
    ap (λ (p : Page). add_links p.content (sort p.names) ++ codes "</body></html>")
      (add_entries-eq q found _)

-- The page does not depend on the order in which readdir gives the entries.
pub directory_page-perm :
    (q : Bytes) {xs ys : List Bytes} → Perm xs ys → directory_page q xs ≡ directory_page q ys
directory_page-perm q {xs} {ys} p = ∥∥₁_elim p (hlevel ℕ_set) (λ d.
    directory_page-eq q xs
    ∙ ap (λ ns. add_links (head_of q (codes "<html><body>") xs) ns ++ codes "</body></html>")
        (sort-permᴰ (linked-permᴰ d))
    ∙ ap (λ h. add_links h (sort (linked ys)) ++ codes "</body></html>")
        (head_of-permᴰ q (codes "<html><body>") d)
    ∙ sym (directory_page-eq q ys))
