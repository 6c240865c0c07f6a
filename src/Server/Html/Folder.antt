-- ===== src/Server/Html/Folder.antt =====
-- server/servermodule.cc, sendDirMetaBrowserFriendly: directories without an order of their entries.
use mathlib.Core.List.{Perm, is_set}
use mathlib.Core.Path.{fun_ext}
use mathlib.Core.HLevel.{Σ_prop_path}
use mathlib.Core.Quot
use mathlib.Core.Quot.{Quot}
use native.Mathlib.Nat.{ℕ_set}
use ndnfs_port.Prelude.{Bytes, ◌≡◌, sym, refl, List}
use ndnfs_port.Server.Html.{directory_page}
use ndnfs_port.Server.Html.Listing.{directory_page-perm}

-- The names in a directory, each as often as readdir gives it, in no order.
abbrev pub Folder : Type 0
Folder = Quot {α = List Bytes} Perm

Bytes-set : IsSet Bytes
Bytes-set = is_set ℕ_set

module _ (query_path : Bytes) where
  -- A page for each directory that is the page of any listing of it.
  abbrev pub ShowsFolder : (Folder → Bytes) → Type 0
  ShowsFolder page = (found : List Bytes) → page (Quot.mk found) ≡ directory_page query_path found

  pub folder_page : Folder → Bytes
  folder_page =
      Quot.lift Bytes-set (directory_page query_path) (λ xs ys. directory_page-perm query_path)

  folder_page_unique : (page : Folder → Bytes) → ShowsFolder page → folder_page ≡ page
  unfolding folder_page
  folder_page_unique page shows =
      fun_ext (Quot.ind (λ d. Bytes-set _ _) (λ found. sym (shows found)))

  -- The page is a function of the directory, in which the entries have no order, and there is one
  -- such function only: the functions of directories that give the page of each listing are a
  -- contractible type.
  pub directory_page-contractible :
      (shown : (page : Folder → Bytes) × ShowsFolder page) × ((other : (page : Folder → Bytes)
          × ShowsFolder page)
        → shown ≡ other)
  unfolding folder_page
  directory_page-contractible = (
    (folder_page, λ found. refl),
    λ (page, shows). Σ_prop_path (λ p. hlevel) (folder_page_unique page shows),
  )
