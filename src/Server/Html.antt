-- ===== src/Server/Html.antt =====
-- server/servermodule.cc: the page that sendDirMetaBrowserFriendly makes of a directory.
pub mod Order
pub mod Listing
pub mod Folder
use ndnfs_port.Prelude.{
  ◌-◌, Bytes, Bool, true, false, not, ◌&&◌, List, [], ◌∷◌, ◌++◌, length, drop, codes, eqb, ltb,
  ◌==◌, if◌then◌else◌,
}

-- `fullString` ends with `ending`.
unfoldable pub has_ending : Bytes → Bytes → Bool
has_ending full ending =
    if ltb (length full) (length ending)
    then false
    else eqb (drop (length full - length ending) full) ending

-- The order of `std::string`, byte by byte.
unfoldable pub leb_bytes : Bytes → Bytes → Bool
leb_bytes [] bs = true
leb_bytes (a ∷ r) [] = false
leb_bytes (a ∷ r) (b ∷ bs) = if ltb a b then true else (a == b) && leb_bytes r bs

-- std::sort of strings, whose result is one list whichever way it is made.
pub insert_sorted : Bytes → List Bytes → List Bytes
insert_sorted x [] = x ∷ []
insert_sorted x (y ∷ ys) = if leb_bytes x y then x ∷ (y ∷ ys) else y ∷ insert_sorted x ys

pub sort : List Bytes → List Bytes
unfolding insert_sorted leb_bytes
sort [] = []
sort (x ∷ xs) = insert_sorted x (sort xs)

-- The text so far and the names met, through the loop of readdir.
pub record Page : Type 0 where
  pub content : Bytes
  pub names : List Bytes

pub parent_link : Bytes
unfolding codes
parent_link = codes "<a href=\"../\">[Parent directory]</a><br>"

-- One entry: "." is passed over, ".." becomes a link in front of the page except at the root.
pub add_entry : Bytes → Page → Bytes → Page
unfolding codes eqb parent_link
add_entry query_path page name =
    if not (eqb name (codes "."))
    then (if eqb name (codes "..")
        then (if not (eqb query_path (codes "/"))
            then record page { content = parent_link ++ page.content }
            else page)
        else record page { names = page.names ++ (name ∷ []) })
    else page

pub add_entries : Bytes → Page → List Bytes → Page
unfolding add_entry
add_entries query_path page [] = page
add_entries query_path page (name ∷ rest) =
    add_entries query_path (add_entry query_path page name) rest

pub entry_link : Bytes → Bytes
unfolding codes
entry_link name =
    codes "<a download=\""
    ++ (name ++ (codes "\" href=\"./" ++ (name ++ (codes "\">" ++ (name ++ codes "</a><br>")))))

pub add_links : Bytes → List Bytes → Bytes
unfolding entry_link
add_links content [] = content
add_links content (name ∷ rest) = add_links (content ++ entry_link name) rest

-- The whole page of the entries that readdir gives.
unfoldable pub directory_page : Bytes → List Bytes → Bytes
unfolding add_entries add_links sort codes
directory_page query_path found =
    let page =
      add_entries query_path (record { content = codes "<html><body>"; names = [] }) found in
    add_links page.content (sort page.names) ++ codes "</body></html>"
