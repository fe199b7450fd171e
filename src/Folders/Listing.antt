-- ===== src/Folders/Listing.antt =====
-- The listings of src/name_server/search.c: `search_get_file_list` and `search_get_files_in_folder`
-- behind the refresh of the metadata for `-l`. How a line looks is an argument.
use collaborative_doc.Prelude.{
  ℕ, ◌+◌, Bool, true, false, ◌&&◌, ◌||◌, Option, none, some, List, [], ◌∷◌, ◌++◌, if◌then◌else◌,
  leb, ltb, ◌==◌, Text, text_eq, strncpy, length, drop, map,
}
use collaborative_doc.Acl.{acl_allows, perm_read}
use collaborative_doc.Trie.{Trie, null, node, for_each, trie_char_set_size}
use collaborative_doc.Search.{FileRecord}
use collaborative_doc.Folders.{FolderRecord}
use collaborative_doc.Folders.Move.{starts_with}

-- With `-a` every file is listed.
abbrev pub has_permission : Bool → Text → FileRecord → Bool
has_permission all username r =
    all || (text_eq r.owner_username username || acl_allows username perm_read r.acl)

abbrev pub is_listed : Bool → Text → Text → FileRecord → Bool
is_listed all username folder r = text_eq r.folder folder && has_permission all username r

abbrev pub if_listed : (FileRecord → Bool) → Option FileRecord → List FileRecord
if_listed test none = []
if_listed test (some r) = if test r then r ∷ [] else []

-- The walk with a stack: a node is taken from it and its children are put there, so that the last
-- one comes next.
unfoldable pub listed_files : (FileRecord → Bool) → Trie FileRecord → List FileRecord
listed_files test null = []
listed_files test (node info below) =
    if_listed test info
    ++ for_each trie_char_set_size (λ i files. listed_files test (below i) ++ files) []

unfoldable pub has_slash : Text → Bool
has_slash [] = false
has_slash (c ∷ s) = (c == b'/') || has_slash s

-- What a folder right below the listed one is called there.
abbrev pub subfolder : Text → Text → Option Text
subfolder [] name = if has_slash name then none else some name
subfolder (c ∷ folder) name =
    let prefix = strncpy 255 ((c ∷ folder) ++ b'/' ∷ []) in
    let rest = drop (length prefix) name in
    if starts_with name prefix && (if has_slash rest then false else true) then some rest else none

unfoldable pub subfolders : Text → List FolderRecord → List (Text × Text)
subfolders folder [] = []
subfolders folder (r ∷ rs) =
    let rest = subfolders folder rs in
    elim (subfolder folder r.foldername) [
      | none ↦ rest
      | some name ↦ (name, r.owner_username) ∷ rest
    ]

-- The first line that does not fit ends the listing.
unfoldable pub until_full : ℕ → Text → List Text → Text
until_full size out [] = out
until_full size out (row ∷ rows) =
    let rest = until_full size (out ++ row) rows in
    if leb size (length out + length row) then out else rest

-- A line that does not fit is left out.
unfoldable pub where_fitting : ℕ → Text → List Text → Text
where_fitting size out [] = out
where_fitting size out (row ∷ rows) =
    let more = where_fitting size (out ++ row) rows in
    let less = where_fitting size out rows in
    if ltb (length out + length row) size then more else less

module _ (folder_row : Text → Text → Text) (file_row : FileRecord → Text) where
  abbrev pub rows : Bool → Text → Text → List FolderRecord → Trie FileRecord → List Text
  rows all username folder folders root =
      map (λ f. folder_row f.0 f.1) (subfolders folder folders)
      ++ map file_row (listed_files (is_listed all username folder) root)

  unfoldable pub search_get_file_list : Bool → Text → ℕ → List FolderRecord → Trie FileRecord → Text
  search_get_file_list all username buffer_size folders root =
      until_full buffer_size [] (rows all username [] folders root)

  unfoldable pub search_get_files_in_folder :
      Text → Bool → Text → ℕ → List FolderRecord → Trie FileRecord → Text
  search_get_files_in_folder folder all username buffer_size folders root =
      where_fitting buffer_size [] (rows all username folder folders root)
