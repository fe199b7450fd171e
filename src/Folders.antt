-- ===== src/Folders.antt =====
-- The folders of src/name_server/search.c: the registry of folders, and the folder of a file.
-- `folder_registry` up to `folder_count` is a list. Folders/Move has the move of a folder with its
-- files, Folders/Listing the listings.
pub mod Laws
pub mod Files
pub mod Move
pub mod Moves
pub mod Listing
pub mod Listed
use collaborative_doc.Prelude.{
  ℕ, ◌-◌, Bool, true, false, Option, none, some, List, [], ◌∷◌, ◌++◌, if◌then◌else◌, leb, ◌==◌,
  Text, text_eq, strncpy, length, find_index,
}
use collaborative_doc.Search.{
  Index, Outcome, success, not_found, access_denied, copy_filename, copy_username,
}
use collaborative_doc.Trie.{find_strict, write_record}

abbrev pub max_folders : ℕ
max_folders = 1024

pub record FolderRecord : Type 0 where
  pub foldername : Text
  pub owner_username : Text

-- `strcmp(folder_registry[i].foldername, foldername) == 0`
abbrev pub is_folder : Text → FolderRecord → Bool
is_folder foldername r = text_eq r.foldername foldername

-- The index of the folder; `none` is -1.
abbrev pub search_find_folder : Text → List FolderRecord → Option ℕ
search_find_folder foldername folders = find_index (is_folder foldername) folders

abbrev pub new_folder : Text → Text → FolderRecord
new_folder foldername owner = record {
  foldername = copy_filename foldername;
  owner_username = copy_username owner;
}

-- The Boolean is the return value: `true` is 0 and `false` is -1.
unfoldable pub search_add_folder : Text → Text → List FolderRecord → Bool × List FolderRecord
search_add_folder [] owner folders = (false, folders)
search_add_folder (c ∷ cs) owner folders = elim (find_index (is_folder (c ∷ cs)) folders) [
  | some i ↦ (false, folders)
  | none ↦
      if leb max_folders (length folders)
      then (false, folders)
      else (true, folders ++ new_folder (c ∷ cs) owner ∷ [])
]

-- The empty name takes the file out of its folder.
unfoldable pub search_set_file_folder : Text → Text → Text → Index → Outcome × Index
search_set_file_folder filename foldername owner s = elim (find_strict filename s.root) [
  | none ↦ (not_found, s)
  | some r ↦
      if text_eq r.owner_username owner
      then (
        success r.ss_index,
        record s {
          root =
              write_record filename (some (record r { folder = copy_filename foldername })) s.root;
        },
      )
      else (access_denied, s)
]
