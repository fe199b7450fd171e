-- ===== src/Folders/Move.antt =====
-- The move of a folder with its files: `search_move_folder` of src/name_server/search.c. The walk
-- pops nodes off a stack, so it visits the children of a node from the last to the first, each
-- with all that is below it; the bound of the stack is left out.
use collaborative_doc.Prelude.{
  ℕ, zero, suc, Bool, true, false, Option, none, some, List, [], ◌∷◌, ◌++◌, if◌then◌else◌, ◌==◌,
  Text, text_eq, length, drop, take, get_elem?, modify,
}
use collaborative_doc.Search.{Index, FileRecord, copy_filename}
use collaborative_doc.Trie.{Trie, null, node, trie_char_set_size}
use collaborative_doc.Folders.{FolderRecord, search_find_folder}

unfoldable pub starts_with : Text → Text → Bool
starts_with s [] = true
starts_with [] (p ∷ ps) = false
starts_with (c ∷ s) (p ∷ ps) = let rest = starts_with s ps in if c == p then rest else false

-- `if (rest[0] == '/') rest++;`
abbrev pub after_slash : Text → Text
after_slash [] = []
after_slash (c ∷ s) = if c == b'/' then s else c ∷ s

-- `dst` alone, or with what is left of the folder's name behind it.
abbrev pub below_folder : Text → Text → Text
below_folder dst [] = copy_filename dst
below_folder dst (c ∷ rest) = copy_filename (dst ++ b'/' ∷ c ∷ rest)

-- The new name of a folder that starts with `src`.
unfoldable pub moved_folder : Text → Text → Text → Text
moved_folder [] dst folder = copy_filename dst
moved_folder (c ∷ src) dst folder = below_folder dst (after_slash (drop (length (c ∷ src)) folder))

unfoldable pub folder_of : Text → Text → Text → Text
folder_of src dst folder = if starts_with folder src then moved_folder src dst folder else folder

abbrev pub moved : Text → Text → FileRecord → FileRecord
moved src dst r = record r { folder = folder_of src dst r.folder }

abbrev pub move_record : Text → Text → Option FileRecord → Option FileRecord
move_record src dst none = none
move_record src dst (some r) = some (moved src dst r)

unfoldable pub move_trie : Text → Text → Trie FileRecord → Trie FileRecord
move_trie src dst null = null
move_trie src dst (node info below) =
    node (move_record src dst info) (λ i. move_trie src dst (below i))

pub record MoveFileUpdate : Type 0 where
  pub filename : Text
  pub folder : Text
  pub ss_index : ℕ

unfoldable pub update_of : Text → Text → Option FileRecord → List MoveFileUpdate
update_of src dst none = []
update_of src dst (some r) =
    if starts_with r.folder src
    then record {
      filename = copy_filename r.filename;
      folder = copy_filename (moved_folder src dst r.folder);
      ss_index = r.ss_index;
    }
      ∷ []
    else []

abbrev pub from_last {ℓ} : {A : Type ℓ} → ℕ → (ℕ → List A) → List A
from_last zero f = []
from_last (suc n) f = f n ++ from_last n f

unfoldable pub updates : Text → Text → Trie FileRecord → List MoveFileUpdate
updates src dst null = []
updates src dst (node info below) =
    update_of src dst info ++ from_last trie_char_set_size (λ i. updates src dst (below i))

-- What a call leaves; `none` is the result -1.
pub record Moved : Type 0 where
  pub out_updates : Option (List MoveFileUpdate)
  pub folder_registry : List FolderRecord
  pub index : Index

abbrev pub unmoved : List FolderRecord → Index → Moved
unmoved folders s = record { out_updates = none; folder_registry = folders; index = s }

unfoldable pub search_move_folder : Text → Text → Text → ℕ → List FolderRecord → Index → Moved
search_move_folder src dst owner max_updates folders s = elim (search_find_folder src folders) [
  | none ↦ unmoved folders s
  | some i ↦ elim (get_elem? folders i) [
    | none ↦ unmoved folders s
    | some r ↦
        if text_eq r.owner_username owner
        then elim (search_find_folder dst folders) [
          | some j ↦ unmoved folders s
          | none ↦ record {
            out_updates = some (take max_updates (updates src dst s.root));
            folder_registry = modify folders i (λ x. record x { foldername = copy_filename dst });
            index = record s { root = move_trie src dst s.root };
          }
        ]
        else unmoved folders s
  ]
]
