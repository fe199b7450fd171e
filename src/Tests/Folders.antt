-- ===== src/Tests/Folders.antt =====
-- Runs of the folders.
use collaborative_doc.Prelude.{
  ◌≡◌, ◌≢◌, ◌++◌, set, refl, true, none, some, List, [], ◌∷◌, Text, bytes, if◌then◌else◌, text_eq,
  length, arith, ℕ, get_elem?,
}
use collaborative_doc.Search.{FileRecord, Index, success, copy_filename}
use collaborative_doc.Trie.{find_record, find_strict}
use collaborative_doc.Trie.Lookup.{key}
use collaborative_doc.Folders.{
  FolderRecord, new_folder, search_find_folder, search_add_folder, search_set_file_folder,
}
use collaborative_doc.Folders.Move.{
  Moved, search_move_folder, updates, update_of, starts_with, moved_folder,
}
use collaborative_doc.Folders.Moves.{search_move_folder_owner}
use collaborative_doc.Folders.Laws.{search_find_folder-search_add_folder}
use collaborative_doc.Folders.Files.{search_set_file_folder_owner}
use collaborative_doc.Tests.Sample.{doc, alice, doc_record, with_file}
use collaborative_doc.Tests.Server.{program}

abbrev drafts : Text
drafts = bytes "drafts"

abbrev one_folder : List FolderRecord
one_folder = new_folder drafts alice ∷ []

added : (search_add_folder doc alice one_folder).0 ≡ true
unfolding program search_add_folder
added = refl

search_find_folder-search_add_folder_example :
    (search_find_folder doc one_folder ≡ none)
    × (search_find_folder drafts (search_add_folder doc alice one_folder).1 ≡ (
        if text_eq doc drafts
        then some (length one_folder)
        else search_find_folder drafts one_folder))
search_find_folder-search_add_folder_example =
    search_find_folder-search_add_folder doc alice drafts one_folder (omega arith) added

moved : (search_set_file_folder doc drafts alice with_file.index).0 ≡ success 0
unfolding program search_set_file_folder find_strict
moved = refl

search_set_file_folder_owner_example :
    (r : FileRecord) × (find_record doc with_file.index.root ≡ some r)
    × (r.owner_username ≡ alice)
    × (r.ss_index ≡ 0)
    × (find_record alice (search_set_file_folder doc drafts alice with_file.index).1.root ≡ (
        if text_eq (key doc) (key alice)
        then some (record r { folder = copy_filename drafts })
        else find_record alice with_file.index.root))
search_set_file_folder_owner_example =
    search_set_file_folder_owner doc drafts alice alice with_file.index 0 moved

-- The server with the file in the folder "drafts/old".
abbrev old : Text
old = bytes "drafts/old"

abbrev in_drafts : Index
in_drafts = (search_set_file_folder doc old alice with_file.index).1

abbrev moved_drafts : Moved
moved_drafts = search_move_folder drafts (bytes "work") alice 4096 one_folder in_drafts

moved_drafts-updates :
    moved_drafts.out_updates
    ≡ some (record { filename = doc; folder = bytes "work/old"; ss_index = 0 } ∷ [])
unfolding program search_set_file_folder find_strict search_move_folder updates update_of
    starts_with moved_folder
moved_drafts-updates = refl

abbrev filed : FileRecord
filed = record doc_record { folder = old }

in_drafts-filed : find_record doc in_drafts.root ≡ some filed
unfolding program search_set_file_folder find_strict
in_drafts-filed = refl

search_move_folder_owner_example :
    (i : ℕ) × (r : FolderRecord) × (search_find_folder drafts one_folder ≡ some i)
    × (get_elem? one_folder i ≡ some r)
    × (r.owner_username ≡ alice)
    × (search_find_folder (bytes "work") one_folder ≡ none)
    × (moved_drafts.folder_registry
        ≡ set one_folder i (record r { foldername = copy_filename (bytes "work") }))
    × (old ≡ drafts
        → find_record doc moved_drafts.index.root
          ≡ some (record filed { folder = copy_filename (bytes "work") }))
    × ((c : ℕ) (rest : Text)
        → old ≡ drafts ++ b'/' ∷ c ∷ rest
        → find_record doc moved_drafts.index.root
          ≡ some (record filed { folder = copy_filename (bytes "work" ++ b'/' ∷ c ∷ rest) }))
    × (((rest : Text) → old ≢ drafts ++ rest)
        → find_record doc moved_drafts.index.root ≡ some filed)
search_move_folder_owner_example =
    search_move_folder_owner drafts (bytes "work") alice doc 4096 one_folder in_drafts _ filed
      (λ e. absurd (cc e)) moved_drafts-updates in_drafts-filed
