-- ===== src/Tests/Files.antt =====
-- Runs of the file index.
use collaborative_doc.Prelude.{
  ◌≡◌, ◌↔◌, ◌||◌, ◌&&◌, refl, true, false, none, some, [], ◌∷◌, Text, text_eq, leb, if◌then◌else◌,
  arith, length, map, ◌<◌, ◌++◌, List,
}
use collaborative_doc.Acl
use collaborative_doc.Acl.Laws as AclLaws
use collaborative_doc.Search
use collaborative_doc.Search.{
  FileRecord, new_record, kept, not_found, purge_trie, purge_cache, init_search_trie,
}
use collaborative_doc.Search.Access.{
  search_check_permission-search_grant_permission, search_check_permission-search_remove_permission,
}
use collaborative_doc.Search.Records.{search_delete_file_non_ascii}
use collaborative_doc.Trie
use collaborative_doc.Trie.Lookup.{key, is_ascii, find_record-write_record}
use collaborative_doc.Folders.Listing.{
  listed_files, rows, subfolders, search_get_files_in_folder, search_get_file_list,
}
use collaborative_doc.Folders.Listed.{
  IsIn, flatten, search_get_files_in_folder-search_check_permission,
}
use collaborative_doc.Tests.Sample.{doc, alice, bob, with_file, doc_record}
use collaborative_doc.Tests.Server.{program, created}

-- Two bytes of UTF-8.
abbrev accented : Text
accented = 195 ∷ 169 ∷ []

accented-is_ascii : is_ascii accented ≡ false
unfolding program
accented-is_ascii = refl

granted : (Search.search_grant_permission doc alice bob 1 with_file.index).0 ≡ true
unfolding program Search.search_grant_permission Acl.acl_grant
granted = refl

removed : (Search.search_remove_permission doc alice bob with_file.index).0 ≡ true
unfolding program Search.search_remove_permission
removed = refl

search_check_permission-search_grant_permission_example :
    (alice ≡ alice)
    × (Search.search_check_permission doc bob 2
          (Search.search_grant_permission doc alice bob 1 with_file.index).1
        ≡ (if text_eq (key doc) (key doc) && text_eq bob bob
            then text_eq alice bob || leb 2 1
            else Search.search_check_permission doc bob 2 with_file.index))
search_check_permission-search_grant_permission_example =
    search_check_permission-search_grant_permission doc alice bob doc bob 1 2 with_file.index
      doc_record created AclLaws.empty-IsValid (omega arith) granted

search_check_permission-search_remove_permission_example :
    (alice ≡ alice)
    × (Search.search_check_permission doc bob 1
          (Search.search_remove_permission doc alice bob with_file.index).1
        ≡ (if text_eq (key doc) (key doc) && text_eq bob bob
            then text_eq alice bob
            else Search.search_check_permission doc bob 1 with_file.index))
search_check_permission-search_remove_permission_example =
    search_check_permission-search_remove_permission doc alice bob doc bob 1 with_file.index
      doc_record created AclLaws.empty-IsValid removed

nothing : Trie.find_record accented init_search_trie.root ≡ none
unfolding program
nothing = refl

search_delete_file_non_ascii_example :
    (Trie.find_record accented (Search.search_add_file accented 0 alice init_search_trie).root
      ≡ some (new_record accented 0 alice))
    × (Search.search_delete_file accented alice
          (Search.search_add_file accented 0 alice init_search_trie)
        ≡ (not_found, Search.search_add_file accented 0 alice init_search_trie))
search_delete_file_non_ascii_example =
    search_delete_file_non_ascii accented alice alice 0 init_search_trie accented-is_ascii nothing

find_record-write_record_example :
    Trie.find_record doc (Trie.write_record alice (some doc_record) with_file.index.root) ≡ (
      if text_eq (key alice) (key doc)
      then some doc_record
      else Trie.find_record doc with_file.index.root)
find_record-write_record_example =
    find_record-write_record alice doc (some doc_record) with_file.index.root

abbrev root : Text
root = []

abbrev folder_row : Text → Text → Text
folder_row name owner = name ++ b'/' ∷ b'\n' ∷ []

abbrev file_row : FileRecord → Text
file_row r = r.filename ++ b'\n' ∷ []

one_line : length (flatten (rows folder_row file_row false alice [] [] with_file.index.root)) < 2048
unfolding program flatten listed_files Trie.for_each subfolders
one_line = omega arith

search_get_files_in_folder-search_check_permission_example :
    (files : List FileRecord) × (search_get_files_in_folder folder_row file_row [] false alice 2048
        [] with_file.index.root
      ≡ flatten (map (λ f. folder_row f.0 f.1) (subfolders [] [])) ++ flatten (map file_row files))
    × (root ≡ root
        → search_get_file_list folder_row file_row false alice 2048 [] with_file.index.root
          ≡ search_get_files_in_folder folder_row file_row [] false alice 2048 []
              with_file.index.root)
    × ((r : FileRecord)
        → IsIn r files ↔ (
            (name : Text) × (Trie.find_record name with_file.index.root ≡ some r)
            × (text_eq r.folder [] ≡ true)
            × (Search.search_check_permission name alice 1 with_file.index ≡ true)))
search_get_files_in_folder-search_check_permission_example =
    search_get_files_in_folder-search_check_permission folder_row file_row alice [] 2048 []
      with_file.index one_line
