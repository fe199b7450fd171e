-- ===== src/Metadata.antt =====
-- The metadata of a storage server: src/storage_server/persistence.c and include/persistence.h.
-- `file_table` up to `file_count` is a list, and metadata.txt is its text, or `none` where there
-- is no such file. What the files of users hold, whether metadata.txt can be written, and the
-- clock are arguments.
pub mod Format
pub mod Load
pub mod Words
pub mod Table
pub mod Additions
pub mod Access
pub mod Fields
pub mod RoundTrip
use collaborative_doc.Prelude.{
  ℕ, zero, suc, ◌+◌, ◌-◌, ℤ, pos, negsuc, Bool, true, false, Option, none, some, List, [], ◌∷◌,
  ◌++◌, if◌then◌else◌, leb, ◌==◌, Text, text_eq, strncpy, length, find_index, modify, swap_remove,
  get_elem?,
}
use collaborative_doc.Acl.{Acl, AclEntry, acl_grant, acl_remove, is_of}
use collaborative_doc.Search.{copy_filename, copy_username}
use collaborative_doc.Metadata.Format.{FileMeta, max_files, format_table}
use collaborative_doc.Metadata.Words.{count_words_in_file}

-- The table in memory and metadata.txt.
pub record Store : Type 0 where
  pub file_table : List FileMeta
  pub metadata : Option Text

-- What surrounds a call: the contents of a user's file, whether metadata.txt opens for writing,
-- and the clock.
pub record Disk : Type 0 where
  pub read : Text → Option Text
  pub writable : Bool
  pub now : ℤ

-- `get_file_size`: -1 where the file does not open.
abbrev pub get_file_size : Option Text → ℤ
get_file_size none = negsuc 0
get_file_size (some content) = pos (length content)

unfoldable pub save_metadata : Bool → Store → Store
save_metadata false s = s
save_metadata true s = record s { metadata = some (format_table s.file_table) }

abbrev pub is_meta : Text → FileMeta → Bool
is_meta filename m = text_eq m.filename filename

abbrev pub new_meta : Text → Disk → FileMeta
new_meta filename disk = record {
  filename = strncpy 255 filename;
  size = get_file_size (disk.read filename);
  word_count = count_words_in_file (disk.read filename);
  created = disk.now;
  modified = disk.now;
  last_accessed = disk.now;
  last_accessed_by = [];
  owner_username = [];
  folder = [];
  acl = [];
}

unfoldable pub add_metadata_entry : Text → Disk → Store → Store
add_metadata_entry filename disk s = elim (find_index (is_meta filename) s.file_table) [
  | some i ↦ s
  | none ↦
      if leb max_files (length s.file_table)
      then s
      else save_metadata disk.writable
          (record s { file_table = s.file_table ++ new_meta filename disk ∷ [] })
]

-- The entries behind the one that goes move up by one.
abbrev pub remove_at : List FileMeta → ℕ → List FileMeta
remove_at [] i = []
remove_at (m ∷ ms) zero = ms
remove_at (m ∷ ms) (suc i) = m ∷ remove_at ms i

unfoldable pub remove_metadata_entry : Text → Disk → Store → Store
remove_metadata_entry filename disk s = elim (find_index (is_meta filename) s.file_table) [
  | none ↦ s
  | some i ↦ save_metadata disk.writable (record s { file_table = remove_at s.file_table i })
]

-- A change of the first entry of a name, and a save; `persist_find_file` gives the entry.
unfoldable pub update_entry : Text → (FileMeta → FileMeta) → Disk → Store → Store
update_entry filename change disk s = elim (find_index (is_meta filename) s.file_table) [
  | none ↦ s
  | some i ↦ save_metadata disk.writable (record s { file_table = modify s.file_table i change })
]

unfoldable pub persist_find_file : Text → Store → Option FileMeta
persist_find_file filename s = elim (find_index (is_meta filename) s.file_table) [
  | none ↦ none
  | some i ↦ get_elem? s.file_table i
]

abbrev pub update_metadata_entry : Text → Disk → Store → Store
update_metadata_entry filename disk =
    update_entry filename
      (λ m. record m {
        size = get_file_size (disk.read filename);
        word_count = count_words_in_file (disk.read filename);
        modified = disk.now;
      })
      disk

-- `none` is a null pointer for the user.
abbrev pub accessed : Option Text → ℤ → FileMeta → FileMeta
accessed none now m = record m { last_accessed = now }
accessed (some username) now m = record m {
  last_accessed = now;
  last_accessed_by = copy_username username;
}

abbrev pub persist_update_last_accessed : Text → Option Text → Disk → Store → Store
persist_update_last_accessed filename username disk =
    update_entry filename (accessed username disk.now) disk

abbrev pub persist_set_owner : Text → Text → Disk → Store → Store
persist_set_owner filename owner disk =
    update_entry filename (λ m. record m { owner_username = copy_username owner }) disk

-- The empty name and a null pointer both take the file out of its folder.
abbrev pub persist_set_folder : Text → Text → Disk → Store → Store
persist_set_folder filename foldername disk =
    update_entry filename (λ m. record m { folder = strncpy 255 foldername }) disk

-- A full list saves nothing.
unfoldable pub persist_set_acl : Text → Text → ℕ → Disk → Store → Store
persist_set_acl filename target permission disk s = elim (persist_find_file filename s) [
  | none ↦ s
  | some m ↦ elim (acl_grant target permission m.acl) [
    | none ↦ s
    | some acl ↦ update_entry filename (λ m'. record m' { acl = acl }) disk s
  ]
]

-- A user without an entry saves nothing.
unfoldable pub persist_remove_acl : Text → Text → Disk → Store → Store
persist_remove_acl filename target disk s = elim (persist_find_file filename s) [
  | none ↦ s
  | some m ↦ elim (find_index (is_of target) m.acl) [
    | none ↦ s
    | some i ↦ update_entry filename (λ m'. record m' { acl = acl_remove target m.acl }) disk s
  ]
]
