-- ===== src/Search.antt =====
-- The file index of the name server: src/name_server/search.c and include/search.h, without its
-- folder and listing functions (Folders.antt has the folders). The state is the trie of file records and the file cache. Each
-- function is one critical section of `trie_mutex`, but `search_find_file`, which is modelled as
-- its sequential run. A `FileRecord` comes from `malloc`; the byte behind a name that fills its
-- buffer is taken to be zero.
pub mod Records
pub mod Access
pub mod Purge
pub mod Placement
pub mod Cached
pub mod Coherence
use collaborative_doc.Prelude.{
  ℕ, ◌-◌, ℤ, pos, Bool, true, false, ◌&&◌, ◌||◌, Option, none, some, List, [], ◌∷◌, map, leb, ltb,
  ◌==◌, if◌then◌else◌, Text, text_eq, strncpy,
}
use collaborative_doc.Acl.{Acl, AclEntry, acl_allows, acl_grant, acl_remove}
use collaborative_doc.Cache.{
  Cache, cache_lookup, cache_add, cache_invalidate, init_cache, max_filename,
}
use collaborative_doc.Trie.{
  Trie, null, node, create_node, for_each, find_record, find_strict, write_record,
  trie_char_set_size,
}

abbrev pub max_storage_servers : ℕ
max_storage_servers = 10

pub record FileRecord : Type 0 where
  pub filename : Text
  pub owner_username : Text
  pub ss_index : ℕ
  pub folder : Text
  pub word_count : ℤ
  pub char_count : ℤ
  pub created : ℤ
  pub modified : ℤ
  pub last_accessed : ℤ
  pub last_accessed_by : Text
  pub acl : Acl

-- `SSFileRecordPayload`; `acl` holds the first `acl_count` entries.
pub record SsFileRecord : Type 0 where
  pub filename : Text
  pub owner_username : Text
  pub acl : Acl
  pub word_count : ℤ
  pub char_count : ℤ
  pub created : ℤ
  pub modified : ℤ
  pub last_accessed : ℤ
  pub last_accessed_by : Text
  pub folder : Text

-- `SSMetadataPayload`
pub record SsMetadata : Type 0 where
  pub word_count : ℤ
  pub char_count : ℤ
  pub created : ℤ
  pub last_modified : ℤ
  pub last_accessed : ℤ
  pub last_accessed_by : Text

pub record Index : Type 0 where
  pub root : Trie FileRecord
  pub cache : Cache

-- The readings of the clock in one `search_find_file`: for a hit, and the two of `cache_add`.
pub record Times : Type 0 where
  pub at_hit : ℕ
  pub at_start : ℕ
  pub at_store : ℕ

abbrev pub copy_filename : Text → Text
copy_filename = strncpy (max_filename - 1)

abbrev pub copy_username : Text → Text
copy_username = strncpy 63

-- The copy of an entry of an access list.
abbrev pub copy_entry : AclEntry → AclEntry
copy_entry e = record { username = copy_username e.username; permission = e.permission }

abbrev pub init_search_trie : Index
init_search_trie = record { root = create_node; cache = init_cache }

abbrev pub new_record : Text → ℕ → Text → FileRecord
new_record filename ss_index owner = record {
  filename = copy_filename filename;
  owner_username = copy_username owner;
  ss_index = ss_index;
  folder = [];
  word_count = pos 0;
  char_count = pos 0;
  created = pos 0;
  modified = pos 0;
  last_accessed = pos 0;
  last_accessed_by = [];
  acl = [];
}

-- A name that has a record keeps it.
unfoldable pub search_add_file : Text → ℕ → Text → Index → Index
search_add_file filename ss_index owner s = elim (find_record filename s.root) [
  | some r ↦ s
  | none ↦ record s {
    root = write_record filename (some (new_record filename ss_index owner)) s.root;
  }
]

-- The cache first, then the trie; what the trie finds is cached. `none` is -1.
unfoldable pub search_find_file : Text → Times → Index → Option ℕ × Index
search_find_file filename t s =
    let (found, cache) = cache_lookup filename t.at_hit s.cache in
    elim found [
      | some i ↦ (some i, record s { cache = cache })
      | none ↦ elim (find_record filename s.root) [
        | none ↦ (none, record s { cache = cache })
        | some r ↦ (
          some r.ss_index,
          record s { cache = cache_add filename r.ss_index t.at_start t.at_store cache },
        )
      ]
    ]

unfoldable pub search_check_permission : Text → Text → ℕ → Index → Bool
search_check_permission filename username permission s = elim (find_record filename s.root) [
  | none ↦ false
  | some r ↦ text_eq r.owner_username username || acl_allows username permission r.acl
]

-- The Boolean is the return value: `true` is 0 and `false` is -1.
unfoldable pub search_grant_permission : Text → Text → Text → ℕ → Index → Bool × Index
search_grant_permission filename owner target permission s = elim (find_record filename s.root) [
  | none ↦ (false, s)
  | some r ↦
      if text_eq r.owner_username owner
      then elim (acl_grant target permission r.acl) [
        | none ↦ (false, s)
        | some acl ↦
            (true, record s { root = write_record filename (some (record r { acl = acl })) s.root })
      ]
      else (false, s)
]

unfoldable pub search_remove_permission : Text → Text → Text → Index → Bool × Index
search_remove_permission filename owner target s = elim (find_record filename s.root) [
  | none ↦ (false, s)
  | some r ↦
      if text_eq r.owner_username owner
      then (
        true,
        record s {
          root = write_record filename (some (record r { acl = acl_remove target r.acl })) s.root;
        },
      )
      else (false, s)
]

-- A server index, -1 and -2.
pub data Outcome : Type 0 where
  success : ℕ → Outcome
  not_found access_denied : Outcome

unfoldable pub search_delete_file : Text → Text → Index → Outcome × Index
search_delete_file filename username s = elim (find_strict filename s.root) [
  | none ↦ (not_found, s)
  | some r ↦
      if text_eq r.owner_username username
      then (success r.ss_index, record s { root = write_record filename none s.root })
      else (access_denied, s)
]

abbrev pub search_get_file_details : Text → Index → Option FileRecord
search_get_file_details filename s = find_record filename s.root

unfoldable pub search_update_file_metadata : Text → SsMetadata → Index → Index
search_update_file_metadata filename m s = elim (find_record filename s.root) [
  | none ↦ s
  | some r ↦
      let r' = record r {
        word_count = m.word_count;
        char_count = m.char_count;
        last_accessed = m.last_accessed;
        modified = m.last_modified;
        last_accessed_by = copy_username m.last_accessed_by;
      } in
      record s { root = write_record filename (some r') s.root }
]

-- The record that a purge leaves at a node.
abbrev pub kept : ℕ → Option FileRecord → Option FileRecord
kept dead none = none
kept dead (some r) = if r.ss_index == dead then none else some r

-- The call of `cache_invalidate` at a node.
abbrev pub forget : ℕ → Option FileRecord → Cache → Cache
forget dead none c = c
forget dead (some r) c = if r.ss_index == dead then cache_invalidate r.filename c else c

-- `recursive_purge_by_ss`: what it leaves of the trie, and its calls of `cache_invalidate`.
unfoldable pub purge_trie : ℕ → Trie FileRecord → Trie FileRecord
purge_trie dead null = null
purge_trie dead (node info below) = node (kept dead info) (λ i. purge_trie dead (below i))

unfoldable pub purge_cache : ℕ → Trie FileRecord → Cache → Cache
purge_cache dead null c = c
purge_cache dead (node info below) c =
    for_each trie_char_set_size (λ i. purge_cache dead (below i)) (forget dead info c)

unfoldable pub search_purge_by_ss : ℕ → Index → Index
search_purge_by_ss ss_index s =
    if leb max_storage_servers ss_index
    then s
    else record { root = purge_trie ss_index s.root; cache = purge_cache ss_index s.root s.cache }

-- The record that is rebuilt from what a storage server sends.
abbrev pub rebuilt_record : ℕ → SsFileRecord → FileRecord
rebuilt_record ss_index p = record {
  filename = copy_filename p.filename;
  owner_username = copy_username p.owner_username;
  ss_index = ss_index;
  folder = copy_filename p.folder;
  word_count = p.word_count;
  char_count = p.char_count;
  created = p.created;
  modified = p.modified;
  last_accessed = p.last_accessed;
  last_accessed_by = copy_username p.last_accessed_by;
  acl = map copy_entry p.acl;
}

-- A name that another server holds keeps its record.
unfoldable pub search_rebuild_add_file : ℕ → SsFileRecord → Index → Index
search_rebuild_add_file ss_index p s =
    let rebuilt = record s {
      root = write_record p.filename (some (rebuilt_record ss_index p)) s.root;
    } in
    elim (find_record p.filename s.root) [
      | none ↦ rebuilt
      | some r ↦ if r.ss_index == ss_index then rebuilt else s
    ]
