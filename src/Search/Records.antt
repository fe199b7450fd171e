-- ===== src/Search/Records.antt =====
-- What each operation of the file index does, by the record that it finds.
use collaborative_doc.Prelude.{
  ℕ, ◌≡◌, ◌⊎◌, false, none, some, inl, inr, if◌then◌else◌, Text, text_eq, text_eq_refl,
  Option-cases,
}
use collaborative_doc.Trie.{find_record, find_strict, write_record}
use collaborative_doc.Trie.Lookup.{key, is_ascii, find_record-write_record, find_strict_lem}
use collaborative_doc.Search.{
  FileRecord, Index, success, not_found, access_denied, new_record, search_add_file,
  search_delete_file,
}

-- A deletion finds nothing, or another owner, or it takes the record away.
pub delete-cases :
    (f user : Text) (s : Index)
    → ((search_delete_file f user s ≡ (not_found, s)) × (find_strict f s.root ≡ none))
      ⊎ ((r : FileRecord) × (find_strict f s.root ≡ some r)
          × (search_delete_file f user s ≡ (
              if text_eq r.owner_username user
              then (success r.ss_index, record s { root = write_record f none s.root })
              else (access_denied, s))))
unfolding search_delete_file
delete-cases f user s = elim (Option-cases (find_strict f s.root)) [
  | inl n ↦ inl (rw (n, search_delete_file), n)
  | inr (r, e) ↦ inr (r, e, rw (e, search_delete_file))
]

-- A file whose name has a byte of 128 or more can be added, is found, and can be deleted by
-- nobody, its owner included.
pub search_delete_file_non_ascii :
    (f owner user : Text) (i : ℕ) (s : Index)
    → is_ascii f ≡ false
    → find_record f s.root ≡ none
    → (find_record f (search_add_file f i owner s).root ≡ some (new_record f i owner))
      × (search_delete_file f user (search_add_file f i owner s)
          ≡ (not_found, search_add_file f i owner s))
search_delete_file_non_ascii f owner user i s a n =
    let new = new_record f i owner in
    let added : search_add_file f i owner s ≡ record s { root = write_record f (some new) s.root } =
      unfold search_add_file in rw (n, search_add_file) in
    let strict : find_strict f (search_add_file f i owner s).root ≡ none =
      rw (find_strict_lem f (search_add_file f i owner s).root, a) in
    (
      rw (added, find_record-write_record f f (some new) s.root, text_eq_refl (key f)),
      elim (delete-cases f user (search_add_file f i owner s)) [
        | inl (e, _) ↦ e
        | inr (r, e, _) ↦ absurd (cc (strict, e))
      ],
    )
