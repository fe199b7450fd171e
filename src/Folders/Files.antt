-- ===== src/Folders/Files.antt =====
-- The folder of a file.
use collaborative_doc.Prelude.{
  ℕ, ◌≡◌, ◌∙◌, ◌⊎◌, ◌≢◌, refl, sym, ap, true, none, some, inl, inr, if◌then◌else◌, Text, text_eq,
  text_eq_sound, Bool-cases, Option-cases,
}
use collaborative_doc.Trie.{find_record, find_strict, write_record}
use collaborative_doc.Trie.Lookup.{key, is_ascii, find_record-write_record, find_strict_lem}
use collaborative_doc.Search.{Index, FileRecord, success, copy_filename}
use collaborative_doc.Search.Coherence.{IsValid, change-IsValid}
use collaborative_doc.Folders.{search_set_file_folder}

-- The strict walk finds a record only under an ASCII name.
pub strict-found :
    (f : Text) (s : Index) (r : FileRecord)
    → find_strict f s.root ≡ some r
    → (is_ascii f ≡ true) × (find_record f s.root ≡ some r)
strict-found f s r e = elim (Bool-cases (is_ascii f)) [
  | inl y ↦
      let same : find_strict f s.root ≡ find_record f s.root = rw (find_strict_lem f s.root, y) in
      (y, sym same ∙ e)
  | inr n ↦
      let none_here : find_strict f s.root ≡ none = rw (find_strict_lem f s.root, n) in
      absurd (cc (e, none_here))
]

pub set-cases :
    (f folder owner : Text) (s : Index)
    → (((search_set_file_folder f folder owner s).1 ≡ s)
        × ((i : ℕ) → (search_set_file_folder f folder owner s).0 ≢ success i))
      ⊎ ((r : FileRecord) × (find_strict f s.root ≡ some r)
          × (text_eq r.owner_username owner ≡ true)
          × (search_set_file_folder f folder owner s ≡ (
            success r.ss_index,
            record s {
              root = write_record f (some (record r { folder = copy_filename folder })) s.root;
            },
          )))
unfolding search_set_file_folder
set-cases f folder owner s = elim (Option-cases (find_strict f s.root)) [
  | inl n ↦ inl (rw (n, search_set_file_folder), λ i. rw (n, search_set_file_folder) (λ h. cc h))
  | inr (r, e) ↦ elim (Bool-cases (text_eq r.owner_username owner)) [
    | inr n ↦
        inl (rw (e, search_set_file_folder, n), λ i. rw (e, search_set_file_folder, n) (λ h. cc h))
    | inl y ↦ inr (r, e, y, rw (e, search_set_file_folder, y))
  ]
]

-- A move of a file to a folder keeps the invariant of the file index, whoever asks for it.
pub search_set_file_folder-IsValid :
    (f folder owner : Text) (s : Index)
    → IsValid s
    → IsValid (search_set_file_folder f folder owner s).1
search_set_file_folder-IsValid f folder owner s v = elim (set-cases f folder owner s) [
  | inl (e, _) ↦ rw e v
  | inr (r, e, y, w) ↦
      let (a, k) = strict-found f s r e in
      rw w (
        change-IsValid f r (record r { folder = copy_filename folder }) s a v k refl refl
          (v.acls f r k))
]

-- A move of a file to a folder that succeeds was made by the owner of the file, answers with its
-- server, changes the folder of its record and nothing else in it, and leaves every other file
-- alone.
pub search_set_file_folder_owner :
    (f folder owner q : Text) (s : Index) (i : ℕ)
    → (search_set_file_folder f folder owner s).0 ≡ success i
    → (r : FileRecord) × (find_record f s.root ≡ some r)
      × (r.owner_username ≡ owner)
      × (r.ss_index ≡ i)
      × (find_record q (search_set_file_folder f folder owner s).1.root ≡ (
          if text_eq (key f) (key q)
          then some (record r { folder = copy_filename folder })
          else find_record q s.root))
search_set_file_folder_owner f folder owner q s i h = elim (set-cases f folder owner s) [
  | inl (_, n) ↦ absurd (n i h)
  | inr (r, e, y, w) ↦
      let (a, k) = strict-found f s r e in
      let same : success r.ss_index ≡ success i = sym (ap (λ x. x.0) w) ∙ h in
      (
        r,
        k,
        text_eq_sound r.owner_username owner y,
        cc same,
        rw
            (
              w,
              find_record-write_record f q (some (record r { folder = copy_filename folder }))
                  s.root,
            )
            refl,
      )
]
