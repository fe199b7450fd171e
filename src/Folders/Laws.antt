-- ===== src/Folders/Laws.antt =====
-- The registry of folders: which names it has after a request for a new one.
use collaborative_doc.Prelude.{
  ℕ, ◌+◌, ◌≤◌, ◌≡◌, ◌⊎◌, refl, ap, subst, text_eq_sound, Bool, true, false, Option, none, some, inl,
  inr, List, [], ◌∷◌, ◌++◌, if◌then◌else◌, arith, leb, Text, text_eq, text_eq_iff, length,
  find_index, count, length-append, count-append, Bool-cases, Option-cases, take_of_length-le,
  find_index-none_iff_count,
}
use collaborative_doc.Folders.{
  FolderRecord, max_folders, is_folder, search_find_folder, new_folder, search_add_folder,
}

-- The array is not overrun and no folder has two entries.
pub record IsValid (folders : List FolderRecord) : Type 0 where
  pub bounded : length folders ≤ max_folders
  pub distinct : (name : Text) → count (is_folder name) folders ≤ 1

find_index-append :
    (p : FolderRecord → Bool) (xs : List FolderRecord) (y : FolderRecord)
    → find_index p (xs ++ y ∷ []) ≡ elim (find_index p xs) as (λ o. Option ℕ) [
      | none ↦ if p y then some (length xs) else none
      | some i ↦ some i
    ]
unfolding find_index
find_index-append p [] y = ground arith
find_index-append p (x ∷ xs) y = ground (arith, find_index-append p xs y)

-- A request for a new folder is refused without a change, or it adds the folder.
add-cases :
    (name owner : Text) (folders : List FolderRecord)
    → (search_add_folder name owner folders ≡ (false, folders))
      ⊎ ((search_add_folder name owner folders ≡ (true, folders ++ new_folder name owner ∷ []))
          × (search_find_folder name folders ≡ none)
          × (length folders + 1 ≤ max_folders))
unfolding search_add_folder
add-cases [] owner folders = inl refl
add-cases (c ∷ cs) owner folders = elim (Option-cases (find_index (is_folder (c ∷ cs)) folders)) [
  | inr (i, e) ↦ inl (rw (e, search_add_folder))
  | inl e ↦ elim (Bool-cases (leb 1024 (length folders))) [
    | inl y ↦ inl (rw (e, search_add_folder, y))
    | inr n ↦ inr (rw (e, search_add_folder, n), e, ground (arith, n))
  ]
]

pub search_add_folder-IsValid :
    (name owner : Text) (folders : List FolderRecord)
    → length name ≤ 255
    → IsValid folders
    → IsValid (search_add_folder name owner folders).1
search_add_folder-IsValid name owner folders short v = elim (add-cases name owner folders) [
  | inl e ↦ rw e v
  | inr (e, absent, room) ↦
      let new = new_folder name owner in
      let fits = take_of_length-le 255 name short in
      let zero_of = (find_index-none_iff_count (is_folder name) folders).0 absent in
      rw e (record {
        bounded = omega (arith, room, length-append folders (new ∷ []));
        distinct = λ q.
            rw (count-append (is_folder q) folders (new ∷ []), fits)
              (ground (arith, v.distinct q, text_eq_iff name q, zero_of));
      })
]

appended :
    (p : FolderRecord → Bool) (y : FolderRecord) (xs : List FolderRecord) (b : Bool)
    → p y ≡ b
    → (b ≡ true → find_index p xs ≡ none)
    → find_index p (xs ++ y ∷ []) ≡ (if b then some (length xs) else find_index p xs)
appended p y xs true h k = let n = k refl in rw (find_index-append p xs y, n, h) refl
appended p y xs false h k = elim (Option-cases (find_index p xs)) [
  | inl n ↦ rw (find_index-append p xs y, n, h) refl
  | inr (i, e) ↦ rw (find_index-append p xs y, e) refl
]

-- A request for a new folder with a name of at most 255 bytes that succeeds: there was no such
-- folder, it is found at the end of the registry, and every other name is found as before.
pub search_find_folder-search_add_folder :
    (name owner q : Text) (folders : List FolderRecord)
    → length name ≤ 255
    → (search_add_folder name owner folders).0 ≡ true
    → (search_find_folder name folders ≡ none)
      × (search_find_folder q (search_add_folder name owner folders).1
          ≡ (if text_eq name q then some (length folders) else search_find_folder q folders))
search_find_folder-search_add_folder name owner q folders short h =
    elim (add-cases name owner folders) [
      | inl e ↦ absurd (cc (e, h))
      | inr (e, absent, room) ↦
          let new = new_folder name owner in
          let same : is_folder q new ≡ text_eq name q =
            ap (λ n. text_eq n q) (take_of_length-le 255 name short) in
          let none_q = λ (y : text_eq name q ≡ true).
            subst (λ n. find_index (is_folder n) folders ≡ none) (text_eq_sound name q y) absent in
          (absent, rw e (appended (is_folder q) new folders (text_eq name q) same none_q))
    ]
