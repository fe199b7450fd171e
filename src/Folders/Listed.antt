-- ===== src/Folders/Listed.antt =====
-- Which files the listings of src/name_server/search.c show.
use collaborative_doc.Prelude.{
  ℕ, zero, suc, ◌<◌, ◌≡◌, ◌↔◌, ◌⊎◌, ◌∙◌, refl, sym, ap, subst, Bool, true, false, Option, none,
  some, inl, inr, List, [], ◌∷◌, ◌++◌, ltb, leb, ◌+◌, map, length, append-nil, append_assoc,
  length-append, ◌&&◌, Text, text_eq, arith, Bool-cases,
}
use collaborative_doc.Trie.{Trie, null, node, for_each, find_record, trie_char_set_size}
use collaborative_doc.Trie.Lookup.{find_record-null}
use collaborative_doc.Acl.{perm_read}
use collaborative_doc.Search.{FileRecord, Index, search_check_permission}
use collaborative_doc.Search.Purge.{for_each-reaches}
use collaborative_doc.Folders.Listing.{
  listed_files, if_listed, is_listed, has_permission, rows, subfolders, until_full, where_fitting,
  search_get_file_list, search_get_files_in_folder,
}
use collaborative_doc.Folders.{FolderRecord}

-- An entry of the list.
unfoldable pub IsIn : FileRecord → List FileRecord → Type 0
IsIn r [] = ⊥
IsIn r (x ∷ xs) = (x ≡ r) ⊎ IsIn r xs

IsIn-left : (r : FileRecord) (xs ys : List FileRecord) → IsIn r xs → IsIn r (xs ++ ys)
unfolding IsIn
IsIn-left r [] ys h = absurd h
IsIn-left r (x ∷ xs) ys (inl e) = inl e
IsIn-left r (x ∷ xs) ys (inr h) = inr (IsIn-left r xs ys h)

IsIn-right : (r : FileRecord) (xs ys : List FileRecord) → IsIn r ys → IsIn r (xs ++ ys)
unfolding IsIn
IsIn-right r [] ys h = h
IsIn-right r (x ∷ xs) ys h = inr (IsIn-right r xs ys h)

IsIn-append : (r : FileRecord) (xs ys : List FileRecord) → IsIn r (xs ++ ys) → IsIn r xs ⊎ IsIn r ys
unfolding IsIn
IsIn-append r [] ys h = inr h
IsIn-append r (x ∷ xs) ys (inl e) = inl (inl e)
IsIn-append r (x ∷ xs) ys (inr h) = elim (IsIn-append r xs ys h) [
  | inl a ↦ inl (inr a)
  | inr b ↦ inr b
]

module _ (test : FileRecord → Bool) (r : FileRecord) where
  if_listed-IsIn :
      (info : Option FileRecord) → info ≡ some r → test r ≡ true → IsIn r (if_listed test info)
  unfolding IsIn
  if_listed-IsIn none h k = absurd (cc h)
  if_listed-IsIn (some x) h k = let same : x ≡ r = cc h in rw (same, k) (inl refl)

  IsIn-if_listed :
      (info : Option FileRecord) → IsIn r (if_listed test info) → (info ≡ some r) × (test r ≡ true)
  unfolding IsIn
  IsIn-if_listed none h = absurd h
  IsIn-if_listed (some x) h = elim (Bool-cases (test x)) [
    | inl y ↦ single x y (rw y at h)
    | inr n ↦ nothing (rw n at h)
  ]
    where
      nothing : ⊥ → (some x ≡ some r) × (test r ≡ true)
      nothing h' = absurd h'

      single : (x : FileRecord) → test x ≡ true → (x ≡ r) ⊎ ⊥ → (some x ≡ some r) × (test r ≡ true)
      single x y (inl e) = (ap some e, subst (λ z. test z ≡ true) e y)
      single x y (inr h') = absurd h'

  -- What is found under a name and passes the test is listed.
  found-listed :
      (s : Text) (t : Trie FileRecord)
      → find_record s t ≡ some r
      → test r ≡ true
      → IsIn r (listed_files test t)
  unfolding listed_files find_record
  found-listed s null h k = absurd (cc (sym (find_record-null s) ∙ h))
  found-listed [] (node info below) h k =
      IsIn-left r (if_listed test info) _ (if_listed-IsIn info h k)
  found-listed (c ∷ s) (node info below) h k = elim (Bool-cases (ltb c 128)) [
    | inl y ↦
        let step : find_record s (below c) ≡ some r = rw y at h in
        IsIn-right r (if_listed test info) _ (
          for_each-reaches {0, 0, 0} (λ xs. Unit) (IsIn r) trie_char_set_size
            (λ i files. listed_files test (below i) ++ files) c (λ i xs u. tt)
            (λ i xs u m. IsIn-right r (listed_files test (below i)) xs m)
            (λ xs u. IsIn-left r (listed_files test (below c)) xs (found-listed s (below c) step k))
            [] tt (ground (arith, y)))
    | inr n ↦ found-listed s (node info below) (rw n at h) k
  ]

  -- What a round of the loop adds.
  for_each-IsIn :
      (n : ℕ) (below : ℕ → List FileRecord)
      → IsIn r (for_each n (λ i files. below i ++ files) [])
      → (i : ℕ) × (i < n) × IsIn r (below i)
  unfolding for_each IsIn
  for_each-IsIn zero below h = absurd h
  for_each-IsIn (suc n) below h = elim (IsIn-append r (below n) _ h) [
    | inl a ↦ (n, omega arith, a)
    | inr b ↦ let (i, l, m) = for_each-IsIn n below b in (i, omega (arith, l), m)
  ]

  listed-found :
      (t : Trie FileRecord)
      → IsIn r (listed_files test t)
      → (s : Text) × (find_record s t ≡ some r) × (test r ≡ true)
  unfolding listed_files find_record IsIn
  listed-found null h = absurd h
  listed-found (node info below) h = elim (IsIn-append r (if_listed test info) _ h) [
    | inl a ↦ let (e, k) = IsIn-if_listed info a in ([], e, k)
    | inr b ↦
        let (i, l, m) = for_each-IsIn trie_char_set_size (λ i. listed_files test (below i)) b in
        let (s, e, k) = listed-found (below i) m in
        let valid : ltb i 128 ≡ true = ground (arith, l) in (i ∷ s, rw valid e, k)
  ]

-- A file is listed exactly if it is found under a name and passes the test.
listed_files_iff :
    (test : FileRecord → Bool) (root : Trie FileRecord) (r : FileRecord)
    → IsIn r (listed_files test root)
      ↔ ((name : Text) × (find_record name root ≡ some r) × (test r ≡ true))
listed_files_iff test root r = (listed-found test r root, λ h. found-listed test r h.0 root h.1 h.2)

both : (a b : Bool) → (a && b) ≡ true → (a ≡ true) × (b ≡ true)
both true true h = (refl, refl)
both true false h = absurd (cc h)
both false b h = absurd (cc h)

and_true : (a b : Bool) → a ≡ true → b ≡ true → (a && b) ≡ true
and_true a b h k = rw (h, k) refl

permission_of :
    (name username : Text) (s : Index) (r : FileRecord)
    → find_record name s.root ≡ some r
    → search_check_permission name username perm_read s ≡ has_permission false username r
unfolding search_check_permission
permission_of name username s r h = rw (h, search_check_permission) refl

-- The walk of a listing without -a collects the files of the folder that the user may read.
is_listed_iff :
    (username folder : Text) (s : Index) (r : FileRecord)
    → IsIn r (listed_files (is_listed false username folder) s.root) ↔ (
        (name : Text) × (find_record name s.root ≡ some r)
        × (text_eq r.folder folder ≡ true)
        × (search_check_permission name username perm_read s ≡ true))
is_listed_iff username folder s r =
    let (there, back) = listed_files_iff (is_listed false username folder) s.root r in
    (
      λ h.
          let (name, e, k) = there h in
          let (a, b) = both (text_eq r.folder folder) (has_permission false username r) k in
          (name, e, a, permission_of name username s r e ∙ b),
      λ h.
          let (name, e, a, b) = h in
          back (
            name,
            e,
            and_true (text_eq r.folder folder) (has_permission false username r) a
                (sym (permission_of name username s r e) ∙ b),
          ),
    )

-- Lines in a row.
unfoldable pub flatten : List Text → Text
flatten [] = []
flatten (row ∷ rows) = row ++ flatten rows

flatten-append : (xs ys : List Text) → flatten (xs ++ ys) ≡ flatten xs ++ flatten ys
unfolding flatten
flatten-append [] ys = refl
flatten-append (x ∷ xs) ys =
    ap (◌++◌ x) (flatten-append xs ys) ∙ sym (append_assoc x (flatten xs) (flatten ys))

-- Lines that fit the buffer are all shown.
until_full-flatten :
    (size : ℕ) (out : Text) (lines : List Text)
    → length out + length (flatten lines) < size
    → until_full size out lines ≡ out ++ flatten lines
unfolding until_full flatten
until_full-flatten size out [] h = sym (append-nil out)
until_full-flatten size out (row ∷ lines) h =
    let n = length-append row (flatten lines) in
    let n' = length-append out row in
    let test : leb size (length out + length row) ≡ false = ground (arith, n, h) in
    rw test (
      until_full-flatten size (out ++ row) lines (omega (arith, n, n', h))
      ∙ append_assoc out row (flatten lines))

where_fitting-flatten :
    (size : ℕ) (out : Text) (lines : List Text)
    → length out + length (flatten lines) < size
    → where_fitting size out lines ≡ out ++ flatten lines
unfolding where_fitting flatten
where_fitting-flatten size out [] h = sym (append-nil out)
where_fitting-flatten size out (row ∷ lines) h =
    let n = length-append row (flatten lines) in
    let n' = length-append out row in
    let test : ltb (length out + length row) size ≡ true = ground (arith, n, h) in
    rw test (
      where_fitting-flatten size (out ++ row) lines (omega (arith, n, n', h))
      ∙ append_assoc out row (flatten lines))

-- A listing without -a of a folder whose lines are all shorter together than the buffer shows,
-- behind the lines of the subfolders, one line for each of a list of files, and these are exactly
-- the files that are found under a name, lie in that folder, and that the check of the permission
-- to read allows to the user; the listing of the root by its own function is the same.
pub search_get_files_in_folder-search_check_permission :
    (folder_row : Text → Text → Text) (file_row : FileRecord → Text) (username folder : Text)
    (size : ℕ) (folders : List FolderRecord) (s : Index)
    → length (flatten (rows folder_row file_row false username folder folders s.root)) < size
    → (files : List FileRecord) × (search_get_files_in_folder folder_row file_row folder false
          username size folders s.root
        ≡ flatten (map (λ f. folder_row f.0 f.1) (subfolders folder folders))
          ++ flatten (map file_row files))
      × (folder ≡ []
          → search_get_file_list folder_row file_row false username size folders s.root
            ≡ search_get_files_in_folder folder_row file_row [] false username size folders s.root)
      × ((r : FileRecord)
          → IsIn r files ↔ (
              (name : Text) × (find_record name s.root ≡ some r)
              × (text_eq r.folder folder ≡ true)
              × (search_check_permission name username perm_read s ≡ true)))
unfolding search_get_files_in_folder search_get_file_list
search_get_files_in_folder-search_check_permission folder_row file_row username folder size folders
      s h =
    let files = listed_files (is_listed false username folder) s.root in
    let shown = rows folder_row file_row false username folder folders s.root in
    (
      files,
      where_fitting-flatten size [] shown (omega (arith, h))
          ∙ flatten-append (map (λ f. folder_row f.0 f.1) (subfolders folder folders))
              (map file_row files),
      λ e.
          let at_root =
            subst
              (λ f.
                length (flatten (rows folder_row file_row false username f folders s.root)) < size)
              e h in
          let all = rows folder_row file_row false username [] folders s.root in
          until_full-flatten size [] all (omega (arith, at_root))
          ∙ sym (where_fitting-flatten size [] all (omega (arith, at_root))),
      is_listed_iff username folder s,
    )
