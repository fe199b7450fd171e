-- ===== src/Folders/Moves.antt =====
-- What the move of a folder changes.
use collaborative_doc.Prelude.{
  ℕ, ◌≡◌, ◌≢◌, ◌∙◌, ◌⊎◌, ◌++◌, ◌==◌, ==_iff, arith, append-nil, set, modify-eq-set, refl, sym, ap,
  true, Option, none, some, inl, inr, [], ◌∷◌, ltb, Text, text_eq, text_eq_sound, Bool-cases,
  Option-cases, List, get_elem?, modify, take,
}
use collaborative_doc.Trie.{Trie, null, node, find_record}
use collaborative_doc.Trie.Lookup.{find_record-null}
use collaborative_doc.Editing.Sentences.{drop-append}
use collaborative_doc.Search.{Index, FileRecord, copy_filename}
use collaborative_doc.Search.Coherence.{IsValid, some_eq}
use collaborative_doc.Folders.{FolderRecord, search_find_folder}
use collaborative_doc.Folders.Move.{
  MoveFileUpdate, search_move_folder, move_trie, move_record, moved, updates, unmoved, starts_with,
  moved_folder, folder_of, below_folder, after_slash, Moved,
}

pub find_record-move_trie :
    (src dst s : Text) (t : Trie FileRecord)
    → find_record s (move_trie src dst t) ≡ move_record src dst (find_record s t)
unfolding find_record move_trie
find_record-move_trie src dst [] null = refl
find_record-move_trie src dst [] (node info below) = refl
find_record-move_trie src dst (c ∷ s) null = rw (find_record-null (c ∷ s)) refl
find_record-move_trie src dst (c ∷ s) (node info below) = elim (Bool-cases (ltb c 128)) [
  | inl y ↦ rw y (find_record-move_trie src dst s (below c))
  | inr n ↦ rw n (find_record-move_trie src dst s (node info below))
]

-- A record behind a move is a record of before, in another folder at most.
move_record-some :
    (src dst : Text) (o : Option FileRecord) (r : FileRecord)
    → move_record src dst o ≡ some r
    → (r0 : FileRecord) × (o ≡ some r0) × (r ≡ moved src dst r0)
move_record-some src dst none r e = absurd (cc e)
move_record-some src dst (some r0) r e = (r0, refl, sym (some_eq e))

pub before_move :
    (src dst q : Text) (t : Trie FileRecord) (r : FileRecord)
    → find_record q (move_trie src dst t) ≡ some r
    → (r0 : FileRecord) × (find_record q t ≡ some r0) × (r ≡ moved src dst r0)
before_move src dst q t r e =
    move_record-some src dst (find_record q t) r (sym (find_record-move_trie src dst q t) ∙ e)

move_trie-IsValid :
    (src dst : Text) (s : Index)
    → IsValid s
    → IsValid (record s { root = move_trie src dst s.root })
move_trie-IsValid src dst s v = record {
  cache = v.cache;
  coherent = λ q i e.
      let (r, k, same) = v.coherent q i e in
      (moved src dst r, find_record-move_trie src dst q s.root ∙ ap (move_record src dst) k, same);
  ascii = v.ascii;
  named = λ q r e.
      let (r0, k, same) = before_move src dst q s.root r e in
      ap (λ (x : FileRecord). x.filename) same ∙ v.named q r0 k;
  acls = λ q r e. let (r0, k, same) = before_move src dst q s.root r e in rw same (v.acls q r0 k);
}

pub move-cases :
    (src dst owner : Text) (n : ℕ) (folders : List FolderRecord) (s : Index)
    → (search_move_folder src dst owner n folders s ≡ unmoved folders s)
      ⊎ ((i : ℕ) × (r : FolderRecord) × (search_find_folder src folders ≡ some i)
          × (get_elem? folders i ≡ some r)
          × (text_eq r.owner_username owner ≡ true)
          × (search_find_folder dst folders ≡ none)
          × (search_move_folder src dst owner n folders s ≡ record {
            out_updates = some (take n (updates src dst s.root));
            folder_registry = modify folders i (λ x. record x { foldername = copy_filename dst });
            index = record s { root = move_trie src dst s.root };
          }))
unfolding search_move_folder
move-cases src dst owner n folders s = elim (Option-cases (search_find_folder src folders)) [
  | inl a ↦ inl (rw (a, search_move_folder) refl)
  | inr (i, a) ↦ elim (Option-cases (get_elem? folders i)) [
    | inl b ↦ inl (rw (a, search_move_folder, b) refl)
    | inr (r, b) ↦ elim (Bool-cases (text_eq r.owner_username owner)) [
      | inr c ↦ inl (rw (a, search_move_folder, b, c) refl)
      | inl c ↦ elim (Option-cases (search_find_folder dst folders)) [
        | inr (j, d) ↦ inl (rw (a, search_move_folder, b, c, d) refl)
        | inl d ↦ inr (i, r, a, b, c, d, rw (a, search_move_folder, b, c, d) refl)
      ]
    ]
  ]
]

pub search_move_folder-IsValid :
    (src dst owner : Text) (n : ℕ) (folders : List FolderRecord) (s : Index)
    → IsValid s
    → IsValid (search_move_folder src dst owner n folders s).index
search_move_folder-IsValid src dst owner n folders s v =
    elim (move-cases src dst owner n folders s) [
      | inl e ↦ rw e v
      | inr (i, r, a, b, c, d, e) ↦ rw e (move_trie-IsValid src dst s v)
    ]

starts_with-append : (p rest : Text) → starts_with (p ++ rest) p ≡ true
unfolding starts_with
starts_with-append [] [] = refl
starts_with-append [] (c ∷ rest) = refl
starts_with-append (c ∷ p) rest = rw (starts_with-append p rest) (ground arith)

starts_with-split : (s p : Text) → starts_with s p ≡ true → (rest : Text) × (s ≡ p ++ rest)
unfolding starts_with
starts_with-split s [] h = (s, refl)
starts_with-split [] (c ∷ p) h = absurd (cc h)
starts_with-split (c ∷ s) (d ∷ p) h = elim (Bool-cases (c == d)) [
  | inl y ↦
      let (rest, e) = starts_with-split s p (rw y at h) in
      let same = (==_iff c d).0 y in (rest, cc (same, e))
  | inr n ↦ absurd (cc (rw n at h))
]

moved_folder-append :
    (src dst rest : Text)
    → src ≢ []
    → moved_folder src dst (src ++ rest) ≡ below_folder dst (after_slash rest)
unfolding moved_folder
moved_folder-append [] dst rest ne = absurd (ne refl)
moved_folder-append (c ∷ src) dst rest ne =
    ap (λ r. below_folder dst (after_slash r)) (drop-append (c ∷ src) rest)

folder_of-append :
    (src dst rest folder : Text)
    → src ≢ []
    → folder ≡ src ++ rest
    → folder_of src dst folder ≡ below_folder dst (after_slash rest)
unfolding folder_of
folder_of-append src dst rest folder ne e =
    ap (folder_of src dst) e
    ∙ rw (starts_with-append src rest) (moved_folder-append src dst rest ne)

folder_of-other :
    (src dst folder : Text)
    → ((rest : Text) → folder ≢ src ++ rest)
    → folder_of src dst folder ≡ folder
unfolding folder_of
folder_of-other src dst folder h = elim (Bool-cases (starts_with folder src)) [
  | inl y ↦ let (rest, e) = starts_with-split folder src y in absurd (h rest e)
  | inr n ↦ rw n refl
]

-- A move of a folder with a name that is not empty, if it succeeds, was made by the owner of the
-- folder, to a name that no folder had; the registry has the new name in its entry and is
-- otherwise as before; a file of the folder is then in the folder of the new name, a file of a
-- folder below it in the same folder below the new name, each name cut to its buffer, and a file
-- whose folder does not start with the name is left alone.
pub search_move_folder_owner :
    (src dst owner q : Text) (n : ℕ) (folders : List FolderRecord) (s : Index)
    (sent : List MoveFileUpdate) (x : FileRecord)
    → src ≢ []
    → (search_move_folder src dst owner n folders s).out_updates ≡ some sent
    → find_record q s.root ≡ some x
    → let after = search_move_folder src dst owner n folders s in
      (i : ℕ) × (r : FolderRecord) × (search_find_folder src folders ≡ some i)
      × (get_elem? folders i ≡ some r)
      × (r.owner_username ≡ owner)
      × (search_find_folder dst folders ≡ none)
      × (after.folder_registry ≡ set folders i (record r { foldername = copy_filename dst }))
      × (x.folder ≡ src
          → find_record q after.index.root ≡ some (record x { folder = copy_filename dst }))
      × ((c : ℕ) (rest : Text)
          → x.folder ≡ src ++ b'/' ∷ c ∷ rest
          → find_record q after.index.root
            ≡ some (record x { folder = copy_filename (dst ++ b'/' ∷ c ∷ rest) }))
      × (((rest : Text) → x.folder ≢ src ++ rest) → find_record q after.index.root ≡ some x)
search_move_folder_owner src dst owner q n folders s sent x ne h k =
    elim (move-cases src dst owner n folders s) [
      | inl e ↦ absurd (cc (rw e at h))
      | inr (i, r, a, b, c, d, e) ↦
          let here = found e refl in
          (
            i,
            r,
            a,
            b,
            text_eq_sound r.owner_username owner c,
            d,
            ap (λ (m : Moved). m.folder_registry) e
                ∙ modify-eq-set folders i (λ y. record y { foldername = copy_filename dst }) r b,
            λ l. here ∙ put (folder_of-append src dst [] x.folder ne (l ∙ sym (append-nil src))),
            λ z rest l. here ∙ put (folder_of-append src dst (b'/' ∷ z ∷ rest) x.folder ne l),
            λ l. here ∙ put (folder_of-other src dst x.folder l),
          )
    ]
  where
    put :
        {folder : Text}
        → folder_of src dst x.folder ≡ folder
        → some (moved src dst x) ≡ some (record x { folder = folder })
    put l = ap (λ f. some (record x { folder = f })) l

    found :
        {m : Moved}
        → search_move_folder src dst owner n folders s ≡ m
        → m.index.root ≡ move_trie src dst s.root
        → find_record q (search_move_folder src dst owner n folders s).index.root
          ≡ some (moved src dst x)
    found e l =
        ap (λ (m : Moved). find_record q m.index.root) e
        ∙ ap (find_record q) l
        ∙ find_record-move_trie src dst q s.root
        ∙ ap (move_record src dst) k
