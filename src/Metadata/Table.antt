-- ===== src/Metadata/Table.antt =====
-- What the operations of src/storage_server/persistence.c do to the table, name by name.
use collaborative_doc.Prelude.{
  ℕ, zero, suc, ◌≤◌, ◌≡◌, ◌⊎◌, refl, sym, ap, Bool, true, false, Option, none, some, inl, inr, List,
  [], ◌∷◌, ◌++◌, if◌then◌else◌, arith, Text, text_eq, text_eq_iff, text_eq_sound, length,
  find_index, find_index-none_iff_count, modify, get_elem?, count, Bool-cases, Option-cases,
}
use collaborative_doc.Metadata.Format.{FileMeta, max_files}
use collaborative_doc.Metadata.{
  Store, Disk, is_meta, save_metadata, remove_at, remove_metadata_entry, update_entry,
  persist_find_file,
}

-- The first entry of a name.
unfoldable pub lookup : Text → List FileMeta → Option FileMeta
lookup g [] = none
lookup g (m ∷ ms) = let rest = lookup g ms in if is_meta g m then some m else rest

pub record IsValid (s : Store) : Type 0 where
  pub bounded : length s.file_table ≤ max_files
  pub unique : (g : Text) → count (is_meta g) s.file_table ≤ 1

lookup-find_index :
    (g : Text) (ms : List FileMeta)
    → lookup g ms ≡ elim (find_index (is_meta g) ms) as (λ o. Option FileMeta) [
      | none ↦ none
      | some i ↦ get_elem? ms i
    ]
unfolding lookup find_index
lookup-find_index g [] = refl
lookup-find_index g (m ∷ ms) = ground (arith, lookup-find_index g ms)

pub persist_find_file-lookup :
    (g : Text) (s : Store) → persist_find_file g s ≡ lookup g s.file_table
unfolding persist_find_file
persist_find_file-lookup g s = sym (lookup-find_index g s.file_table)

lookup-count : (g : Text) (ms : List FileMeta) → count (is_meta g) ms ≡ 0 → lookup g ms ≡ none
unfolding lookup
lookup-count g [] h = refl
lookup-count g (m ∷ ms) h = ground (arith, lookup-count g ms)

pub table-save_metadata : (b : Bool) (s : Store) → (save_metadata b s).file_table ≡ s.file_table
unfolding save_metadata
table-save_metadata false s = refl
table-save_metadata true s = refl

abbrev pub change_found : Bool → (FileMeta → FileMeta) → Option FileMeta → Option FileMeta
change_found false change o = o
change_found true change none = none
change_found true change (some m) = some (change m)

module _ (f g : Text) (change : FileMeta → FileMeta)
    (same : (m : FileMeta) → (change m).filename ≡ m.filename) where
  lookup-modify :
      (ms : List FileMeta) (i : ℕ)
      → find_index (is_meta f) ms ≡ some i
      → lookup g (modify ms i change) ≡ change_found (text_eq f g) change (lookup g ms)
  unfolding lookup find_index
  lookup-modify [] i h = absurd (cc h)
  lookup-modify (m ∷ ms) zero h =
      ground (arith, h, same m, text_eq_iff m.filename f, text_eq_iff m.filename g, text_eq_iff f g)
  lookup-modify (m ∷ ms) (suc i) h = ground (
    arith,
    h,
    lookup-modify ms i,
    text_eq_iff m.filename f,
    text_eq_iff m.filename g,
    text_eq_iff f g,
  )

  count-modify :
      (ms : List FileMeta) (i : ℕ) → count (is_meta g) (modify ms i change) ≡ count (is_meta g) ms
  count-modify [] i = refl
  count-modify (m ∷ ms) zero = rw (same m) refl
  count-modify (m ∷ ms) (suc i) = omega (arith, count-modify ms i)

pub lookup-append :
    (g : Text) (ms : List FileMeta) (m : FileMeta)
    → lookup g (ms ++ m ∷ []) ≡ elim (lookup g ms) as (λ o. Option FileMeta) [
      | none ↦ if is_meta g m then some m else none
      | some x ↦ some x
    ]
unfolding lookup
lookup-append g [] m = ground arith
lookup-append g (x ∷ ms) m = ground (arith, lookup-append g ms m)

length-modify :
    (ms : List FileMeta) (i : ℕ) (change : FileMeta → FileMeta)
    → length (modify ms i change) ≡ length ms
length-modify [] i change = refl
length-modify (m ∷ ms) zero change = refl
length-modify (m ∷ ms) (suc i) change = ap suc (length-modify ms i change)

length-remove_at : (ms : List FileMeta) (i : ℕ) → length (remove_at ms i) ≤ length ms
length-remove_at [] i = omega arith
length-remove_at (m ∷ ms) zero = omega arith
length-remove_at (m ∷ ms) (suc i) = omega (arith, length-remove_at ms i)

count-remove_at :
    (g : Text) (ms : List FileMeta) (i : ℕ)
    → count (is_meta g) (remove_at ms i) ≤ count (is_meta g) ms
count-remove_at g [] i = omega arith
count-remove_at g (m ∷ ms) zero = omega arith
count-remove_at g (m ∷ ms) (suc i) = omega (arith, count-remove_at g ms i)

lookup-remove_at :
    (f g : Text) (ms : List FileMeta) (i : ℕ)
    → find_index (is_meta f) ms ≡ some i
    → count (is_meta f) ms ≤ 1
    → lookup g (remove_at ms i) ≡ (if text_eq f g then none else lookup g ms)
unfolding lookup find_index
lookup-remove_at f g [] i h u = absurd (cc h)
lookup-remove_at f g (m ∷ ms) zero h u = ground (
  arith,
  h,
  lookup-count f ms,
  text_eq_iff m.filename f,
  text_eq_iff m.filename g,
  text_eq_iff f g,
)
lookup-remove_at f g (m ∷ ms) (suc i) h u = ground (
  arith,
  h,
  lookup-remove_at f g ms i,
  text_eq_iff m.filename f,
  text_eq_iff m.filename g,
  text_eq_iff f g,
)

update-cases :
    (f : Text) (change : FileMeta → FileMeta) (disk : Disk) (s : Store)
    → ((find_index (is_meta f) s.file_table ≡ none) × (update_entry f change disk s ≡ s))
      ⊎ ((i : ℕ) × (find_index (is_meta f) s.file_table ≡ some i)
          × ((update_entry f change disk s).file_table ≡ modify s.file_table i change))
unfolding update_entry
update-cases f change disk s = elim (Option-cases (find_index (is_meta f) s.file_table)) [
  | inl n ↦ inl (n, rw (n, update_entry) refl)
  | inr (i, e) ↦ inr (
    i,
    e,
    rw (e, update_entry)
        (table-save_metadata disk.writable
          (record s { file_table = modify s.file_table i change })),
  )
]

change_found_absent :
    (f g : Text) (change : FileMeta → FileMeta) (ms : List FileMeta)
    → count (is_meta f) ms ≡ 0
    → lookup g ms ≡ change_found (text_eq f g) change (lookup g ms)
change_found_absent f g change ms h = elim (Bool-cases (text_eq f g)) [
  | inr n ↦ rw n refl
  | inl y ↦
      let none_g : lookup g ms ≡ none = rw (← text_eq_sound f g y) (lookup-count f ms h) in
      rw (y, none_g) refl
]

-- A change of an entry that keeps its name is seen under this name and no other.
pub persist_find_file-update_entry :
    (f g : Text) (change : FileMeta → FileMeta) (disk : Disk) (s : Store)
    → ((m : FileMeta) → (change m).filename ≡ m.filename)
    → persist_find_file g (update_entry f change disk s)
      ≡ change_found (text_eq f g) change (persist_find_file g s)
persist_find_file-update_entry f g change disk s same =
    rw (persist_find_file-lookup g (update_entry f change disk s), persist_find_file-lookup g s)
      (elim (update-cases f change disk s) [
        | inr (i, e, t) ↦ rw t (lookup-modify f g change same s.file_table i e)
        | inl (n, e) ↦ rw e (
            change_found_absent f g change s.file_table
              ((find_index-none_iff_count (is_meta f) s.file_table).0 n))
      ])

pub update_entry-IsValid :
    (f : Text) (change : FileMeta → FileMeta) (disk : Disk) (s : Store)
    → ((m : FileMeta) → (change m).filename ≡ m.filename)
    → IsValid s
    → IsValid (update_entry f change disk s)
update_entry-IsValid f change disk s same v = elim (update-cases f change disk s) [
  | inl (_, e) ↦ rw e v
  | inr (i, e, t) ↦ record {
    bounded = rw (t, length-modify s.file_table i change) v.bounded;
    unique = λ g. rw (t, count-modify f g change same s.file_table i) (v.unique g);
  }
]

remove-cases :
    (f : Text) (disk : Disk) (s : Store)
    → ((find_index (is_meta f) s.file_table ≡ none) × (remove_metadata_entry f disk s ≡ s))
      ⊎ ((i : ℕ) × (find_index (is_meta f) s.file_table ≡ some i)
          × ((remove_metadata_entry f disk s).file_table ≡ remove_at s.file_table i))
unfolding remove_metadata_entry
remove-cases f disk s = elim (Option-cases (find_index (is_meta f) s.file_table)) [
  | inl n ↦ inl (n, rw (n, remove_metadata_entry) refl)
  | inr (i, e) ↦ inr (
    i,
    e,
    rw (e, remove_metadata_entry)
        (table-save_metadata disk.writable (record s { file_table = remove_at s.file_table i })),
  )
]

-- In a table without a name twice, a removed name is not found any more, and every other name is
-- found as before.
pub persist_find_file-remove_metadata_entry :
    (f g : Text) (disk : Disk) (s : Store)
    → IsValid s
    → persist_find_file g (remove_metadata_entry f disk s)
      ≡ (if text_eq f g then none else persist_find_file g s)
persist_find_file-remove_metadata_entry f g disk s v =
    rw (persist_find_file-lookup g (remove_metadata_entry f disk s), persist_find_file-lookup g s)
      (elim (remove-cases f disk s) [
        | inr (i, e, t) ↦ rw t (lookup-remove_at f g s.file_table i e (v.unique f))
        | inl (n, e) ↦ rw e (
            ground (
              arith,
              text_eq_iff f g,
              lookup-count g s.file_table,
              (find_index-none_iff_count (is_meta f) s.file_table).0 n,
            ))
      ])

pub remove_metadata_entry-IsValid :
    (f : Text) (disk : Disk) (s : Store) → IsValid s → IsValid (remove_metadata_entry f disk s)
remove_metadata_entry-IsValid f disk s v = elim (remove-cases f disk s) [
  | inl (_, e) ↦ rw e v
  | inr (i, e, t) ↦ record {
    bounded = rw t (omega (arith, length-remove_at s.file_table i, v.bounded));
    unique = λ g. rw t (omega (arith, count-remove_at g s.file_table i, v.unique g));
  }
]
