-- ===== src/Metadata/Additions.antt =====
-- What a new entry does to the table.
use collaborative_doc.Prelude.{
  ◌≤◌, ◌<◌, ◌≡◌, ◌∙◌, ◌⊎◌, refl, sym, ap, true, false, none, some, inl, inr, [], ◌∷◌, ◌++◌,
  if◌then◌else◌, arith, leb, Text, text_eq, text_eq_iff, text_eq_sound, length, length-append,
  find_index, find_index-some, subst, find_index-none_iff_count, count-append, Bool-cases,
  Option-cases, take_of_length-le,
}
use collaborative_doc.Metadata.Format.{max_files}
use collaborative_doc.Metadata.{
  Store, Disk, is_meta, new_meta, add_metadata_entry, persist_find_file,
}
use collaborative_doc.Metadata.Table.{
  IsValid, lookup, lookup-append, persist_find_file-lookup, table-save_metadata,
}

add-cases :
    (f : Text) (disk : Disk) (s : Store)
    → (add_metadata_entry f disk s ≡ s)
      ⊎ ((find_index (is_meta f) s.file_table ≡ none)
          × (length s.file_table < max_files)
          × ((add_metadata_entry f disk s).file_table ≡ s.file_table ++ new_meta f disk ∷ []))
unfolding add_metadata_entry
add-cases f disk s = elim (Option-cases (find_index (is_meta f) s.file_table)) [
  | inr (i, e) ↦ inl (rw (e, add_metadata_entry) refl)
  | inl n ↦ elim (Bool-cases (leb max_files (length s.file_table))) [
    | inl y ↦ inl (rw (n, add_metadata_entry, y) refl)
    | inr z ↦ inr (
      n,
      ground (arith, z),
      rw (n, add_metadata_entry, z)
          (table-save_metadata disk.writable
            (record s { file_table = s.file_table ++ new_meta f disk ∷ [] })),
    )
  ]
]

new_meta-is_meta :
    (f g : Text) (disk : Disk) → length f ≤ 255 → is_meta g (new_meta f disk) ≡ text_eq f g
new_meta-is_meta f g disk h = ap (λ n. text_eq n g) (take_of_length-le 255 f h)

pub add_metadata_entry-IsValid :
    (f : Text) (disk : Disk) (s : Store)
    → length f ≤ 255
    → IsValid s
    → IsValid (add_metadata_entry f disk s)
add_metadata_entry-IsValid f disk s short v = elim (add-cases f disk s) [
  | inl e ↦ rw e v
  | inr (n, room, t) ↦
      let new = new_meta f disk in
      record {
        bounded = rw t (omega (arith, room, length-append s.file_table (new ∷ [])));
        unique = λ g.
            rw
              (t, count-append (is_meta g) s.file_table (new ∷ []), new_meta-is_meta f g disk short)
              (ground (
                arith,
                v.unique g,
                text_eq_iff f g,
                (find_index-none_iff_count (is_meta f) s.file_table).0 n,
              ));
      }
]

find_index_absent :
    (f : Text) (s : Store)
    → persist_find_file f s ≡ none
    → find_index (is_meta f) s.file_table ≡ none
unfolding persist_find_file
find_index_absent f s h = elim (Option-cases (find_index (is_meta f) s.file_table)) [
  | inl n ↦ n
  | inr (i, e) ↦
      let (l, (x, g, _)) = find_index-some (is_meta f) s.file_table i e in
      let found : persist_find_file f s ≡ some x = rw (e, persist_find_file) g in
      absurd (cc (found, h))
]

table-add_metadata_entry :
    (f : Text) (disk : Disk) (s : Store)
    → find_index (is_meta f) s.file_table ≡ none
    → length s.file_table < max_files
    → (add_metadata_entry f disk s).file_table ≡ s.file_table ++ new_meta f disk ∷ []
unfolding add_metadata_entry
table-add_metadata_entry f disk s n room =
    let z : leb max_files (length s.file_table) ≡ false = ground (arith, room) in
    rw (n, add_metadata_entry, z)
      (table-save_metadata disk.writable
        (record s { file_table = s.file_table ++ new_meta f disk ∷ [] }))

-- A new entry, with a name of at most 255 bytes and room in the table, is found under its name
-- with the size and the words of the file, and every other name is found as before.
pub persist_find_file-add_metadata_entry :
    (f g : Text) (disk : Disk) (s : Store)
    → length f ≤ 255
    → length s.file_table < max_files
    → persist_find_file f s ≡ none
    → persist_find_file g (add_metadata_entry f disk s)
      ≡ (if text_eq f g then some (new_meta f disk) else persist_find_file g s)
persist_find_file-add_metadata_entry f g disk s short room absent =
    let new = new_meta f disk in
    let gone : lookup f s.file_table ≡ none = sym (persist_find_file-lookup f s) ∙ absent in
    let t = table-add_metadata_entry f disk s (find_index_absent f s absent) room in
    let gone_g = λ (y : text_eq f g ≡ true).
      subst (λ n. lookup n s.file_table ≡ none) (text_eq_sound f g y) gone in
    rw
      (
        persist_find_file-lookup g (add_metadata_entry f disk s),
        persist_find_file-lookup g s,
        t,
        lookup-append g s.file_table new,
      )
      (elim (Bool-cases (text_eq f g)) [
        | inl y ↦ rw (gone_g y, new_meta-is_meta f g disk short, y) refl
        | inr n ↦ elim (Option-cases (lookup g s.file_table)) [
          | inl e ↦ rw (e, new_meta-is_meta f g disk short, n) refl
          | inr (m, e) ↦ rw (e, n) refl
        ]
      ])
