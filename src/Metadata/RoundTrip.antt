-- ===== src/Metadata/RoundTrip.antt =====
-- Writing the table to metadata.txt and loading it again.
use collaborative_doc.Prelude.{
  ℕ, zero, suc, ◌+◌, ◌*◌, ◌≤◌, ◌<◌, ◌≡◌, refl, ℤ, pos, Bool, true, false, List, [], ◌∷◌, ◌++◌,
  arith, Text, length, length-append, All, All-append, All-weaken, append_assoc,
}
use collaborative_doc.Acl.{Acl}
use collaborative_doc.Strings.Decimal.{
  print_int, print_int-is_numeral, magnitude, ten, length-print_int,
}
use collaborative_doc.Strings.Tokens.{Lacks}
use collaborative_doc.Strings.Lines.{is_newline, lines, lines_from, lines-append}
use collaborative_doc.Metadata.Format.{
  FileMeta, max_files, name_or_dash, as_int, format_acl, field, format_meta, format_table,
}
use collaborative_doc.Metadata.{Store, save_metadata}
use collaborative_doc.Metadata.Load.{read_lines, load_metadata}
use collaborative_doc.Metadata.Fields.{
  IsEntry, IsField, IsLong, IsPlain, entry, entry-Lacks, numeral-is_newline, read_line-format_meta,
}

format_acl-append : (acl : Acl) (rest : Text) → format_acl acl rest ≡ format_acl acl [] ++ rest
unfolding format_acl
format_acl-append [] rest = refl
format_acl-append (e ∷ acl) rest = rw (format_acl-append acl rest) (simp append_assoc)

-- What is written after a line goes behind it.
format_meta-append : (m : FileMeta) (rest : Text) → format_meta m rest ≡ format_meta m [] ++ rest
unfolding format_meta
format_meta-append m rest = rw (format_acl-append m.acl rest) (simp append_assoc)

Lacks-field :
    (d : ℕ → Bool) (s rest : Text)
    → d b',' ≡ false
    → Lacks d s
    → Lacks d rest
    → Lacks d (field s rest)
Lacks-field d s rest k h l = All-append (λ c. d c ≡ false) s (b',' ∷ rest) h (k, l)

numbers : (x : ℤ) → Lacks is_newline (print_int x)
numbers x = All-weaken numeral-is_newline (print_int x) (print_int-is_numeral x)

dashed : (n : ℕ) (s : Text) → IsField n s → Lacks is_newline (name_or_dash s)
dashed n [] h = (refl, tt)
dashed n (c ∷ s) h = h.newlines

format_acl-Lacks : (acl : Acl) → All IsEntry acl → Lacks is_newline (format_acl acl [])
unfolding format_acl
format_acl-Lacks [] h = tt
format_acl-Lacks (e ∷ acl) h =
    rw
      (← append_assoc e.username (b':' ∷ print_int (as_int e.permission))
        (b';' ∷ format_acl acl []))
      (All-append (λ c. is_newline c ≡ false) (entry e) (b';' ∷ format_acl acl [])
        (entry-Lacks is_newline e h.0.newlines refl numeral-is_newline)
        (refl, format_acl-Lacks acl h.1))

format_meta-Lacks : (m : FileMeta) → IsPlain m → Lacks is_newline (format_meta m [])
unfolding format_meta
format_meta-Lacks m v =
    let f = Lacks-field is_newline in
    f m.filename _ refl v.filename.newlines (
      f (print_int m.size) _ refl (numbers m.size) (
        f (print_int m.word_count) _ refl (numbers m.word_count) (
          f (print_int m.created) _ refl (numbers m.created) (
            f (print_int m.modified) _ refl (numbers m.modified) (
              f (print_int m.last_accessed) _ refl (numbers m.last_accessed) (
                f (name_or_dash m.last_accessed_by) _ refl
                  (dashed 63 m.last_accessed_by v.last_accessed_by)
                  (f (name_or_dash m.owner_username) _ refl
                    (dashed 63 m.owner_username v.owner_username)
                    (f (name_or_dash m.folder) _ refl (dashed 255 m.folder v.folder) (
                      f (print_int (pos (length m.acl))) _ refl (numbers (pos (length m.acl)))
                        (format_acl-Lacks m.acl v.acl))))))))))

length-name_or_dash : (n : ℕ) (s : Text) → length s ≤ n → 1 ≤ n → length (name_or_dash s) ≤ n
length-name_or_dash n [] h k = k
length-name_or_dash n (c ∷ s) h k = h

as_int-magnitude : (p : ℕ) → p < 4294967296 → magnitude (as_int p) < ten 10
as_int-magnitude p h = ground arith

length-format_acl : (acl : Acl) → All IsEntry acl → length (format_acl acl []) ≤ 76 * length acl
unfolding format_acl
length-format_acl [] h = omega arith
length-format_acl (e ∷ acl) h =
    let number = print_int (as_int e.permission) in
    omega (
      arith,
      h.0.short,
      length-append e.username (b':' ∷ (number ++ b';' ∷ format_acl acl [])),
      length-append number (b';' ∷ format_acl acl []),
      length-print_int 9 (as_int e.permission) (as_int-magnitude e.permission h.0.permission),
      length-format_acl acl h.1,
    )

length-field : (s rest : Text) → length (field s rest) ≡ length s + suc (length rest)
length-field s rest = length-append s (b',' ∷ rest)

-- The line of such an entry, with its line end, fits the buffer of 2048 bytes that load_metadata
-- reads lines into.
length-format_meta : (m : FileMeta) → IsPlain m → length (format_meta m []) + 1 < 2048
unfolding format_meta
length-format_meta m v =
    let n = λ (x : ℤ) (l : IsLong x). length-print_int 18 x l in
    let few : magnitude (pos (length m.acl)) < ten 2 = omega (arith, v.bounded) in
    omega (
      arith,
      v.filename.short,
      n m.size v.size,
      n m.word_count v.word_count,
      n m.created v.created,
      n m.modified v.modified,
      n m.last_accessed v.last_accessed,
      length-name_or_dash 63 m.last_accessed_by v.last_accessed_by.short (omega arith),
      length-name_or_dash 63 m.owner_username v.owner_username.short (omega arith),
      length-name_or_dash 255 m.folder v.folder.short (omega arith),
      length-print_int 1 (pos (length m.acl)) few,
      length-format_acl m.acl v.acl,
      v.bounded,
      length-append {A = ℕ},
    )

read_lines-format_table :
    (room : ℕ) (table : List FileMeta)
    → length table ≤ room
    → All IsPlain table
    → read_lines room (lines 2048 (format_table table)) ≡ table
unfolding read_lines format_table
read_lines-format_table room [] l h = unfold lines_from in refl
read_lines-format_table zero (m ∷ ms) l h = absurd (omega arith)
read_lines-format_table (suc room) (m ∷ ms) l h =
    rw
      (
        format_meta-append m (b'\n' ∷ format_table ms),
        lines-append 2048 (format_meta m []) (format_table ms) (format_meta-Lacks m h.0)
            (length-format_meta m h.0),
        read_line-format_meta m h.0,
        read_lines,
        read_lines-format_table room ms (omega arith) h.1,
      )
      refl

-- A table of at most 1024 entries that is saved and loaded again is the same, if its names are
-- free of commas, line ends and the name "-", no file name is empty, names and numbers fit their
-- types, and the users of access lists have no colon, semicolon or line end; the table that was
-- in memory does not matter.
pub load_metadata-save_metadata :
    (s : Store) (loaded : List FileMeta)
    → length s.file_table ≤ max_files
    → All IsPlain s.file_table
    → load_metadata (save_metadata true s).metadata loaded ≡ (length s.file_table, s.file_table)
unfolding load_metadata save_metadata
load_metadata-save_metadata s loaded l h =
    rw (read_lines-format_table max_files s.file_table l h) refl
