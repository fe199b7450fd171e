-- ===== src/Metadata/Format.antt =====
-- The text of metadata.txt as `save_metadata` of src/storage_server/persistence.c writes it.
use collaborative_doc.Prelude.{
  ℕ, ◌-◌, ℤ, pos, negsuc, List, [], ◌∷◌, ◌++◌, if◌then◌else◌, ltb, Text, length,
}
use collaborative_doc.Acl.{Acl}
use collaborative_doc.Strings.Decimal.{print_int}

abbrev pub max_files : ℕ
max_files = 1024

-- `FileMeta`; `acl` holds the first `acl_count` entries.
pub record FileMeta : Type 0 where
  pub filename : Text
  pub size : ℤ
  pub word_count : ℤ
  pub created : ℤ
  pub modified : ℤ
  pub last_accessed : ℤ
  pub last_accessed_by : Text
  pub owner_username : Text
  pub folder : Text
  pub acl : Acl

-- A name that may be empty.
abbrev pub name_or_dash : Text → Text
name_or_dash [] = b'-' ∷ []
name_or_dash (c ∷ s) = c ∷ s

-- `%d` of a 32-bit permission.
abbrev pub as_int : ℕ → ℤ
as_int p = if ltb p 2147483648 then pos p else negsuc (4294967295 - p)

-- Each piece is followed by `rest`, the text that is written after it.
unfoldable pub format_acl : Acl → Text → Text
format_acl [] rest = rest
format_acl (e ∷ acl) rest =
    e.username ++ b':' ∷ (print_int (as_int e.permission) ++ b';' ∷ format_acl acl rest)

abbrev pub field : Text → Text → Text
field s rest = s ++ b',' ∷ rest

unfoldable pub format_meta : FileMeta → Text → Text
format_meta m rest = field m.filename (
    field (print_int m.size) (
      field (print_int m.word_count) (
        field (print_int m.created) (
          field (print_int m.modified) (
            field (print_int m.last_accessed) (
              field (name_or_dash m.last_accessed_by) (
                field (name_or_dash m.owner_username) (
                  field (name_or_dash m.folder)
                    (field (print_int (pos (length m.acl))) (format_acl m.acl rest))))))))))

unfoldable pub format_table : List FileMeta → Text
format_table [] = []
format_table (m ∷ ms) = format_meta m (b'\n' ∷ format_table ms)
