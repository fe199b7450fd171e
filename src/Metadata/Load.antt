-- ===== src/Metadata/Load.antt =====
-- `load_metadata` of src/storage_server/persistence.c.
use collaborative_doc.Prelude.{
  ℕ, zero, suc, ◌-◌, ℤ, pos, negsuc, Bool, true, false, Option, none, some, List, [], ◌∷◌,
  if◌then◌else◌, ◌==◌, Text, text_eq, strncpy, length,
}
use collaborative_doc.Acl.{Acl, max_acl_entries}
use collaborative_doc.Strings.Decimal.{atol}
use collaborative_doc.Strings.Tokens.{strtok, tokens, before, after}
use collaborative_doc.Strings.Lines.{lines}
use collaborative_doc.Metadata.Format.{FileMeta, max_files}

abbrev pub is_comma : ℕ → Bool
is_comma c = c == b','

abbrev pub is_semicolon : ℕ → Bool
is_semicolon c = c == b';'

abbrev pub is_colon : ℕ → Bool
is_colon c = c == b':'

-- A field that may be missing or a dash, and the text that is left.
abbrev pub read_name : ℕ → Option (Text × Text) → Text × Text
read_name size none = ([], [])
read_name size (some (t, s)) = (if text_eq t (b'-' ∷ []) then [] else strncpy size t, s)

-- A count that may be missing.
abbrev pub read_count : Option (Text × Text) → ℤ × Text
read_count none = (pos 0, [])
read_count (some (t, s)) = (atol t, s)

-- The permission is stored as an unsigned number of 32 bits.
abbrev pub to_permission : ℤ → ℕ
to_permission (pos n) = n
to_permission (negsuc n) = 4294967295 - n

-- `strchr(t, ':')`
unfoldable pub has_colon : Text → Bool
has_colon [] = false
has_colon (c ∷ s) = let rest = has_colon s in if is_colon c then true else rest

-- The loop over the entries, while there is room; one without a colon is passed over.
unfoldable pub read_acl : ℕ → List Text → Acl
read_acl room [] = []
read_acl zero (t ∷ ts) = []
read_acl (suc room) (t ∷ ts) =
    let rest = read_acl (if has_colon t then room else suc room) ts in
    if has_colon t
    then record {
      username = strncpy 63 (before is_colon t);
      permission = to_permission (atol (after is_colon t));
    }
      ∷ rest
    else rest

-- Whether `acl_count` of the line is positive.
abbrev pub is_positive : ℤ → Bool
is_positive (pos zero) = false
is_positive (pos (suc n)) = true
is_positive (negsuc n) = false

unfoldable pub read_entries : ℤ → Text → Acl
read_entries count rest =
    if is_positive count then read_acl max_acl_entries (tokens is_semicolon rest) else []

-- The fields behind the numbers; here nothing can fail.
unfoldable pub read_tail : Text → ℤ → ℤ → ℤ → ℤ → ℤ → Text → FileMeta
read_tail filename size word_count created modified last_accessed s =
    let (by, s1) = read_name 63 (strtok is_comma s) in
    let (owner, s2) = read_name 63 (strtok is_comma s1) in
    let (folder, s3) = read_name 255 (strtok is_comma s2) in
    let (count, s4) = read_count (strtok is_comma s3) in
    record {
      filename = strncpy 255 filename;
      size = size;
      word_count = word_count;
      created = created;
      modified = modified;
      last_accessed = last_accessed;
      last_accessed_by = by;
      owner_username = owner;
      folder = folder;
      acl = read_entries count s4;
    }

infixl 5 ◌>>=◌
abbrev pub ◌>>=◌ {ℓ κ} : {A : Type ℓ} {B : Type κ} → Option A → (A → Option B) → Option B
none >>= f = none
some a >>= f = f a

-- `none` is a line that is passed over, since one of its first six fields is missing.
unfoldable pub read_line : Text → Option FileMeta
read_line line = do
  f0 ← strtok is_comma line
  f1 ← strtok is_comma f0.1
  f2 ← strtok is_comma f1.1
  f3 ← strtok is_comma f2.1
  f4 ← strtok is_comma f3.1
  f5 ← strtok is_comma f4.1
  some (read_tail f0.0 (atol f1.0) (atol f2.0) (atol f3.0) (atol f4.0) (atol f5.0) f5.1)

-- The lines, while there is room in the table.
unfoldable pub read_lines : ℕ → List Text → List FileMeta
read_lines room [] = []
read_lines zero (l ∷ ls) = []
read_lines (suc room) (l ∷ ls) = elim (read_line l) [
  | none ↦ read_lines (suc room) ls
  | some m ↦ m ∷ read_lines room ls
]

-- Without metadata.txt the table stays as it is. The number is `file_count`, or 0.
unfoldable pub load_metadata : Option Text → List FileMeta → ℕ × List FileMeta
load_metadata none table = (0, table)
load_metadata (some text) table =
    let loaded = read_lines max_files (lines 2048 text) in (length loaded, loaded)
