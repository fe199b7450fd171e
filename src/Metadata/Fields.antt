-- ===== src/Metadata/Fields.antt =====
-- A line of metadata.txt, written and read.
use collaborative_doc.Prelude.{
  ℕ, zero, suc, ◌≤◌, ◌<◌, ◌≡◌, ◌≢◌, refl, ℤ, pos, Bool, true, false, some, [], ◌∷◌, ◌++◌, arith,
  Text, text_eq, length, All, All-append, All-weaken, append_assoc, take_of_length-le,
}
use collaborative_doc.Acl.{Acl, AclEntry}
use collaborative_doc.Strings.Decimal.{
  print_int, atol, atol-print_int, print_int-is_numeral, print_int-ne-nil, is_numeral, magnitude,
  ten,
}
use collaborative_doc.Strings.Tokens.{
  Lacks, strtok, strtok_field, tokens, tokens_field, before-append, after-append, tokens_from,
}
use collaborative_doc.Strings.Lines.{is_newline}
use collaborative_doc.Metadata.Format.{
  FileMeta, name_or_dash, as_int, format_acl, field, format_meta,
}
use collaborative_doc.Metadata.Load.{
  is_comma, is_semicolon, is_colon, read_name, to_permission, has_colon, read_acl, read_entries,
  read_tail, read_line,
}

-- A name that metadata.txt can hold, in a buffer of `n` bytes and a zero.
pub record IsField (n : ℕ) (s : Text) : Type 0 where
  pub short : length s ≤ n
  pub commas : Lacks is_comma s
  pub newlines : Lacks is_newline s
  pub dash : text_eq s (b'-' ∷ []) ≡ false

pub record IsEntry (e : AclEntry) : Type 0 where
  pub short : length e.username ≤ 63
  pub colons : Lacks is_colon e.username
  pub semicolons : Lacks is_semicolon e.username
  pub newlines : Lacks is_newline e.username
  pub permission : e.permission < 4294967296

-- A number of 64 bits has at most 19 digits.
abbrev pub IsLong : ℤ → Type 0
IsLong x = magnitude x < ten 19

pub record IsPlain (m : FileMeta) : Type 0 where
  pub filename : IsField 255 m.filename
  pub named : m.filename ≢ []
  pub size : IsLong m.size
  pub word_count : IsLong m.word_count
  pub created : IsLong m.created
  pub modified : IsLong m.modified
  pub last_accessed : IsLong m.last_accessed
  pub last_accessed_by : IsField 63 m.last_accessed_by
  pub owner_username : IsField 63 m.owner_username
  pub folder : IsField 255 m.folder
  pub bounded : length m.acl ≤ 10
  pub acl : All IsEntry m.acl

numeral-is_comma : (c : ℕ) → is_numeral c ≡ true → is_comma c ≡ false
numeral-is_comma c h = ground (arith, h)

numeral-is_semicolon : (c : ℕ) → is_numeral c ≡ true → is_semicolon c ≡ false
numeral-is_semicolon c h = ground (arith, h)

pub numeral-is_newline : (c : ℕ) → is_numeral c ≡ true → is_newline c ≡ false
numeral-is_newline c h = ground (arith, h)

strtok-print_int :
    (x : ℤ) (rest : Text) → strtok is_comma (field (print_int x) rest) ≡ some (print_int x, rest)
strtok-print_int x rest =
    strtok_field is_comma (print_int x) b',' rest (print_int-ne-nil x)
      (All-weaken numeral-is_comma (print_int x) (print_int-is_numeral x)) refl

-- A name or a dash reads as the name.
read_name-strtok :
    (n : ℕ) (s rest : Text)
    → IsField n s
    → read_name n (strtok is_comma (field (name_or_dash s) rest)) ≡ (s, rest)
unfolding text_eq
read_name-strtok n [] rest h =
    rw (strtok_field is_comma (b'-' ∷ []) b',' rest (λ e. cc e) (refl, tt) refl) refl
read_name-strtok n (c ∷ s) rest h =
    rw
      (
        strtok_field is_comma (c ∷ s) b',' rest (λ e. cc e) h.commas refl,
        h.dash,
        take_of_length-le n (c ∷ s) h.short,
      )
      refl

to_permission-as_int : (p : ℕ) → p < 4294967296 → to_permission (as_int p) ≡ p
to_permission-as_int p h = ground arith

has_colon-append : (s rest : Text) → has_colon (s ++ b':' ∷ rest) ≡ true
unfolding has_colon
has_colon-append [] rest = refl
has_colon-append (c ∷ s) rest = ground (arith, has_colon-append s rest)

-- The text of one entry.
abbrev pub entry : AclEntry → Text
entry e = e.username ++ b':' ∷ print_int (as_int e.permission)

pub entry-Lacks :
    (d : ℕ → Bool) (e : AclEntry)
    → Lacks d e.username
    → d b':' ≡ false
    → ((c : ℕ) → is_numeral c ≡ true → d c ≡ false)
    → Lacks d (entry e)
entry-Lacks d e h k n =
    All-append (λ c. d c ≡ false) e.username (b':' ∷ print_int (as_int e.permission)) h
      (
        k,
        All-weaken n (print_int (as_int e.permission)) (print_int-is_numeral (as_int e.permission)),
      )

entry-ne-nil : (s rest : Text) → s ++ b':' ∷ rest ≢ []
entry-ne-nil [] rest h = cc h
entry-ne-nil (c ∷ s) rest h = cc h

format_acl-cons :
    (e : AclEntry) (acl : Acl) (rest : Text)
    → format_acl (e ∷ acl) rest ≡ entry e ++ b';' ∷ format_acl acl rest
unfolding format_acl
format_acl-cons e acl rest = simp append_assoc

read_acl-tokens :
    (room : ℕ) (acl : Acl)
    → length acl ≤ room
    → All IsEntry acl
    → read_acl room (tokens is_semicolon (format_acl acl [])) ≡ acl
unfolding read_acl
read_acl-tokens room [] l h = unfold format_acl tokens_from in refl
read_acl-tokens zero (e ∷ acl) l h = absurd (omega arith)
read_acl-tokens (suc room) (e ∷ acl) l h =
    let number = print_int (as_int e.permission) in
    let first =
      tokens_field is_semicolon (entry e) b';' (format_acl acl []) (entry-ne-nil e.username number)
        (entry-Lacks is_semicolon e h.0.semicolons refl numeral-is_semicolon) refl in
    rw
      (
        format_acl-cons e acl [],
        first,
        has_colon-append e.username number,
        before-append is_colon e.username b':' number h.0.colons refl,
        after-append is_colon e.username b':' number h.0.colons refl,
        take_of_length-le 63 e.username h.0.short,
        atol-print_int (as_int e.permission),
        to_permission-as_int e.permission h.0.permission,
        read_acl-tokens room acl (omega arith) h.1,
      )
      refl

-- The count and the entries read as the list.
read_entries-format_acl :
    (acl : Acl)
    → length acl ≤ 10
    → All IsEntry acl
    → read_entries (atol (print_int (pos (length acl)))) (format_acl acl []) ≡ acl
unfolding read_entries
read_entries-format_acl [] l h = rw (atol-print_int (pos 0)) refl
read_entries-format_acl (e ∷ acl) l h =
    rw (atol-print_int (pos (suc (length acl)))) (read_acl-tokens 10 (e ∷ acl) l h)

pub read_line-format_meta : (m : FileMeta) → IsPlain m → read_line (format_meta m []) ≡ some m
unfolding read_line format_meta read_tail
read_line-format_meta m v =
    rw
      (
        strtok_field is_comma m.filename b',' _ v.named v.filename.commas refl,
        strtok-print_int m.size _,
        strtok-print_int m.word_count _,
        strtok-print_int m.created _,
        strtok-print_int m.modified _,
        strtok-print_int m.last_accessed _,
        read_name-strtok 63 m.last_accessed_by _ v.last_accessed_by,
        read_name-strtok 63 m.owner_username _ v.owner_username,
        read_name-strtok 255 m.folder _ v.folder,
        strtok-print_int (pos (length m.acl)) _,
        atol-print_int m.size,
        atol-print_int m.word_count,
        atol-print_int m.created,
        atol-print_int m.modified,
        atol-print_int m.last_accessed,
        take_of_length-le 255 m.filename v.filename.short,
        read_entries-format_acl m.acl v.bounded v.acl,
      )
      refl
