-- ===== src/Undo.antt =====
-- Backups and undo of a document on a storage server: `create_file_backup` and `perform_undo` of
-- src/storage_server/main.c. The versions are a function from names to contents, the history of a
-- document is a text, or `none` where there is none.
pub mod Newest
use collaborative_doc.Prelude.{
  ℕ, zero, suc, ℤ, pos, negsuc, Bool, true, false, Option, none, some, List, [], ◌∷◌, ◌++◌,
  if◌then◌else◌, ltb, leb, ◌==◌, not, Text, text_eq, bytes, length, take, strncpy, find_index,
  get_elem?, modify,
}
use collaborative_doc.Strings.Decimal.{print_int}
use collaborative_doc.Strings.Lines.{raw_lines}
use collaborative_doc.Strings.Scan.{scan_number, scan_byte, scan_until}
use collaborative_doc.Metadata.Load.{◌>>=◌}

-- `backup_entry_t`
pub record Backup : Type 0 where
  pub timestamp : ℤ
  pub backup_name : Text
  pub user : Text
  pub used : ℤ

-- The flag at the end of a line; 0 where there is none.
abbrev pub scan_used : Text → ℤ
scan_used s = elim (scan_byte b'|' s) [
  | none ↦ pos 0
  | some t ↦ elim (scan_number t) [ none ↦ pos 0 | some n ↦ n.0 ]
]

-- `sscanf(line, "%ld|%255[^|]|%127[^|]|%d", ...) >= 3`
unfoldable pub parse_backup : Text → Option Backup
parse_backup line = do
  timestamp ← scan_number line
  s1 ← scan_byte b'|' timestamp.1
  name ← scan_until 255 b'|' s1
  s2 ← scan_byte b'|' name.1
  user ← scan_until 127 b'|' s2
  some (record {
    timestamp = timestamp.0;
    backup_name = name.0;
    user = user.0;
    used = scan_used user.1;
  })

-- The lines that parse, while there is room in `backups`.
unfoldable pub read_backups : ℕ → List Text → List Backup
read_backups room [] = []
read_backups zero (l ∷ ls) = []
read_backups (suc room) (l ∷ ls) = elim (parse_backup l) [
  | none ↦ read_backups (suc room) ls
  | some b ↦ b ∷ read_backups room ls
]

abbrev pub max_backups : ℕ
max_backups = 1000

abbrev pub less : ℤ → ℤ → Bool
less (pos m) (pos n) = ltb m n
less (pos m) (negsuc n) = false
less (negsuc m) (pos n) = true
less (negsuc m) (negsuc n) = ltb n m

-- The inner loop of the sort, over the entries behind `b`: what ends up at its place, and behind.
unfoldable pub pass : Backup → List Backup → Backup × List Backup
pass b [] = (b, [])
pass b (x ∷ xs) =
    let swap = less b.timestamp x.timestamp in
    let rest = pass (if swap then x else b) xs in (rest.0, (if swap then b else x) ∷ rest.1)

-- The outer loop; a round for each entry.
unfoldable pub sort_rounds : ℕ → List Backup → List Backup
sort_rounds zero bs = bs
sort_rounds (suc fuel) [] = []
sort_rounds (suc fuel) (b ∷ bs) = let found = pass b bs in found.0 ∷ sort_rounds fuel found.1

abbrev pub sort : List Backup → List Backup
sort bs = sort_rounds (length bs) bs

abbrev pub is_zero : ℤ → Bool
is_zero (pos zero) = true
is_zero (pos (suc n)) = false
is_zero (negsuc n) = false

-- `!backups[i].used`
abbrev pub is_unused : Backup → Bool
is_unused b = is_zero b.used

-- The line of a history that is written again.
unfoldable pub format_backup : Backup → Text
format_backup b =
    print_int b.timestamp
    ++ b'|' ∷ (b.backup_name ++ b'|' ∷ (b.user ++ b'|' ∷ (print_int b.used ++ b'\n' ∷ [])))

unfoldable pub format_history : List Backup → Text
format_history [] = []
format_history (b ∷ bs) = format_backup b ++ format_history bs

-- What belongs to one document.
pub record Versions : Type 0 where
  pub file : Option Text
  pub versions : Text → Option Text
  pub history : Option Text

-- Whether files open for writing: the document, a backup, and the history.
pub record Opens : Type 0 where
  pub file : Bool
  pub backup : Bool
  pub history : Bool

pub data Result : Type 0 where
  done nothing failed : Result

-- What fits the buffers for contents.
abbrev pub content_size : ℕ
content_size = 8191

abbrev pub backup_name_of : Text → ℤ → Text
backup_name_of filename now = strncpy 511 (filename ++ b'_' ∷ (print_int now ++ bytes ".bak"))

abbrev pub put_version : Text → Text → (Text → Option Text) → Text → Option Text
put_version name content versions n = if text_eq n name then some content else versions n

abbrev pub text_of : Option Text → Text
text_of none = []
text_of (some text) = text

-- The line that a backup adds: it has no flag.
unfoldable pub format_new : ℤ → Text → Text → Text
format_new now name user = print_int now ++ b'|' ∷ (name ++ b'|' ∷ (user ++ b'\n' ∷ []))

unfoldable pub create_file_backup : Text → Text → Opens → ℤ → Versions → Result × Versions
create_file_backup filename user opens now s = elim s.file [
  | none ↦ (nothing, s)
  | some content ↦
      if opens.backup
      then (let name = backup_name_of filename now in
          (
            done,
            record {
              file = s.file;
              versions = put_version name (take content_size content) s.versions;
              history =
                  if opens.history
                  then some (text_of s.history ++ format_new now name user)
                  else s.history;
            },
          ))
      else (failed, s)
]

abbrev pub line_size : ℕ
line_size = 1024

-- The entries of a history, the newest first.
abbrev pub backups_of : Text → List Backup
backups_of text = sort (read_backups max_backups (raw_lines line_size text))

-- The part behind the search of the entry `b` at `i`.
unfoldable pub restore : Opens → List Backup → ℕ → Backup → Versions → Result × Versions
restore opens backups i b s = elim (s.versions b.backup_name) [
  | none ↦ (failed, s)
  | some content ↦
      if opens.file
      then (
        done,
        record {
          file = some (take content_size content);
          versions = s.versions;
          history =
              if opens.history
              then some (format_history (modify backups i (λ x. record x { used = pos 1 })))
              else s.history;
        },
      )
      else (failed, s)
]

unfoldable pub perform_undo : Opens → Versions → Result × Versions
perform_undo opens s = elim s.history [
  | none ↦ (nothing, s)
  | some text ↦ elim (find_index is_unused (backups_of text)) [
    | none ↦ (nothing, s)
    | some i ↦ elim (get_elem? (backups_of text) i) [
      | none ↦ (nothing, s)
      | some b ↦ restore opens (backups_of text) i b s
    ]
  ]
]
