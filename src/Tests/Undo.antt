-- ===== src/Tests/Undo.antt =====
-- Runs of backups and undo.
use collaborative_doc.Prelude.{
  ℕ, ◌≡◌, refl, true, pos, Option, none, some, Text, bytes, text_eq, find_index, get_elem?, take,
  All,
}
use collaborative_doc.Strings.Decimal.{print_int, print_digits, scan_digits}
use collaborative_doc.Strings.Lines.{raw_lines, raw_lines_from}
use collaborative_doc.Strings.Scan.{scan_number, after_digits, span}
use collaborative_doc.Undo.{
  Backup, Versions, Opens, done, parse_backup, read_backups, pass, sort_rounds, format_backup,
  format_history, format_new, create_file_backup, restore, perform_undo, backups_of, is_unused,
  content_size, max_backups, line_size,
}
use collaborative_doc.Undo.Newest.{NotOlder, perform_undo-newest}
use collaborative_doc.Tests.Sample.{doc, bob}

abbrev all_open : Opens
all_open = record { file = true; backup = true; history = true }

-- Two backups, the first one used.
abbrev history : Text
history = bytes "30|doc_30.bak|bob|1\n20|doc_20.bak|alice|0\n"

abbrev versions : Text → Option Text
versions name = some name

abbrev document : Versions
document = record { file = some (bytes "now"); versions = versions; history = some history }

unfoldable running : Unit {0}
unfolding raw_lines_from scan_number scan_digits after_digits span parse_backup read_backups pass
    sort_rounds text_eq find_index restore print_int print_digits format_backup format_history
    format_new create_file_backup
running = tt

undone : (perform_undo all_open document).0 ≡ done
unfolding running perform_undo
undone = refl

undone-file : (perform_undo all_open document).1.file ≡ some (bytes "doc_20.bak")
unfolding running perform_undo
undone-file = refl

-- A backup of "one" and one of "two", and two undos behind them: both restore "two".
abbrev backed_up : Versions
backed_up =
    let s1 =
      (create_file_backup doc bob all_open (pos 20)
        (record { file = some (bytes "one"); versions = λ n. none; history = none })).1 in
    (create_file_backup doc bob all_open (pos 30) (record s1 { file = some (bytes "two") })).1

undo_once : (perform_undo all_open backed_up).1.file ≡ some (bytes "two")
unfolding running perform_undo
undo_once = refl

undo_twice : (perform_undo all_open (perform_undo all_open backed_up).1).1.file ≡ some (bytes "two")
unfolding running perform_undo
undo_twice = refl

perform_undo-newest_example :
    (i : ℕ) × (b : Backup) × (content : Text) × (get_elem? (backups_of history) i ≡ some b)
    × (is_unused b ≡ true)
    × (document.versions b.backup_name ≡ some content)
    × ((perform_undo all_open document).1.file ≡ some (take content_size content))
    × All
        (λ x. is_unused x ≡ true → NotOlder b x)
        (read_backups max_backups (raw_lines line_size history))
perform_undo-newest_example = perform_undo-newest all_open document history refl undone
