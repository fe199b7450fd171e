-- ===== src/Strings/Lines.antt =====
-- Lines: `fgets` until the end of the file, each line without its newline.
use collaborative_doc.Prelude.{
  ℕ, ◌+◌, ◌-◌, ◌<◌, ◌≡◌, refl, Bool, false, ◌||◌, List, [], ◌∷◌, ◌++◌, arith, leb, ◌==◌,
  if◌then◌else◌, Text, length, append_assoc, append-nil,
}
use collaborative_doc.Strings.Tokens.{flush, Lacks}

abbrev pub is_newline : ℕ → Bool
is_newline c = c == b'\n'

-- `room` bytes still fit into the buffer, which holds `full` bytes: a line that is longer comes in
-- pieces.
unfoldable pub lines_from : ℕ → ℕ → Text → Text → List Text
lines_from full room line [] = flush line []
lines_from full room line (c ∷ s) =
    let line' = if is_newline c then line else line ++ c ∷ [] in
    let ends = is_newline c || leb room 1 in
    let rest = lines_from full (if ends then full else room - 1) (if ends then [] else line') s in
    if ends then line' ∷ rest else rest

-- `while (fgets(line, size, f))`
abbrev pub lines : ℕ → Text → List Text
lines size s = lines_from (size - 1) (size - 1) [] s

-- The same, with the newlines that end the lines.
unfoldable pub raw_lines_from : ℕ → ℕ → Text → Text → List Text
raw_lines_from full room line [] = flush line []
raw_lines_from full room line (c ∷ s) =
    let ends = is_newline c || leb room 1 in
    let rest =
      raw_lines_from full (if ends then full else room - 1) (if ends then [] else line ++ c ∷ [])
        s in
    if ends then (line ++ c ∷ []) ∷ rest else rest

abbrev pub raw_lines : ℕ → Text → List Text
raw_lines size s = raw_lines_from (size - 1) (size - 1) [] s

-- A line that fits with its newline is read as one.
lines_from-append :
    (full room : ℕ) (s line rest : Text)
    → Lacks is_newline s
    → length s < room
    → lines_from full room line (s ++ b'\n' ∷ rest) ≡ (line ++ s) ∷ lines_from full full [] rest
unfolding lines_from
lines_from-append full room [] line rest h k = rw (append-nil line) refl
lines_from-append full room (c ∷ s) line rest h k =
    let goes : leb room 1 ≡ false = ground (arith, k) in
    rw
      (
        h.0,
        goes,
        lines_from-append full (room - 1) s (line ++ c ∷ []) rest h.1 (omega arith),
        append_assoc,
      )
      refl

pub lines-append :
    (size : ℕ) (s rest : Text)
    → Lacks is_newline s
    → length s + 1 < size
    → lines size (s ++ b'\n' ∷ rest) ≡ s ∷ lines size rest
lines-append size s rest h k = lines_from-append (size - 1) (size - 1) s [] rest h (omega arith)
