-- ===== src/Strings/Scan.antt =====
-- The conversions of `sscanf` that the storage server uses: each gives what it read and the text
-- that is left, or `none` where it does not match. A number that `long` does not hold is left out.
use collaborative_doc.Prelude.{
  ℕ, zero, suc, ℤ, pos, Bool, not, Option, none, some, [], ◌∷◌, if◌then◌else◌, ◌==◌, Text,
}
use collaborative_doc.Strings.Decimal.{is_digit, is_space, scan_digits, negate}

unfoldable pub after_digits : Text → Text
after_digits [] = []
after_digits (c ∷ s) = let rest = after_digits s in if is_digit c then rest else c ∷ s

abbrev unsigned : (ℕ → ℤ) → Text → Option (ℤ × Text)
unsigned sign [] = none
unsigned sign (c ∷ s) =
    if is_digit c then some (sign (scan_digits 0 (c ∷ s)), after_digits (c ∷ s)) else none

-- `%ld`
unfoldable pub scan_number : Text → Option (ℤ × Text)
scan_number [] = none
scan_number (c ∷ s) =
    let rest = scan_number s in
    if is_space c
    then rest
    else if c == b'-'
    then unsigned negate s
    else if c == b'+'
    then unsigned (λ n. pos n) s
    else unsigned (λ n. pos n) (c ∷ s)

-- A byte of the format.
abbrev pub scan_byte : ℕ → Text → Option Text
scan_byte b [] = none
scan_byte b (c ∷ s) = if c == b then some s else none

-- The bytes that pass the test, at most `n`, and the rest.
unfoldable pub span : ℕ → (ℕ → Bool) → Text → Text × Text
span zero d s = ([], s)
span (suc n) d [] = ([], [])
span (suc n) d (c ∷ s) = let rest = span n d s in if d c then (c ∷ rest.0, rest.1) else ([], c ∷ s)

abbrev pub non_empty : Text × Text → Option (Text × Text)
non_empty ([], s) = none
non_empty (c ∷ t, s) = some (c ∷ t, s)

-- `%n[^b]`
abbrev pub scan_until : ℕ → ℕ → Text → Option (Text × Text)
scan_until n b s = non_empty (span n (λ c. not (c == b)) s)

unfoldable pub skip_spaces : Text → Text
skip_spaces [] = []
skip_spaces (c ∷ s) = let rest = skip_spaces s in if is_space c then rest else c ∷ s

-- `%ns`
abbrev pub scan_word : ℕ → Text → Option (Text × Text)
scan_word n s = non_empty (span n (λ c. not (is_space c)) (skip_spaces s))
