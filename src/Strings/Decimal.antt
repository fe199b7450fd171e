-- ===== src/Strings/Decimal.antt =====
-- Decimal numbers: `%ld` and `%d` of `fprintf`, and `atol` and `atoi`, which read a number at the
-- start of a text and ignore what follows it.
use collaborative_doc.Prelude.{
  ℕ, zero, suc, ◌+◌, ◌-◌, ◌*◌, ◌/◌, ◌%◌, ◌≤◌, ◌<◌, ◌≡◌, ◌≢◌, ◌∙◌, refl, ap, Bool, true, ◌&&◌, ◌||◌,
  [], ◌∷◌, arith, leb, ◌==◌, if◌then◌else◌, Text, length, All, ℤ, pos, negsuc, Bool-cases, inl, inr,
}

abbrev pub is_digit : ℕ → Bool
is_digit c = leb b'0' c && leb c b'9'

-- `isspace`
abbrev pub is_space : ℕ → Bool
is_space c = (c == b' ') || (leb 9 c && leb c 13)

-- The loop of the print divides by ten; `fuel` rounds are enough for numbers below it.
unfoldable pub print_digits : ℕ → ℕ → Text → Text
print_digits zero n out = out
print_digits (suc fuel) n out =
    let shown = (b'0' + n % 10) ∷ out in
    let rest = print_digits fuel (n / 10) shown in if n / 10 == 0 then shown else rest

unfoldable pub print_int : ℤ → Text
print_int (pos n) = print_digits (suc n) n []
print_int (negsuc n) = b'-' ∷ print_digits (suc (suc n)) (suc n) []

unfoldable pub scan_digits : ℕ → Text → ℕ
scan_digits n [] = n
scan_digits n (c ∷ s) =
    let rest = scan_digits (n * 10 + (c - b'0')) s in if is_digit c then rest else n

abbrev pub negate : ℕ → ℤ
negate zero = pos 0
negate (suc n) = negsuc n

-- An optional sign and the digits.
unfoldable pub scan_int : Text → ℤ
scan_int [] = pos 0
scan_int (c ∷ s) =
    if c == b'-'
    then negate (scan_digits 0 s)
    else if c == b'+'
    then pos (scan_digits 0 s)
    else pos (scan_digits 0 (c ∷ s))

unfoldable pub atol : Text → ℤ
atol [] = pos 0
atol (c ∷ s) = let rest = atol s in if is_space c then rest else scan_int (c ∷ s)

abbrev pub IsDigits : Text → Type 0
IsDigits s = All (λ c. is_digit c ≡ true) s

shown-is_digit : (n : ℕ) → is_digit (b'0' + n % 10) ≡ true
shown-is_digit n = ground arith

-- A print is a list of digits.
print_digits-IsDigits :
    (fuel n : ℕ) (out : Text) → IsDigits out → IsDigits (print_digits fuel n out)
unfolding print_digits
print_digits-IsDigits zero n out h = h
print_digits-IsDigits (suc fuel) n out h =
    let shown : IsDigits ((b'0' + n % 10) ∷ out) = (shown-is_digit n, h) in
    elim (Bool-cases (n / 10 == 0)) [
      | inl y ↦ rw y shown
      | inr z ↦ rw z (print_digits-IsDigits fuel (n / 10) _ shown)
    ]

-- The digits that are printed read as the number, whatever follows.
scan_digits-print_digits :
    (fuel n : ℕ) (out : Text)
    → n < fuel
    → scan_digits 0 (print_digits fuel n out) ≡ scan_digits n out
unfolding print_digits scan_digits
scan_digits-print_digits zero n out h = absurd (omega arith)
scan_digits-print_digits (suc fuel) n out h =
    let shown = (b'0' + n % 10) ∷ out in
    elim (Bool-cases (n / 10 == 0)) [
      | inl y ↦ rw y (ground (arith, shown-is_digit n))
      | inr z ↦
          rw (z, scan_digits-print_digits fuel (n / 10) shown (ground (arith, z)))
            (ground (arith, shown-is_digit n))
    ]

print_digits-cons :
    (fuel n : ℕ) (out : Text) → (c : ℕ) × (s : Text) × (print_digits (suc fuel) n out ≡ c ∷ s)
unfolding print_digits
print_digits-cons zero n out = elim (Bool-cases (n / 10 == 0)) [
  | inl y ↦ (b'0' + n % 10, out, rw y refl)
  | inr z ↦ (b'0' + n % 10, out, rw z refl)
]
print_digits-cons (suc fuel) n out = elim (Bool-cases (n / 10 == 0)) [
  | inl y ↦ (b'0' + n % 10, out, rw y refl)
  | inr z ↦
      let (c, s, e) = print_digits-cons fuel (n / 10) ((b'0' + n % 10) ∷ out) in (c, s, rw z e)
]

atol_digits : (s : Text) → IsDigits s → atol s ≡ pos (scan_digits 0 s)
unfolding atol scan_int scan_digits
atol_digits [] h = refl
atol_digits (c ∷ s) h = ground (arith, h.0)

atol_minus : (s : Text) → atol (b'-' ∷ s) ≡ negate (scan_digits 0 s)
unfolding atol scan_int
atol_minus s = ground arith

scan_whole : (fuel n : ℕ) → n < fuel → scan_digits 0 (print_digits fuel n []) ≡ n
unfolding scan_digits
scan_whole fuel n h = scan_digits-print_digits fuel n [] h

-- A number that is printed is read back.
pub atol-print_int : (x : ℤ) → atol (print_int x) ≡ x
unfolding print_int
atol-print_int (pos n) =
    atol_digits (print_digits (suc n) n []) (print_digits-IsDigits (suc n) n [] tt)
    ∙ ap pos (scan_whole (suc n) n (omega arith))
atol-print_int (negsuc n) =
    atol_minus (print_digits (suc (suc n)) (suc n) [])
    ∙ ap negate (scan_whole (suc (suc n)) (suc n) (omega arith))

-- Ten to the power of `k`.
abbrev pub ten : ℕ → ℕ
ten zero = 1
ten (suc k) = 10 * ten k

length-print_digits :
    (k fuel n : ℕ) (out : Text)
    → n < ten (suc k)
    → length (print_digits fuel n out) ≤ length out + suc k
unfolding print_digits
length-print_digits k zero n out h = omega arith
length-print_digits zero (suc fuel) n out h =
    let last : (n / 10 == 0) ≡ true = ground (arith, h) in rw last (omega arith)
length-print_digits (suc k) (suc fuel) n out h = elim (Bool-cases (n / 10 == 0)) [
  | inl y ↦ rw y (omega arith)
  | inr z ↦
      let less : n / 10 < ten (suc k) = omega (arith, h) in
      rw z (omega (arith, length-print_digits k fuel (n / 10) ((b'0' + n % 10) ∷ out) less))
]

-- The size of a number without its sign.
abbrev pub magnitude : ℤ → ℕ
magnitude (pos n) = n
magnitude (negsuc n) = suc n

-- A number of at most `k` digits takes at most `k + 1` bytes, the sign included.
pub length-print_int :
    (k : ℕ) (x : ℤ) → magnitude x < ten (suc k) → length (print_int x) ≤ suc (suc k)
unfolding print_int
length-print_int k (pos n) h = omega (arith, length-print_digits k (suc n) n [] h)
length-print_int k (negsuc n) h = omega (arith, length-print_digits k (suc (suc n)) (suc n) [] h)

-- The bytes of a print.
abbrev pub is_numeral : ℕ → Bool
is_numeral c = is_digit c || (c == b'-')

digits-is_numeral : (s : Text) → IsDigits s → All (λ c. is_numeral c ≡ true) s
digits-is_numeral [] h = tt
digits-is_numeral (c ∷ s) h = (ground (arith, h.0), digits-is_numeral s h.1)

pub print_int-is_numeral : (x : ℤ) → All (λ c. is_numeral c ≡ true) (print_int x)
unfolding print_int
print_int-is_numeral (pos n) =
    digits-is_numeral (print_digits (suc n) n []) (print_digits-IsDigits (suc n) n [] tt)
print_int-is_numeral (negsuc n) = (
  refl,
  digits-is_numeral (print_digits (suc (suc n)) (suc n) [])
      (print_digits-IsDigits (suc (suc n)) (suc n) [] tt),
)

pub print_int-ne-nil : (x : ℤ) → print_int x ≢ []
unfolding print_int
print_int-ne-nil (pos n) h = let (c, s, e) = print_digits-cons n n [] in cc (e, h)
print_int-ne-nil (negsuc n) h = cc h
