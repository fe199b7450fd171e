-- ===== src/Clients/SwapFiles.antt =====
-- The names of swap files in `client_handler_thread` of src/storage_server/main.c: they differ from
-- the names of their documents, and those of different clients differ.
use collaborative_doc.Prelude.{
  ℕ, pos, ◌≡◌, ◌≢◌, ◌∙◌, refl, sym, ap, true, false, inl, inr, [], ◌∷◌, ◌++◌, Text, bytes, text_eq,
  text_eq_sound, Bool-cases, ◌==◌, arith, All, length, length-append, if◌then◌else◌,
}
use collaborative_doc.Strings.Decimal.{
  print_int, atol, atol-print_int, print_int-is_numeral, is_numeral,
}
use collaborative_doc.Clients.{swap_name, swap_suffix}

-- What stands behind the last underscore, or `found`.
unfoldable behind_last : Text → Text → Text
behind_last found [] = found
behind_last found (c ∷ s) = if c == b'_' then behind_last s s else behind_last found s

behind_last-append : (found s t : Text) → behind_last found (s ++ b'_' ∷ t) ≡ behind_last t t
unfolding behind_last
behind_last-append found [] t = refl
behind_last-append found (c ∷ s) t = elim (Bool-cases (c == b'_')) [
  | inl y ↦ rw y (behind_last-append (s ++ b'_' ∷ t) s t)
  | inr n ↦ rw n (behind_last-append found s t)
]

behind_last_same : (found s : Text) → All (λ c. (c == b'_') ≡ false) s → behind_last found s ≡ found
unfolding behind_last
behind_last_same found [] h = refl
behind_last_same found (c ∷ s) h = rw h.0 (behind_last_same found s h.1)

-- What stands before the first point.
unfoldable before_point : Text → Text
before_point [] = []
before_point (c ∷ s) = if c == b'.' then [] else c ∷ before_point s

before_point-append :
    (s t : Text) → All (λ c. is_numeral c ≡ true) s → before_point (s ++ b'.' ∷ t) ≡ s
unfolding before_point
before_point-append [] t h = refl
before_point-append (c ∷ s) t h =
    let other : (c == b'.') ≡ false = ground (arith, h.0) in
    rw other (ap (◌∷◌ c) (before_point-append s t h.1))

no_underscore :
    (s : Text)
    → All (λ c. is_numeral c ≡ true) s
    → All (λ c. (c == b'_') ≡ false) (s ++ bytes ".swap")
no_underscore [] h = (refl, (refl, (refl, (refl, (refl, tt)))))
no_underscore (c ∷ s) h = (ground (arith, h.0), no_underscore s h.1)

-- The descriptor in the name.
behind_last-swap_name :
    (f : Text) (n fd : ℕ) → behind_last [] (swap_name f n fd) ≡ print_int (pos fd) ++ bytes ".swap"
unfolding swap_suffix
behind_last-swap_name f n fd =
    let number = print_int (pos fd) ++ bytes ".swap" in
    let rest = print_int (pos n) ++ b'_' ∷ number in
    behind_last-append [] f rest
    ∙ behind_last-append rest (print_int (pos n)) number
    ∙ behind_last_same number number
        (no_underscore (print_int (pos fd)) (print_int-is_numeral (pos fd)))

same_client : (f g : Text) (n m fd other : ℕ) → swap_name f n fd ≡ swap_name g m other → fd ≡ other
same_client f g n m fd other e =
    let texts : print_int (pos fd) ++ bytes ".swap" ≡ print_int (pos other) ++ bytes ".swap" =
      sym (behind_last-swap_name f n fd)
      ∙ ap (behind_last []) e
      ∙ behind_last-swap_name g m other in
    let numerals : print_int (pos fd) ≡ print_int (pos other) =
      sym (before_point-append (print_int (pos fd)) (bytes "swap") (print_int-is_numeral (pos fd)))
      ∙ ap before_point texts
      ∙ before_point-append (print_int (pos other)) (bytes "swap")
          (print_int-is_numeral (pos other)) in
    let numbers : pos fd ≡ pos other =
      sym (atol-print_int (pos fd)) ∙ ap atol numerals ∙ atol-print_int (pos other) in
    cc numbers

pub swap_name-ne :
    (f g : Text) (n m fd other : ℕ)
    → fd ≢ other
    → text_eq (swap_name f n fd) (swap_name g m other) ≡ false
swap_name-ne f g n m fd other ne =
    elim (Bool-cases (text_eq (swap_name f n fd) (swap_name g m other))) [
      | inl y ↦ absurd (
          ne (
            same_client f g n m fd other
              (text_eq_sound (swap_name f n fd) (swap_name g m other) y)))
      | inr k ↦ k
    ]

pub swap_name-document : (f : Text) (n fd : ℕ) → text_eq f (swap_name f n fd) ≡ false
unfolding swap_suffix
swap_name-document f n fd = elim (Bool-cases (text_eq f (swap_name f n fd))) [
  | inl y ↦ absurd (
      omega (
        arith,
        ap length (text_eq_sound f (swap_name f n fd) y),
        length-append f (swap_suffix n fd),
      ))
  | inr k ↦ k
]
