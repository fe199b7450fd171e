-- ===== src/Strings/Tokens.antt =====
-- Tokens: `strtok_r`, and the list of the tokens that its calls give until there is none.
use collaborative_doc.Prelude.{
  ℕ, zero, suc, ◌≤◌, ◌<◌, ◌≡◌, ◌≢◌, ◌∙◌, refl, sym, ap, Bool, true, false, Option, none, some, inl,
  inr, List, [], ◌∷◌, ◌++◌, arith, if◌then◌else◌, Text, length, All, Bool-cases, append_assoc,
  append-nil,
}

-- The text behind the delimiters that it starts with.
unfoldable pub skip : (ℕ → Bool) → Text → Text
skip d [] = []
skip d (c ∷ s) = let rest = skip d s in if d c then rest else c ∷ s

-- The text before the first delimiter, and the text behind it.
unfoldable pub before : (ℕ → Bool) → Text → Text
before d [] = []
before d (c ∷ s) = let rest = before d s in if d c then [] else c ∷ rest

unfoldable pub after : (ℕ → Bool) → Text → Text
after d [] = []
after d (c ∷ s) = let rest = after d s in if d c then s else rest

abbrev cut : (ℕ → Bool) → Text → Option (Text × Text)
cut d [] = none
cut d (c ∷ s) = some (before d (c ∷ s), after d (c ∷ s))

-- `strtok_r(s, d, &save)`: the token with the text that is left, or `none` for a null pointer.
unfoldable pub strtok : (ℕ → Bool) → Text → Option (Text × Text)
strtok d s = cut d (skip d s)

-- A token that ends, if it has bytes.
abbrev pub flush : Text → List Text → List Text
flush [] ts = ts
flush (c ∷ s) ts = (c ∷ s) ∷ ts

-- The tokens of a text, with the one that is being read.
unfoldable pub tokens_from : (ℕ → Bool) → Text → Text → List Text
tokens_from d current [] = flush current []
tokens_from d current (c ∷ s) =
    let rest = tokens_from d (if d c then [] else current ++ c ∷ []) s in
    if d c then flush current rest else rest

abbrev pub tokens : (ℕ → Bool) → Text → List Text
tokens d s = tokens_from d [] s

-- `for (t = strtok_r(s, d, &save); t; t = strtok_r(NULL, d, &save))`, for at most `fuel` rounds.
unfoldable pub strtok_all : (ℕ → Bool) → ℕ → Text → List Text
strtok_all d zero s = []
strtok_all d (suc fuel) s = elim (strtok d s) [
  | none ↦ []
  | some found ↦ found.0 ∷ strtok_all d fuel found.1
]

-- No byte is a delimiter.
abbrev pub Lacks : (ℕ → Bool) → Text → Type 0
Lacks d s = All (λ c. d c ≡ false) s

module _ (d : ℕ → Bool) where
  skip_none : (c : ℕ) (s : Text) → d c ≡ false → skip d (c ∷ s) ≡ c ∷ s
  unfolding skip
  skip_none c s h = rw h refl

  pub before-append :
      (s : Text) (c : ℕ) (rest : Text) → Lacks d s → d c ≡ true → before d (s ++ c ∷ rest) ≡ s
  unfolding before
  before-append [] c rest h k = rw k refl
  before-append (x ∷ s) c rest h k = rw (h.0, before-append s c rest h.1 k) refl

  pub after-append :
      (s : Text) (c : ℕ) (rest : Text) → Lacks d s → d c ≡ true → after d (s ++ c ∷ rest) ≡ rest
  unfolding after
  after-append [] c rest h k = rw k refl
  after-append (x ∷ s) c rest h k = rw (h.0, after-append s c rest h.1 k) refl

  -- A field that is not empty, up to the delimiter behind it.
  pub strtok_field :
      (s : Text) (c : ℕ) (rest : Text)
      → s ≢ []
      → Lacks d s
      → d c ≡ true
      → strtok d (s ++ c ∷ rest) ≡ some (s, rest)
  unfolding strtok
  strtok_field [] c rest ne h k = absurd (ne refl)
  strtok_field (x ∷ s) c rest ne h k =
      rw
        (
          skip_none x (s ++ c ∷ rest) h.0,
          before-append (x ∷ s) c rest h k,
          after-append (x ∷ s) c rest h k,
        )
        refl

  tokens_from-append :
      (s current : Text) (c : ℕ) (rest : Text)
      → Lacks d s
      → d c ≡ true
      → tokens_from d current (s ++ c ∷ rest) ≡ flush (current ++ s) (tokens_from d [] rest)
  unfolding tokens_from
  tokens_from-append [] current c rest h k = rw (k, append-nil current) refl
  tokens_from-append (x ∷ s) current c rest h k =
      rw (h.0, tokens_from-append s (current ++ x ∷ []) c rest h.1 k, append_assoc) refl

  -- A field with the delimiter behind it is the first token.
  pub tokens_field :
      (s : Text) (c : ℕ) (rest : Text)
      → s ≢ []
      → Lacks d s
      → d c ≡ true
      → tokens d (s ++ c ∷ rest) ≡ s ∷ tokens d rest
  tokens_field [] c rest ne h k = absurd (ne refl)
  tokens_field (x ∷ s) c rest ne h k = tokens_from-append (x ∷ s) [] c rest h k

  -- What `tokens` does with a token that is being read.
  tokens_from-before :
      (s : Text) (x : ℕ) (current : Text)
      → tokens_from d (x ∷ current) s ≡ ((x ∷ current) ++ before d s) ∷ tokens_from d [] (after d s)
  unfolding tokens_from before after
  tokens_from-before [] x current = rw (append-nil current) refl
  tokens_from-before (c ∷ s) x current = elim (Bool-cases (d c)) [
    | inl y ↦ rw (y, append-nil current) refl
    | inr n ↦ rw (n, tokens_from-before s x (current ++ c ∷ []), append_assoc) refl
  ]

  tokens_from-skip : (s : Text) → tokens_from d [] s ≡ tokens_from d [] (skip d s)
  unfolding tokens_from skip
  tokens_from-skip [] = refl
  tokens_from-skip (c ∷ s) = elim (Bool-cases (d c)) [
    | inl y ↦ rw (y, tokens_from-skip s) refl
    | inr n ↦ rw (n, tokens_from, n) refl
  ]

  length-skip : (s : Text) → length (skip d s) ≤ length s
  unfolding skip
  length-skip [] = omega arith
  length-skip (c ∷ s) = ground (arith, length-skip s)

  length-after : (s : Text) → length (after d s) ≤ length s
  unfolding after
  length-after [] = omega arith
  length-after (c ∷ s) = ground (arith, length-after s)

  -- What a skipped text starts with is no delimiter.
  skip-head : (s : Text) (c : ℕ) (t : Text) → skip d s ≡ c ∷ t → d c ≡ false
  unfolding skip
  skip-head [] c t h = absurd (cc h)
  skip-head (x ∷ s) c t h = elim (Bool-cases (d x)) [
    | inl y ↦ skip-head s c t (rw y at h)
    | inr n ↦ let e : x ∷ s ≡ c ∷ t = rw n at h in let same : x ≡ c = cc e in rw (← same) n
  ]

  strtok-skip : (s t : Text) → skip d s ≡ t → strtok d s ≡ cut d t
  unfolding strtok
  strtok-skip s t h = ap (cut d) h

  strtok_all_stop : (fuel : ℕ) (s : Text) → strtok d s ≡ none → strtok_all d (suc fuel) s ≡ []
  unfolding strtok_all
  strtok_all_stop fuel s h = rw (h, strtok_all) refl

  strtok_all_go :
      (fuel : ℕ) (s t rest : Text)
      → strtok d s ≡ some (t, rest)
      → strtok_all d (suc fuel) s ≡ t ∷ strtok_all d fuel rest
  unfolding strtok_all
  strtok_all_go fuel s t rest h = rw (h, strtok_all) refl

  tokens_from-cons :
      (c : ℕ) (t : Text)
      → d c ≡ false
      → tokens d (c ∷ t) ≡ before d (c ∷ t) ∷ tokens d (after d (c ∷ t))
  unfolding tokens_from before after
  tokens_from-cons c t h = rw (h, tokens_from-before t c []) refl

  strtok_step :
      (fuel : ℕ) (s t : Text)
      → ((t' : Text) → length t' < length s → strtok_all d fuel t' ≡ tokens d t')
      → skip d s ≡ t
      → strtok_all d (suc fuel) s ≡ tokens d t
  unfolding tokens_from
  strtok_step fuel s [] ih h = strtok_all_stop fuel s (strtok-skip s [] h)
  strtok_step fuel s (c ∷ t) ih h =
      let head = skip-head s c t h in
      let step : after d (c ∷ t) ≡ after d t = unfold after in rw head refl in
      let l : suc (length t) ≤ length s = omega (arith, ap length h, length-skip s) in
      let less : length (after d (c ∷ t)) < length s =
        omega (arith, l, length-after t, ap length step) in
      strtok_all_go fuel s (before d (c ∷ t)) (after d (c ∷ t)) (strtok-skip s (c ∷ t) h)
      ∙ ap (λ ts. before d (c ∷ t) ∷ ts) (ih (after d (c ∷ t)) less)
      ∙ sym (tokens_from-cons c t head)

  -- With fuel above the length of the text, the calls of `strtok` end and give its tokens.
  pub strtok_all_lem : (fuel : ℕ) (s : Text) → length s < fuel → strtok_all d fuel s ≡ tokens d s
  strtok_all_lem zero s h = absurd (omega arith)
  strtok_all_lem (suc fuel) s h =
      strtok_step fuel s (skip d s) (λ t' l. strtok_all_lem fuel t' (omega arith)) refl
      ∙ sym (tokens_from-skip s)
