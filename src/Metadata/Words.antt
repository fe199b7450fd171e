-- ===== src/Metadata/Words.antt =====
-- `count_words_in_file` of src/storage_server/persistence.c.
use collaborative_doc.Prelude.{
  ℕ, suc, ◌+◌, ◌≡◌, ◌∙◌, refl, ap, ℤ, pos, Bool, true, false, ◌||◌, Option, none, some, inl, inr,
  List, [], ◌∷◌, ◌++◌, if◌then◌else◌, ◌==◌, Text, arith, length, Bool-cases,
}
use collaborative_doc.Strings.Tokens.{tokens, tokens_from, flush}

abbrev pub is_blank : ℕ → Bool
is_blank c = (c == b' ') || (c == 9) || (c == b'\n') || (c == 13)

-- The loop over the bytes, with the count and `in_word`.
unfoldable pub count_words : Bool → ℕ → Text → ℕ
count_words in_word n [] = if in_word then suc n else n
count_words in_word n (c ∷ s) =
    count_words (if is_blank c then false else true)
      (if is_blank c then (if in_word then suc n else n) else n) s

-- 0 where the file does not open.
unfoldable pub count_words_in_file : Option Text → ℤ
unfolding count_words
count_words_in_file none = pos 0
count_words_in_file (some content) = pos (count_words false 0 content)

abbrev is_open : Text → Bool
is_open [] = false
is_open (c ∷ s) = true

length-flush :
    (s : Text) (ts : List Text)
    → length (flush s ts) ≡ (if is_open s then suc (length ts) else length ts)
length-flush [] ts = refl
length-flush (c ∷ s) ts = refl

is_open-append : (s : Text) (c : ℕ) → is_open (s ++ c ∷ []) ≡ true
is_open-append [] c = refl
is_open-append (x ∷ s) c = refl

count_words-tokens_from :
    (current : Text) (n : ℕ) (s : Text)
    → count_words (is_open current) n s ≡ n + length (tokens_from is_blank current s)
unfolding count_words tokens_from
count_words-tokens_from [] n [] = omega arith
count_words-tokens_from (x ∷ current) n [] = omega arith
count_words-tokens_from current n (c ∷ s) = elim (Bool-cases (is_blank c)) [
  | inl y ↦
      rw (y, count_words-tokens_from [] (if is_open current then suc n else n) s)
        (ground (arith, length-flush current (tokens_from is_blank [] s)))
  | inr z ↦ rw (z, ← is_open-append current c, count_words-tokens_from (current ++ c ∷ []) n s) refl
]

-- The number of words of a file, which a loop over its bytes counts with a flag, is the number of
-- tokens between blanks.
count_words_in_file-tokens :
    (content : Text) → count_words_in_file (some content) ≡ pos (length (tokens is_blank content))
unfolding count_words_in_file
count_words_in_file-tokens content = ap pos (count_words-tokens_from [] 0 content ∙ omega arith)
