-- ===== src/Editing/Splitting.antt =====
-- The words of a text that is put together from words, for the loops of `strtok` in
-- `client_handler_thread` of src/storage_server/main.c.
use collaborative_doc.Prelude.{
  ℕ, zero, suc, ◌≤◌, ◌≡◌, ◌≢◌, ◌∙◌, refl, sym, ap, subst, Bool, true, false, inl, inr, List, [],
  ◌∷◌, ◌++◌, Text, append_assoc, append-nil, All, All-append, Bool-cases, length, take,
  take_of_length-le,
}
use collaborative_doc.Strings.Tokens.{Lacks, tokens, tokens_from, flush}
use collaborative_doc.Documents.{is_gap, words_of, max_words}
use collaborative_doc.Documents.Sentences.{words_of-tokens}
use collaborative_doc.Editing.{join_words}
use collaborative_doc.Editing.Joining.{IsWord}

module _ (d : ℕ → Bool) where
  flush-append : (s : Text) (xs ys : List Text) → flush s (xs ++ ys) ≡ flush s xs ++ ys
  flush-append [] xs ys = refl
  flush-append (c ∷ s) xs ys = refl

  -- A delimiter divides the tokens of a text.
  pub tokens_from-append :
      (s current : Text) (c : ℕ) (rest : Text)
      → d c ≡ true
      → tokens_from d current (s ++ c ∷ rest) ≡ tokens_from d current s ++ tokens d rest
  unfolding tokens_from
  tokens_from-append [] current c rest k = rw k (flush-append current [] (tokens d rest))
  tokens_from-append (x ∷ s) current c rest k = elim (Bool-cases (d x)) [
    | inl y ↦
        rw (y, tokens_from-append s [] c rest k)
          (flush-append current (tokens_from d [] s) (tokens d rest))
    | inr n ↦ rw (n, tokens_from-append s (current ++ x ∷ []) c rest k) refl
  ]

  tokens_from_whole :
      (s current : Text) → Lacks d s → tokens_from d current s ≡ flush (current ++ s) []
  unfolding tokens_from
  tokens_from_whole [] current h = rw (append-nil current) refl
  tokens_from_whole (x ∷ s) current h =
      rw (h.0, tokens_from_whole s (current ++ x ∷ []) h.1, append_assoc) refl

  -- Each token lacks the delimiters, and has a byte.
  abbrev pub IsToken : Text → Type 0
  IsToken w = (w ≢ []) × Lacks d w

  flush-IsToken :
      (s : Text) (ts : List Text) → Lacks d s → All IsToken ts → All IsToken (flush s ts)
  flush-IsToken [] ts h k = k
  flush-IsToken (c ∷ s) ts h k = (((λ e. absurd (cc e)), h), k)

  pub tokens_from-IsToken :
      (s current : Text) → Lacks d current → All IsToken (tokens_from d current s)
  unfolding tokens_from
  tokens_from-IsToken [] current h = flush-IsToken current [] h tt
  tokens_from-IsToken (c ∷ s) current h = elim (Bool-cases (d c)) [
    | inl y ↦ rw y (flush-IsToken current (tokens_from d [] s) h (tokens_from-IsToken s [] tt))
    | inr n ↦ rw n (
        tokens_from-IsToken s (current ++ c ∷ [])
          (All-append (λ c. d c ≡ false) current (c ∷ []) h (n, tt)))
  ]

pub All-take {ℓ κ} :
    {A : Type ℓ} (P : A → Type κ) (n : ℕ) (xs : List A) → All P xs → All P (take n xs)
All-take P zero xs h = tt
All-take P (suc n) [] h = tt
All-take P (suc n) (x ∷ xs) h = (h.0, All-take P n xs h.1)

pub words_of-IsWord : (content : Text) → All IsWord (words_of content)
words_of-IsWord content =
    subst (All IsWord) (sym (words_of-tokens content))
      (All-take IsWord max_words (tokens is_gap content) (tokens_from-IsToken is_gap content [] tt))

tokens-word : (w : Text) → IsWord w → tokens is_gap w ≡ w ∷ []
tokens-word [] h = absurd (h.0 refl)
tokens-word (c ∷ w) h = tokens_from_whole is_gap (c ∷ w) [] h.1

pub tokens-join_words : (ws : List Text) → All IsWord ws → tokens is_gap (join_words ws) ≡ ws
unfolding join_words tokens_from
tokens-join_words [] h = refl
tokens-join_words (w ∷ []) h = tokens-word w h.0
tokens-join_words (w ∷ v ∷ ws) h =
    tokens_from-append is_gap w [] b' ' (join_words (v ∷ ws)) refl
    ∙ rw (tokens-word w h.0, tokens-join_words (v ∷ ws) h.1) refl

-- The words of a text are those that it was put together from, if there is room for them.
pub words_of-join_words :
    (ws : List Text) → All IsWord ws → length ws ≤ max_words → words_of (join_words ws) ≡ ws
words_of-join_words ws h l =
    words_of-tokens (join_words ws)
    ∙ ap (take max_words) (tokens-join_words ws h)
    ∙ take_of_length-le max_words ws l
