-- ===== src/Editing/Joining.antt =====
-- The texts that `client_handler_thread` of src/storage_server/main.c puts together from words,
-- with `strcat`: the sentences one behind the other are their words one behind the other.
use collaborative_doc.Prelude.{
  ◌≡◌, ◌≢◌, ◌∙◌, refl, sym, ap, List, [], ◌∷◌, ◌++◌, Text, append_assoc, append-nil, All,
  All-append,
}
use collaborative_doc.Strings.Tokens.{Lacks}
use collaborative_doc.Documents.{is_gap}
use collaborative_doc.Editing.{join_words, add_sentence, add_sentences}

-- What `strtok` gives for a word.
abbrev pub IsWord : Text → Type 0
IsWord w = (w ≢ []) × Lacks is_gap w

-- The words of a sentence, of which there is one at least.
abbrev pub IsPhrase : List Text → Type 0
IsPhrase s = (s ≢ []) × All IsWord s

abbrev pub concat : List (List Text) → List Text
concat [] = []
concat (s ∷ ss) = s ++ concat ss

join_words-cons :
    (w : Text) (ws : List Text) → ws ≢ [] → join_words (w ∷ ws) ≡ w ++ b' ' ∷ join_words ws
unfolding join_words
join_words-cons w [] h = absurd (h refl)
join_words-cons w (v ∷ ws) h = refl

append_ne : (xs ys : List Text) → ys ≢ [] → xs ++ ys ≢ []
append_ne [] ys h e = h e
append_ne (x ∷ xs) ys h e = absurd (cc e)

join_words-append :
    (w : Text) (ws ys : List Text)
    → ys ≢ []
    → join_words (w ∷ ws ++ ys) ≡ join_words (w ∷ ws) ++ b' ' ∷ join_words ys
unfolding join_words
join_words-append w [] ys h = join_words-cons w ys h
join_words-append w (v ∷ ws) ys h =
    rw (join_words-append v ws ys h)
      (sym (append_assoc w (b' ' ∷ join_words (v ∷ ws)) (b' ' ∷ join_words ys)))

add_sentence_behind :
    (final : Text) (s : List Text)
    → final ≢ []
    → add_sentence final s ≡ final ++ b' ' ∷ join_words s
add_sentence_behind [] s h = absurd (h refl)
add_sentence_behind (c ∷ final) s h = refl

join_words_ne : (w : Text) (ws : List Text) → w ≢ [] → join_words (w ∷ ws) ≢ []
unfolding join_words
join_words_ne [] ws h e = h refl
join_words_ne (c ∷ w) [] h e = absurd (cc e)
join_words_ne (c ∷ w) (v ∷ ws) h e = absurd (cc e)

add_sentence-join :
    (xs s : List Text)
    → All IsWord xs
    → s ≢ []
    → add_sentence (join_words xs) s ≡ join_words (xs ++ s)
unfolding join_words
add_sentence-join [] s h k = refl
add_sentence-join (w ∷ xs) s h k =
    add_sentence_behind (join_words (w ∷ xs)) s (join_words_ne w xs h.0.0)
    ∙ sym (join_words-append w xs s k)

-- Sentences behind a text of words.
pub add_sentences-join :
    (gs : List (List Text)) (xs : List Text)
    → All IsWord xs
    → All IsPhrase gs
    → add_sentences (join_words xs) gs ≡ join_words (xs ++ concat gs)
unfolding add_sentences
add_sentences-join [] xs h k = ap join_words (sym (append-nil xs))
add_sentences-join (s ∷ gs) xs h k =
    ap (λ t. add_sentences t gs) (add_sentence-join xs s h k.0.0)
    ∙ add_sentences-join gs (xs ++ s) (All-append IsWord xs s h k.0.1) k.1
    ∙ ap join_words (append_assoc xs s (concat gs))

pub add_sentences-append :
    (final : Text) (gs hs : List (List Text))
    → add_sentences final (gs ++ hs) ≡ add_sentences (add_sentences final gs) hs
unfolding add_sentences
add_sentences-append final [] hs = refl
add_sentences-append final (s ∷ gs) hs = add_sentences-append (add_sentence final s) gs hs

pub All-concat : (gs : List (List Text)) → All IsPhrase gs → All IsWord (concat gs)
All-concat [] h = tt
All-concat (s ∷ gs) h = All-append IsWord s (concat gs) h.0.1 (All-concat gs h.1)

pub concat-append : (gs hs : List (List Text)) → concat (gs ++ hs) ≡ concat gs ++ concat hs
concat-append [] hs = refl
concat-append (s ∷ gs) hs =
    ap (◌++◌ s) (concat-append gs hs) ∙ sym (append_assoc s (concat gs) (concat hs))
