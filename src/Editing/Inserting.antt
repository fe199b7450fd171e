-- ===== src/Editing/Inserting.antt =====
-- A line `<word_idx> <content>` of a client in write mode, in `client_handler_thread` of
-- src/storage_server/main.c: what the insertion does to the sentences of the text.
use collaborative_doc.Prelude.{
  ℕ, zero, suc, ◌+◌, ◌-◌, ◌≤◌, ◌≡◌, ◌≢◌, ◌∙◌, refl, sym, ap, subst, true, false, leb, if◌then◌else◌,
  ◌⊎◌, inl, inr, List, [], ◌∷◌, ◌++◌, Text, arith, All, All-append, length, take, drop, ltb, ◌==◌,
}
use collaborative_doc.Strings.Tokens.{Lacks, tokens}
use collaborative_doc.Documents.{SentenceInfo, is_gap, max_words, content_size}
use collaborative_doc.Editing.{
  join_words, split_delimiter, add_delimiter, insert_at_sentence, words_in, updated, overflow,
  all_fit, insertion_fits, max_sentence_words,
}
use collaborative_doc.Editing.Joining.{IsWord, IsPhrase}
use collaborative_doc.Editing.Splitting.{tokens_from-IsToken, All-take}
use collaborative_doc.Editing.Fitting.{all_fit-IsShort, all_fit-add_delimiter}
use collaborative_doc.Editing.Shapes.{IsEnded, IsOpen}
use collaborative_doc.Editing.Words.{
  insert_words-split, add_delimiter-append, add_delimiter_none, add_delimiter-IsEnded,
  add_delimiter-IsWord, add_delimiter_ne, split_delimiter-IsOpen, split_delimiter-IsEnded,
  length-split_delimiter, split_delimiter-IsWord, new_words-tokens, IsShort,
}

-- The words of a sentence with the new ones behind the first `m` of them.
abbrev pub spliced : ℕ → List Text → List Text → List Text
spliced m new ws = take m ws ++ new ++ drop m ws

-- The sentence with the new words, its delimiter at the end as before.
abbrev pub edited : ℕ → List Text → List Text → List Text
edited m new x = add_delimiter (split_delimiter x).1 (spliced m new (split_delimiter x).0)

-- The new words go behind the first `m` of a sentence; there is one at least, none of them and no
-- word before the delimiter ends a sentence, and all are shorter than 511 bytes; the sentence fits its array of words.
pub record IsInsertion (m : ℕ) (new : Text) (x : List Text) : Type 0 where
  pub line : Lacks (λ c. c == b'\n') new
  pub inside : m ≤ length (split_delimiter x).0
  pub something : tokens is_gap new ≢ []
  pub open_before : IsOpen (split_delimiter x).0
  pub open_new : IsOpen (tokens is_gap new)
  pub short_before : All IsShort (split_delimiter x).0
  pub short_new : All IsShort (tokens is_gap new)
  pub array : length x ≤ max_sentence_words

All-drop {ℓ κ} : {A : Type ℓ} (P : A → Type κ) (n : ℕ) (xs : List A) → All P xs → All P (drop n xs)
All-drop P zero xs h = h
All-drop P (suc n) [] h = tt
All-drop P (suc n) (x ∷ xs) h = All-drop P n xs h.1

All-spliced {κ} :
    (P : Text → Type κ) (m : ℕ) (new ws : List Text)
    → All P new
    → All P ws
    → All P (spliced m new ws)
All-spliced P m new ws h k =
    All-append P (take m ws ++ new) (drop m ws) (All-append P (take m ws) new (All-take P m ws k) h)
      (All-drop P m ws k)

append_ne : (xs ys zs : List Text) → ys ≢ [] → xs ++ ys ++ zs ≢ []
append_ne [] [] zs h e = h refl
append_ne [] (y ∷ ys) zs h e = absurd (cc e)
append_ne (x ∷ xs) ys zs h e = absurd (cc e)

fitting :
    (new all : List Text)
    → all_fit new ≡ true
    → length all ≤ max_words
    → length (join_words all) ≤ content_size
    → (if insertion_fits new all then updated (join_words all) else overflow)
      ≡ updated (join_words all)
fitting new all h l k =
    let few : leb (length all) max_words ≡ true = ground (arith, l) in
    let bytes : leb (length (join_words all)) content_size ≡ true = ground (arith, k) in
    rw (h, few, bytes) refl

module _ (m : ℕ) (new : Text) (x : List Text) (h : IsInsertion m new x) where
  abbrev ws : List Text
  ws = spliced m (tokens is_gap new) (split_delimiter x).0

  ws_ne : ws ≢ []
  ws_ne =
      append_ne (take m (split_delimiter x).0) (tokens is_gap new) (drop m (split_delimiter x).0)
        h.something

  open_ws : IsOpen ws
  open_ws =
      All-spliced (λ w. _) m (tokens is_gap new) (split_delimiter x).0 h.open_new h.open_before

  IsShort-ws : All IsShort ws
  IsShort-ws =
      All-spliced IsShort m (tokens is_gap new) (split_delimiter x).0 h.short_new h.short_before

  pub all_fit-edited : all_fit (edited m (tokens is_gap new) x) ≡ true
  all_fit-edited = all_fit-add_delimiter (split_delimiter x).1 ws IsShort-ws

  pub edited-IsEnded : IsEnded x → IsEnded (edited m (tokens is_gap new) x)
  edited-IsEnded k =
      add_delimiter-IsEnded (split_delimiter x).1 ws ws_ne (split_delimiter-IsEnded x k) open_ws
        IsShort-ws

  open_same : IsOpen x → edited m (tokens is_gap new) x ≡ ws
  open_same k =
      ap (λ d. add_delimiter d ws) (ap (λ p. p.1) (split_delimiter-IsOpen x k))
      ∙ add_delimiter_none ws

  pub edited-IsOpen : IsOpen x → IsOpen (edited m (tokens is_gap new) x)
  edited-IsOpen k = subst IsOpen (sym (open_same k)) open_ws

  words_ws : All IsWord x → All IsWord ws
  words_ws k =
      All-spliced IsWord m (tokens is_gap new) (split_delimiter x).0
        (tokens_from-IsToken is_gap new [] tt) (split_delimiter-IsWord x k)

  pub edited-IsPhrase :
      IsEnded x ⊎ IsOpen x → IsPhrase x → IsPhrase (edited m (tokens is_gap new) x)
  edited-IsPhrase (inl e) k = (
    add_delimiter_ne (split_delimiter x).1 ws ws_ne,
    add_delimiter-IsWord (split_delimiter x).1 ws (split_delimiter-IsEnded x e) (words_ws k.1)
        IsShort-ws,
  )
  edited-IsPhrase (inr o) k = subst IsPhrase (sym (open_same o)) (ws_ne, words_ws k.1)

  -- The insertion into a sentence, with what stands before and behind it.
  pub insert_at_sentence-edited :
      (words before behind : List Text) (s : SentenceInfo)
      → words_in words s ≡ x
      → s.end_word_idx + 1 - s.start_word_idx ≡ length x
      → take s.start_word_idx words ≡ before
      → drop (s.end_word_idx + 1) words ≡ behind
      → length (before ++ edited m (tokens is_gap new) x ++ behind) ≤ max_words
      → length (join_words (before ++ edited m (tokens is_gap new) x ++ behind)) ≤ content_size
      → insert_at_sentence words s (suc m) new
        ≡ updated (join_words (before ++ edited m (tokens is_gap new) x ++ behind))
  insert_at_sentence-edited words before behind s e n f g room bytes =
      let in_words : ltb (s.end_word_idx + 1 - s.start_word_idx + 1) (suc m) ≡ false =
        ground (arith, n, h.inside, length-split_delimiter x) in
      let in_bare : ltb (length (split_delimiter x).0 + 1) (suc m) ≡ false =
        ground (arith, h.inside) in
      let in_array : ltb max_sentence_words (length x) ≡ false = ground (arith, h.array) in
      let at_end : add_delimiter (split_delimiter x).1 (before ++ ws) ++ behind
          ≡ before ++ edited m (tokens is_gap new) x ++ behind =
        ap (λ l. l ++ behind) (add_delimiter-append (split_delimiter x).1 before ws ws_ne) in
      rw
        (
          in_words,
          e,
          in_array,
          in_bare,
          f,
          g,
          new_words-tokens new h.line,
          insert_words-split m (tokens is_gap new) (split_delimiter x).0 h.inside,
        )
        (ap (λ l. if insertion_fits (tokens is_gap new) l then updated (join_words l) else overflow)
            at_end
          ∙ fitting (tokens is_gap new) (before ++ edited m (tokens is_gap new) x ++ behind)
              (all_fit-IsShort (tokens is_gap new) h.short_new) room bytes)
