-- ===== src/Documents/Sentences.antt =====
-- The sentences of a document divide its words.
use collaborative_doc.Prelude.{
  ℕ, zero, suc, ◌+◌, ◌≤◌, ◌<◌, ◌≡◌, ap, subst, refl, some, inl, inr, List, [], ◌∷◌, ltb, Text,
  length, take, arith, Bool-cases,
}
use collaborative_doc.Strings.Tokens.{tokens, strtok_all_lem}
use collaborative_doc.Documents.{
  SentenceInfo, sentences_from, get_sentence_info_simple, words_of, is_gap, is_sentence_end,
  last_char, content_size, max_words,
}

-- The sentences follow each other without a gap from the word `start` to the word before `n`.
abbrev pub Divides : ℕ → ℕ → List SentenceInfo → Type 0
Divides start n [] = start ≡ n
Divides start n (s ∷ ss) =
    (s.start_word_idx ≡ start) × (start ≤ s.end_word_idx) × Divides (s.end_word_idx + 1) n ss

sentences_from-Divides :
    (room start i : ℕ) (ws : List Text)
    → start ≤ i
    → length ws < room
    → Divides start (i + length ws) (sentences_from room start i ws)
unfolding sentences_from
sentences_from-Divides zero start i ws h l = absurd (omega arith)
sentences_from-Divides (suc room) start i [] h l = elim (Bool-cases (ltb start i)) [
  | inl y ↦ rw y (refl, ground arith, ground arith)
  | inr n ↦ rw n (ground arith)
]
sentences_from-Divides (suc room) start i (w ∷ ws) h l =
    elim (Bool-cases (is_sentence_end (last_char w))) [
      | inl y ↦
          let rest = sentences_from-Divides room (i + 1) (i + 1) ws (omega arith) (omega arith) in
          let same : i + 1 + length ws ≡ i + length (w ∷ ws) = omega arith in
          rw y (
            refl,
            h,
            subst (λ n. Divides (i + 1) n (sentences_from room (i + 1) (i + 1) ws)) same rest,
          )
      | inr n ↦
          let rest =
            sentences_from-Divides (suc room) start (i + 1) ws (omega arith) (omega arith) in
          let same : i + 1 + length ws ≡ i + length (w ∷ ws) = omega arith in
          rw n (subst (λ k. Divides start k (sentences_from (suc room) start (i + 1) ws)) same rest)
    ]

sentences-Divides :
    (max_sentences : ℕ) (ws : List Text)
    → length ws < max_sentences
    → Divides 0 (length ws) (sentences_from max_sentences 0 0 ws)
sentences-Divides max_sentences ws h =
    let same : 0 + length ws ≡ length ws = omega arith in
    subst (λ n. Divides 0 n (sentences_from max_sentences 0 0 ws)) same
      (sentences_from-Divides max_sentences 0 0 ws (omega arith) h)

pub words_of-tokens : (content : Text) → words_of content ≡ take max_words (tokens is_gap content)
words_of-tokens content =
    ap (take max_words) (strtok_all_lem is_gap (suc (length content)) content (omega arith))

-- The words of the text that is read of a file are its first 1024 tokens, and if there are fewer
-- than there is room for sentences, the sentences follow each other without a gap or an overlap
-- from the first word to the last.
get_sentence_info_simple-Divides :
    (max_sentences : ℕ) (file : Text)
    → length (words_of (take content_size file)) < max_sentences
    → (words_of (take content_size file) ≡ take max_words (tokens is_gap (take content_size file)))
      × Divides 0
          (length (words_of (take content_size file)))
          (get_sentence_info_simple max_sentences (some file))
unfolding get_sentence_info_simple
get_sentence_info_simple-Divides max_sentences file h = (
  words_of-tokens (take content_size file),
  sentences-Divides max_sentences (words_of (take content_size file)) h,
)
