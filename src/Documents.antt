-- ===== src/Documents.antt =====
-- The sentences of a document: `get_sentence_info_simple` of src/storage_server/main.c. A sentence
-- is a run of words, and ends with a word whose last byte is a full stop, an exclamation mark or a
-- question mark.
pub mod Sentences
use collaborative_doc.Prelude.{
  ℕ, zero, suc, ◌+◌, ◌-◌, Bool, ◌||◌, Option, none, some, List, [], ◌∷◌, if◌then◌else◌, ltb, ◌==◌,
  Text, length, take,
}
use collaborative_doc.Strings.Tokens.{strtok_all}

abbrev pub max_words : ℕ
max_words = 1024

-- What is read of a file: a buffer of 8192 bytes with the zero at its end.
abbrev pub content_size : ℕ
content_size = 8191

pub record SentenceInfo : Type 0 where
  pub start_word_idx : ℕ
  pub end_word_idx : ℕ
  pub delimiter : ℕ

-- The delimiters of `strtok`.
abbrev pub is_gap : ℕ → Bool
is_gap c = (c == b' ') || (c == 9) || (c == b'\n')

abbrev pub is_sentence_end : ℕ → Bool
is_sentence_end c = (c == b'.') || (c == b'!') || (c == b'?')

-- `words[i][word_len - 1]`; a token is not empty.
abbrev pub last_char : Text → ℕ
last_char [] = 0
last_char (c ∷ []) = c
last_char (c ∷ d ∷ s) = last_char (d ∷ s)

-- The sentence that is not ended, if it has words and there is room for it.
abbrev pub incomplete : ℕ → ℕ → ℕ → List SentenceInfo
incomplete zero start word_count = []
incomplete (suc room) start word_count =
    if ltb start word_count
    then record { start_word_idx = start; end_word_idx = word_count - 1; delimiter = 0 } ∷ []
    else []

-- The loop over the words: the room that is left in `sentences`, `current_sent_start` and
-- `word_count`. Without room a delimiter changes nothing.
unfoldable pub sentences_from : ℕ → ℕ → ℕ → List Text → List SentenceInfo
sentences_from room start word_count [] = incomplete room start word_count
sentences_from zero start word_count (w ∷ ws) = sentences_from zero start (word_count + 1) ws
sentences_from (suc room) start word_count (w ∷ ws) =
    let ended = sentences_from room (word_count + 1) (word_count + 1) ws in
    let goes_on = sentences_from (suc room) start (word_count + 1) ws in
    if is_sentence_end (last_char w)
    then record { start_word_idx = start; end_word_idx = word_count; delimiter = last_char w }
      ∷ ended
    else goes_on

-- The words of a file; each token takes one round of the loop at least.
abbrev pub words_of : Text → List Text
words_of content = take max_words (strtok_all is_gap (suc (length content)) content)

-- `max_sentences` is the room in the array of the caller.
unfoldable pub get_sentence_info_simple : ℕ → Option Text → List SentenceInfo
get_sentence_info_simple max_sentences none = []
get_sentence_info_simple max_sentences (some file) =
    sentences_from max_sentences 0 0 (words_of (take content_size file))
