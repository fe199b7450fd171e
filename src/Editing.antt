-- ===== src/Editing.antt =====
-- Editing a sentence of a document: the parts of `client_handler_thread` in
-- src/storage_server/main.c that insert words into a client's swap file, and that merge the swap
-- file into the document. The texts are what is read into the buffers of 8192 bytes. The code does
-- not test that a word fits its array of 512 bytes, a sentence its array of 256 words, and a result
-- its array of 1024 words or its buffer of 8192 bytes: where one of them overflows, what the code
-- does is undefined, and here the result is `none` or `overflow`.
pub mod Sentences
pub mod Joining
pub mod Splitting
pub mod Shapes
pub mod Merging
pub mod Concurrent
pub mod Words
pub mod Fitting
pub mod Inserting
pub mod Writing
pub mod Extending
use collaborative_doc.Prelude.{
  ℕ, zero, suc, ◌+◌, ◌-◌, Bool, true, leb, ◌||◌, ◌&&◌, Option, none, some, List, [], ◌∷◌, ◌++◌,
  if◌then◌else◌, ltb, ◌==◌, Text, length, take, drop, map, get_elem?, last_or, but_last,
}
use collaborative_doc.Strings.Tokens.{strtok_all}
use collaborative_doc.Documents.{
  SentenceInfo, sentences_from, words_of, is_sentence_end, last_char, content_size, max_words,
}

-- The room in the arrays of sentences.
abbrev pub max_sentences : ℕ
max_sentences = 256

abbrev pub ends : Text → Bool
ends w = is_sentence_end (last_char w)

-- The most bytes of a word in an array of 512.
abbrev pub max_word : ℕ
max_word = 511

-- Every word fits its array.
unfoldable pub all_fit : List Text → Bool
all_fit [] = true
all_fit (w ∷ ws) = leb (length w) max_word && all_fit ws

-- Words with single spaces between them.
unfoldable pub join_words : List Text → Text
join_words [] = []
join_words (w ∷ []) = w
join_words (w ∷ v ∷ ws) = w ++ b' ' ∷ join_words (v ∷ ws)

-- The words of a sentence.
abbrev pub words_in : List Text → SentenceInfo → List Text
words_in words s = take (s.end_word_idx + 1 - s.start_word_idx) (drop s.start_word_idx words)

abbrev pub sentences_in : List Text → List SentenceInfo
sentences_in words = sentences_from max_sentences 0 0 words

-- `if (strlen(final_content) > 0) strcat(final_content, " ");` and the words of a sentence.
abbrev pub add_sentence : Text → List Text → Text
add_sentence [] words = join_words words
add_sentence (c ∷ final) words = (c ∷ final) ++ b' ' ∷ join_words words

unfoldable pub add_sentences : Text → List (List Text) → Text
add_sentences final [] = final
add_sentences final (s ∷ ss) = add_sentences (add_sentence final s) ss

-- The sentence that the client wrote, if its swap file has it.
abbrev pub add_target : Text → Option (List Text) → Text
add_target final none = final
add_target final (some s) = add_sentence final s

abbrev pub last_of : List (List Text) → Option (List Text)
last_of [] = none
last_of (s ∷ ss) = some (last_or s ss)

-- A space stands behind the old content, also where nothing follows.
abbrev pub new_sentence : Text → Option (List Text) → Text
new_sentence [] none = []
new_sentence [] (some s) = join_words s
new_sentence (c ∷ content) none = (c ∷ content) ++ b' ' ∷ []
new_sentence (c ∷ content) (some s) = (c ∷ content) ++ b' ' ∷ join_words s

-- The words of each sentence of a text.
abbrev pub sentence_words : Text → List (List Text)
sentence_words content = let words = words_of content in map (words_in words) (sentences_in words)

-- Step 5 of `ETIRW`: the sentence `n` of the swap file takes the place of that of the document.
unfoldable pub merged_text : ℕ → Text → Text → Text
merged_text n content swap =
    let current = sentence_words content in
    let written = sentence_words swap in
    if length current == 0
    then swap
    else if ltb (length current) n
    then new_sentence content (last_of written)
    else add_sentences
        (add_target (add_sentences [] (take (n - 1) current)) (get_elem? written (n - 1)))
        (drop n current)

-- The same where the words and the text fit their arrays.
unfoldable pub merge : ℕ → Text → Text → Option Text
merge n content swap =
    let fits =
      all_fit (words_of content)
      && (all_fit (words_of swap) && leb (length (merged_text n content swap)) content_size) in
    if fits then some (merged_text n content swap) else none

-- A word's last byte as a delimiter of its own; the word goes if nothing else is left of it.
abbrev pub bare_word : Text → List Text
bare_word [] = []
bare_word (c ∷ w) = (c ∷ w) ∷ []

-- The words of a sentence without the delimiter at its end, and the delimiter, or 0.
unfoldable pub split_delimiter : List Text → List Text × ℕ
split_delimiter [] = ([], 0)
split_delimiter (w ∷ []) = if ends w then (bare_word (but_last w), last_char w) else (w ∷ [], 0)
split_delimiter (w ∷ v ∷ ws) = let rest = split_delimiter (v ∷ ws) in (w ∷ rest.0, rest.1)

abbrev pub with_delimiter : ℕ → Text → Text
with_delimiter d w = if ltb (length w) max_word then w ++ d ∷ [] else w

-- The delimiter goes to the end of the last word.
unfoldable pub add_delimiter : ℕ → List Text → List Text
add_delimiter d [] = []
add_delimiter d (w ∷ []) = (if d == 0 then w else with_delimiter d w) ∷ []
add_delimiter d (w ∷ v ∷ ws) = w ∷ add_delimiter d (v ∷ ws)

-- The loop over the words of the sentence, with the position of the next one.
unfoldable pub insert_from : ℕ → ℕ → List Text → List Text → List Text
insert_from position word_idx new [] = []
insert_from position word_idx new (w ∷ ws) =
    let rest = insert_from (position + 1) word_idx new ws in
    if position == word_idx then new ++ w ∷ rest else w ∷ rest

-- The same with the insertion behind the last word.
abbrev pub insert_words : ℕ → List Text → List Text → List Text
insert_words word_idx new words =
    insert_from 1 word_idx new words ++ (if ltb (length words) word_idx then new else [])

-- The delimiters of `strtok` for the new content.
abbrev pub is_space_or_tab : ℕ → Bool
is_space_or_tab c = (c == b' ') || (c == 9)

abbrev pub new_words : Text → List Text
new_words content = strtok_all is_space_or_tab (suc (length content)) content

-- What an insertion gives: the new text of the swap file, the refusal that is sent, or
-- that an array overflows.
pub data Update : Type 0 where
  updated : Text → Update
  empty_file only_first_word out_of_range overflow : Update

-- The room in the array of the words of a sentence.
abbrev pub max_sentence_words : ℕ
max_sentence_words = 256

-- The new words, and then all words and their text, fit their arrays.
abbrev pub insertion_fits : List Text → List Text → Bool
insertion_fits new all =
    all_fit new && (leb (length all) max_words && leb (length (join_words all)) content_size)

abbrev pub insert_at_sentence : List Text → SentenceInfo → ℕ → Text → Update
insert_at_sentence words s word_idx content =
    if ltb (s.end_word_idx + 1 - s.start_word_idx + 1) word_idx
    then out_of_range
    else if ltb max_sentence_words (length (words_in words s))
    then overflow
    else (let (bare, d) = split_delimiter (words_in words s) in
        let all =
          add_delimiter d
            (take s.start_word_idx words ++ insert_words word_idx (new_words content) bare)
          ++ drop (s.end_word_idx + 1) words in
        if ltb (length bare + 1) word_idx
        then out_of_range
        else if insertion_fits (new_words content) all
        then updated (join_words all)
        else overflow)

-- A text with words that has no sentence counts as one; `sentences_from` finds one there already.
abbrev pub or_whole : List Text → List SentenceInfo → List SentenceInfo
or_whole [] [] = []
or_whole (w ∷ ws) [] = record { start_word_idx = 0; end_word_idx = length ws; delimiter = 0 } ∷ []
or_whole words (s ∷ ss) = s ∷ ss

-- `"%s %s"` into a buffer of 8192 bytes, or the new content alone.
abbrev pub behind : Text → Text → Text
behind [] new = new
behind (c ∷ content) new = take content_size ((c ∷ content) ++ b' ' ∷ new)

-- A line `<word_idx> <new>` of a client that writes sentence `n`, on the content of its swap file,
-- or of the document where there is none; `word_idx` is positive.
unfoldable pub insert_content : ℕ → ℕ → Text → Text → Update
insert_content n word_idx new content =
    let words = words_of content in
    let sentences = or_whole words (sentences_in words) in
    if length content == 0 && n == 1
    then (if word_idx == 1 then updated new else empty_file)
    else if all_fit words
    then (if ltb (length sentences) n
        then (if word_idx == 1 then updated (behind content new) else only_first_word)
        else elim (get_elem? sentences (n - 1)) [
          | none ↦ out_of_range
          | some s ↦ insert_at_sentence words s word_idx new
        ])
    else overflow
