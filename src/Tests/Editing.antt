-- ===== src/Tests/Editing.antt =====
-- Runs of the edits of a document.
use collaborative_doc.Prelude.{
  suc, ◌≤◌, ◌≡◌, refl, true, some, inl, inr, List, [], ◌∷◌, ◌++◌, Text, bytes, arith, length, set,
}
use collaborative_doc.Strings.Tokens.{tokens, tokens_from, strtok_all, strtok, skip, before, after}
use collaborative_doc.Documents.{is_gap, words_of, content_size}
use collaborative_doc.Editing.{
  insert_from, add_delimiter, merge, merged_text, all_fit, join_words, max_sentences, add_sentences,
  insert_content, updated, split_delimiter, empty_file, out_of_range,
}
use collaborative_doc.Documents.{sentences_from}
use collaborative_doc.Editing.Joining.{concat}
use collaborative_doc.Editing.Sentences.{sentences, group_from}
use collaborative_doc.Editing.Merging.{sentences-merge}
use collaborative_doc.Editing.Concurrent.{IsEdit, merge_comm}
use collaborative_doc.Editing.Inserting.{IsInsertion, edited}
use collaborative_doc.Editing.Writing.{MayWrite}
use collaborative_doc.Editing.Extending.{IsExtensible, new_sentence-refines}

abbrev pub text : Text
text = bytes "One two. Three four! Five"

abbrev pub first : List Text
first = bytes "One" ∷ bytes "two." ∷ []

abbrev second : List Text
second = bytes "Three" ∷ bytes "four!" ∷ []

abbrev pub third : List Text
third = bytes "Five" ∷ []

pub text-sentences : sentences text ≡ first ∷ second ∷ third ∷ []
unfolding strtok_all strtok skip before after group_from
text-sentences = refl

abbrev swap : Text
swap = bytes "One new two. Three four! Five"

abbrev pub new_first : List Text
new_first = bytes "One" ∷ bytes "new" ∷ bytes "two." ∷ []

swap-sentences : sentences swap ≡ new_first ∷ second ∷ third ∷ []
unfolding strtok_all strtok skip before after group_from
swap-sentences = refl

abbrev pub other_swap : Text
other_swap = bytes "One two. Three four! Five six"

abbrev new_third : List Text
new_third = bytes "Five" ∷ bytes "six" ∷ []

pub other_sentences : sentences other_swap ≡ first ∷ second ∷ new_third ∷ []
unfolding strtok_all strtok skip before after group_from
other_sentences = refl

few : length (sentences text) ≤ max_sentences
few = rw text-sentences (omega arith)

words_fit :
    (all_fit (words_of text) ≡ true)
    × (all_fit (words_of swap) ≡ true)
    × (all_fit (words_of other_swap) ≡ true)
unfolding strtok_all strtok skip before after all_fit
words_fit = (refl, refl, refl)

first_bytes : length (join_words (concat (set (sentences text) 0 new_first))) ≤ content_size
unfolding join_words
first_bytes = rw text-sentences (omega arith)

third_bytes : length (join_words (concat (set (sentences text) 2 new_third))) ≤ content_size
unfolding join_words
third_bytes = rw text-sentences (omega arith)

both_bytes :
    length (join_words (concat (set (set (sentences text) 0 new_first) 2 new_third))) ≤ content_size
unfolding join_words
both_bytes = rw text-sentences (omega arith)

first-IsEdit : IsEdit 0 new_first text swap
first-IsEdit = record {
  few = rw swap-sentences (omega arith);
  inside = rw text-sentences (omega arith);
  found = rw swap-sentences refl;
  ended = inl (refl, (refl, refl));
  short = words_fit.1;
  room = rw text-sentences (omega arith);
  bytes = first_bytes;
}

third-IsEdit : IsEdit 2 new_third text other_swap
third-IsEdit = record {
  few = rw other_sentences (omega arith);
  inside = rw text-sentences (omega arith);
  found = rw other_sentences refl;
  ended = inr (rw text-sentences refl);
  short = words_fit.2;
  room = rw text-sentences (omega arith);
  bytes = third_bytes;
}

abbrev both : Text
both = join_words (concat (set (set (sentences text) 0 new_first) 2 new_third))

merge_comm_example :
    ((t : Text) × (merge 1 text swap ≡ some t) × (merge 3 t other_swap ≡ some both))
    × ((t : Text) × (merge 3 text other_swap ≡ some t) × (merge 1 t swap ≡ some both))
merge_comm_example =
    merge_comm 0 2 text swap other_swap new_first new_third (omega arith) few words_fit.0
      first-IsEdit third-IsEdit both_bytes

sentences-merge_example :
    (t : Text) × (merge 1 text swap ≡ some t) × (sentences t ≡ set (sentences text) 0 new_first)
sentences-merge_example =
    sentences-merge 0 text swap new_first few first-IsEdit.few first-IsEdit.inside
      first-IsEdit.found first-IsEdit.ended words_fit.0 words_fit.1 first-IsEdit.room
      first-IsEdit.bytes

-- The rest of a sentence behind a new sentence end is lost.
cut_off : merge 1 (bytes "One two.") (bytes "One new. two.") ≡ some (bytes "One new.")
unfolding merge merged_text all_fit strtok_all strtok skip before after sentences_from add_sentences
    join_words
cut_off = refl

abbrev pub new : Text
new = bytes "new"

new-tokens : tokens is_gap new ≡ new ∷ []
unfolding tokens_from
new-tokens = refl

bare : split_delimiter first ≡ (bytes "One" ∷ bytes "two" ∷ [], b'.')
unfolding split_delimiter
bare = refl

pub insertion : IsInsertion 1 new first
insertion = record {
  line = (refl, (refl, (refl, tt)));
  inside = rw bare (omega arith);
  something = rw new-tokens (λ e. absurd (cc e));
  open_before = rw bare (refl, (refl, tt));
  open_new = rw new-tokens (refl, tt);
  short_before = rw bare (refl, (refl, tt));
  short_new = rw new-tokens (refl, tt);
  array = omega arith;
}

pub edited-first : edited 1 (tokens is_gap new) first ≡ new_first
unfolding tokens_from split_delimiter add_delimiter
edited-first = refl

edited_bytes :
    length (join_words (concat (set (sentences text) 0 (edited 1 (tokens is_gap new) first))))
    ≤ content_size
edited_bytes = rw edited-first first_bytes

pub MayWrite-text : MayWrite 0 (edited 1 (tokens is_gap new) first) first text
MayWrite-text = record {
  few = few;
  found = rw text-sentences refl;
  short = words_fit.0;
  room = rw (text-sentences, edited-first) (omega arith);
  bytes = edited_bytes;
}

-- What is sent, and what is refused.
inserted_word : insert_content 1 2 new text ≡ updated swap
unfolding insert_content sentences_from strtok_all strtok skip before after insert_from all_fit
    split_delimiter add_delimiter join_words
inserted_word = refl

refused_words :
    (insert_content 1 5 new text ≡ out_of_range) × (insert_content 1 2 new [] ≡ empty_file)
unfolding insert_content sentences_from strtok_all strtok skip before after insert_from all_fit
    split_delimiter
refused_words = (refl, refl)

abbrev content : Text
content = bytes "One two. Three!"

abbrev latest : Text
latest = bytes "One two. Four!"

content-sentences : sentences content ≡ first ∷ (bytes "Three!" ∷ []) ∷ []
unfolding strtok_all strtok skip before after group_from
content-sentences = refl

latest-sentences : sentences latest ≡ first ∷ (bytes "Four!" ∷ []) ∷ []
unfolding strtok_all strtok skip before after group_from
latest-sentences = refl

three_words :
    (tokens is_gap content ≡ bytes "One" ∷ bytes "two." ∷ bytes "Three!" ∷ [])
    × (tokens is_gap latest ≡ bytes "One" ∷ bytes "two." ∷ bytes "Four!" ∷ [])
unfolding tokens_from
three_words = (refl, refl)

short_words :
    (all_fit (words_of content) ≡ true)
    × (all_fit (words_of latest) ≡ true)
    × (all_fit (tokens is_gap new) ≡ true)
unfolding strtok_all strtok skip before after all_fit tokens_from
short_words = (refl, refl, refl)

joined : join_words (tokens is_gap new) ≡ new
unfolding tokens_from join_words
joined = refl

content_goes_on : IsExtensible content new
content_goes_on = record {
  last = 1;
  sentence = bytes "Three!" ∷ [];
  found = rw content-sentences refl;
  at_end = rw content-sentences refl;
  ended = refl;
  few = rw content-sentences (omega arith);
  room = rw (three_words.0, new-tokens) (omega arith);
  short = short_words.0;
  bytes = omega arith;
}

latest_goes_on : IsExtensible latest (join_words (tokens is_gap new))
latest_goes_on = record {
  last = 1;
  sentence = bytes "Four!" ∷ [];
  found = rw latest-sentences refl;
  at_end = rw latest-sentences refl;
  ended = refl;
  few = rw latest-sentences (omega arith);
  room = rw (joined, three_words.1, new-tokens) (omega arith);
  short = short_words.1;
  bytes = rw joined (omega arith);
}

new_sentence-refines_example :
    (swap' : Text) × (insert_content (suc (length (sentences content))) 1 new content
      ≡ updated swap')
    × (t : Text) × (merge (suc (length (sentences content))) latest swap' ≡ some t)
    × (sentences t ≡ sentences latest ++ tokens is_gap new ∷ [])
new_sentence-refines_example =
    new_sentence-refines content latest new content_goes_on latest_goes_on
      (rw (latest-sentences, content-sentences) (omega arith)) (rw new-tokens (λ e. absurd (cc e)))
      short_words.2 (inr (rw new-tokens (refl, tt)))
