-- ===== src/Editing/Extending.antt =====
-- A write of a new sentence in `client_handler_thread` of src/storage_server/main.c: the words go
-- behind the text, and the merge puts the last sentence of the swap file behind the document.
use collaborative_doc.Prelude.{
  ℕ, zero, suc, ◌≤◌, ◌<◌, ◌≡◌, ◌≢◌, ◌∙◌, refl, sym, ap, subst, true, false, ◌⊎◌, List, [], ◌∷◌,
  ◌++◌, some, Text, append-nil, arith, All-append, length, ltb, ◌==◌, get_elem?, length-append,
  last_or, take_of_length-le,
}
use collaborative_doc.Strings.Tokens.{tokens}
use collaborative_doc.Documents.{words_of, is_gap, max_words, content_size}
use collaborative_doc.Documents.Sentences.{words_of-tokens}
use collaborative_doc.Editing.{
  join_words, insert_content, or_whole, sentences_in, updated, max_sentences, merge, merged_text,
  all_fit, behind, new_sentence, last_of, sentence_words,
}
use collaborative_doc.Editing.Joining.{IsPhrase, concat, concat-append}
use collaborative_doc.Editing.Splitting.{tokens_from-append, tokens_from-IsToken, tokens-join_words}
use collaborative_doc.Editing.Sentences.{
  group, sentences, sentences_in-Located, concat-group_from, sentence_words-sentences,
}
use collaborative_doc.Editing.Shapes.{
  IsEnded, IsOpen, AreSentences, AreSentences-sentences, IsPhrase-sentences, group-concat,
}
use collaborative_doc.Editing.Fitting.{all_fit-append, all_fit-sentences, all_fit-words_of}
use collaborative_doc.Editing.Merging.{merge-merged_text}
use collaborative_doc.Editing.Writing.{length-Located, not_empty, or_whole_some}

-- A sentence behind a document whose last one is ended.
AreSentences-snoc :
    (gs : List (List Text)) (i : ℕ) (x y : List Text)
    → AreSentences gs
    → get_elem? gs i ≡ some x
    → suc i ≡ length gs
    → IsEnded x
    → IsEnded y ⊎ IsOpen y
    → AreSentences (gs ++ y ∷ [])
AreSentences-snoc [] i x y h e l k m = absurd (omega (arith, l))
AreSentences-snoc (g ∷ []) zero x y h e l k m =
    let same : g ≡ x = cc e in (subst IsEnded (sym same) k, m)
AreSentences-snoc (g ∷ []) (suc i) x y h e l k m = absurd (omega (arith, l))
AreSentences-snoc (g ∷ h' ∷ gs) zero x y h e l k m = absurd (omega (arith, l))
AreSentences-snoc (g ∷ h' ∷ gs) (suc i) x y h e l k m =
    (h.0, AreSentences-snoc (h' ∷ gs) i x y h.1 e (omega (arith, l)) k m)

last_of-snoc : (gs : List (List Text)) (y : List Text) → last_of (gs ++ y ∷ []) ≡ some y
last_of-snoc [] y = refl
last_of-snoc (g ∷ gs) y = ap some (last_or-snoc g gs y)
  where
    last_or-snoc :
        (g : List Text) (gs : List (List Text)) (y : List Text) → last_or g (gs ++ y ∷ []) ≡ y
    last_or-snoc g [] y = refl
    last_or-snoc g (h ∷ gs) y = last_or-snoc h gs y

-- All words are read, if with more of them there is still room.
words_of-all :
    (content : Text) (y : List Text)
    → length (tokens is_gap content ++ y) ≤ max_words
    → words_of content ≡ tokens is_gap content
words_of-all content y l =
    words_of-tokens content
    ∙ take_of_length-le max_words (tokens is_gap content)
        (omega (arith, l, length-append (tokens is_gap content) y))

-- A text behind another has its words behind those.
sentences-behind :
    (content text : Text) (i : ℕ) (x : List Text)
    → get_elem? (sentences content) i ≡ some x
    → suc i ≡ length (sentences content)
    → IsEnded x
    → tokens is_gap text ≢ []
    → IsEnded (tokens is_gap text) ⊎ IsOpen (tokens is_gap text)
    → length (tokens is_gap content ++ tokens is_gap text) ≤ max_words
    → sentences (content ++ b' ' ∷ text) ≡ sentences content ++ tokens is_gap text ∷ []
sentences-behind content text i x h last k ne m room =
    let y = tokens is_gap text in
    let gs = sentences content in
    let all : words_of content ≡ tokens is_gap content = words_of-all content y room in
    let more : tokens is_gap (content ++ b' ' ∷ text) ≡ tokens is_gap content ++ y =
      tokens_from-append is_gap content [] b' ' text refl in
    let room' : length (tokens is_gap (content ++ b' ' ∷ text)) ≤ max_words = rw more room in
    let words : words_of (content ++ b' ' ∷ text) ≡ concat (gs ++ y ∷ []) =
      words_of-tokens (content ++ b' ' ∷ text)
      ∙ take_of_length-le max_words (tokens is_gap (content ++ b' ' ∷ text)) room'
      ∙ more
      ∙ ap (λ ws. ws ++ y) (sym (concat-group_from (words_of content) [] ∙ all))
      ∙ ap (λ ws. concat gs ++ ws) (sym (append-nil y))
      ∙ sym (concat-append gs (y ∷ [])) in
    ap group words
    ∙ group-concat (gs ++ y ∷ [])
        (AreSentences-snoc gs i x y (AreSentences-sentences content) h last k m)
        (All-append IsPhrase gs (y ∷ []) (IsPhrase-sentences content)
          ((ne, tokens_from-IsToken is_gap text [] tt), tt))

merged_text-new_sentence :
    (n : ℕ) (content swap : Text) (current written : List (List Text))
    → sentence_words content ≡ current
    → sentence_words swap ≡ written
    → 0 < length current
    → length current < n
    → merged_text n content swap ≡ new_sentence content (last_of written)
unfolding merged_text
merged_text-new_sentence n content swap current written e f h k =
    let some_there : (length current == 0) ≡ false = ground arith in
    let beyond : ltb (length current) n ≡ true = ground arith in rw (e, f, some_there, beyond) refl

new_sentence-some :
    (content : Text) (y : List Text)
    → (length content == 0) ≡ false
    → new_sentence content (some y) ≡ content ++ b' ' ∷ join_words y
new_sentence-some [] y h = absurd (ground (arith, h))
new_sentence-some (c ∷ content) y h = refl

behind-fits :
    (content new : Text)
    → (length content == 0) ≡ false
    → length (content ++ b' ' ∷ new) ≤ content_size
    → behind content new ≡ content ++ b' ' ∷ new
behind-fits [] new h l = absurd (ground (arith, h))
behind-fits (c ∷ content) new h l = take_of_length-le content_size ((c ∷ content) ++ b' ' ∷ new) l

-- The words of a new sentence go behind the text.
insert_content-behind :
    (content new : Text) (i : ℕ) (x : List Text)
    → length (sentences content) ≤ max_sentences
    → get_elem? (sentences content) i ≡ some x
    → suc i ≡ length (sentences content)
    → all_fit (words_of content) ≡ true
    → insert_content (suc (length (sentences content))) 1 new content ≡ updated (behind content new)
unfolding insert_content
insert_content-behind content new i x l h last short =
    let words = words_of content in
    let same = length-Located 0 (group words) (sentences_in words) (sentences_in-Located words l) in
    let whole : or_whole words (sentences_in words) ≡ sentences_in words =
      or_whole_some words (sentences_in words) (omega (arith, same, last)) in
    let beyond : ltb (length (sentences_in words)) (suc (length (sentences content))) ≡ true =
      ground (arith, same) in
    rw (not_empty i content x h, short, whole, beyond) refl

-- The document goes on after its last sentence, which is ended, with the words of the text; words
-- and bytes fit their arrays.
pub record IsExtensible (content text : Text) : Type 0 where
  pub last : ℕ
  pub sentence : List Text
  pub found : get_elem? (sentences content) last ≡ some sentence
  pub at_end : suc last ≡ length (sentences content)
  pub ended : IsEnded sentence
  pub few : suc (length (sentences content)) ≤ max_sentences
  pub room : length (tokens is_gap content ++ tokens is_gap text) ≤ max_words
  pub short : all_fit (words_of content) ≡ true
  pub bytes : length (content ++ b' ' ∷ text) ≤ content_size

-- The merge of a swap file whose last sentence is the new one.
merge-behind :
    (n : ℕ) (latest new swap : Text) (gs : List (List Text))
    → IsExtensible latest (join_words (tokens is_gap new))
    → length (sentences latest) < n
    → tokens is_gap new ≢ []
    → IsEnded (tokens is_gap new) ⊎ IsOpen (tokens is_gap new)
    → length (sentences swap) ≤ max_sentences
    → all_fit (words_of swap) ≡ true
    → sentences swap ≡ gs ++ tokens is_gap new ∷ []
    → (t : Text) × (merge n latest swap ≡ some t)
      × (sentences t ≡ sentences latest ++ tokens is_gap new ∷ [])
merge-behind n latest new swap gs b lt ne m few fit e =
    let y = tokens is_gap new in
    let again : tokens is_gap (join_words y) ≡ y =
      tokens-join_words y (tokens_from-IsToken is_gap new [] tt) in
    let text : merged_text n latest swap ≡ latest ++ b' ' ∷ join_words y =
      merged_text-new_sentence n latest swap (sentences latest) (gs ++ y ∷ [])
        (sentence_words-sentences latest (omega (arith, b.few)))
        (sentence_words-sentences swap few ∙ e) (omega (arith, b.at_end)) lt
      ∙ ap (new_sentence latest) (last_of-snoc gs y)
      ∙ new_sentence-some latest y (not_empty b.last latest b.sentence b.found) in
    (
      latest ++ b' ' ∷ join_words y,
      merge-merged_text n latest swap (latest ++ b' ' ∷ join_words y) text b.short fit b.bytes,
      sentences-behind latest (join_words y) b.last b.sentence b.found b.at_end b.ended
            (rw again ne) (rw again m) b.room
          ∙ ap (λ ws. sentences latest ++ ws ∷ []) again,
    )

-- The words of a text behind another.
all_fit-behind :
    (content swap : Text) (y : List Text)
    → sentences swap ≡ sentences content ++ y ∷ []
    → all_fit (words_of content) ≡ true
    → all_fit y ≡ true
    → all_fit (words_of swap) ≡ true
all_fit-behind content swap y e h k =
    let split : concat (sentences swap) ≡ concat (sentences content) ++ y =
      ap concat e
      ∙ concat-append (sentences content) (y ∷ [])
      ∙ ap (λ ws. concat (sentences content) ++ ws) (append-nil y) in
    all_fit-words_of swap (
      subst (λ ws. all_fit ws ≡ true) (sym split)
        (all_fit-append (concat (sentences content)) y (all_fit-sentences content h) k))

-- A new sentence of one run of words, written behind a document whose last sentence is ended and
-- then merged into a latest document that has no more sentences and whose last one is ended too,
-- is the sentence behind all of the latest document, if the sentences, words and bytes of both
-- documents fit their arrays before and with it.
pub new_sentence-refines :
    (content latest new : Text)
    → IsExtensible content new
    → IsExtensible latest (join_words (tokens is_gap new))
    → length (sentences latest) ≤ length (sentences content)
    → tokens is_gap new ≢ []
    → all_fit (tokens is_gap new) ≡ true
    → IsEnded (tokens is_gap new) ⊎ IsOpen (tokens is_gap new)
    → (swap : Text) × (insert_content (suc (length (sentences content))) 1 new content
        ≡ updated swap)
      × (t : Text) × (merge (suc (length (sentences content))) latest swap ≡ some t)
      × (sentences t ≡ sentences latest ++ tokens is_gap new ∷ [])
new_sentence-refines content latest new a b le ne short m =
    let swap = content ++ b' ' ∷ new in
    let there : sentences swap ≡ sentences content ++ tokens is_gap new ∷ [] =
      sentences-behind content new a.last a.sentence a.found a.at_end a.ended ne m a.room in
    let few : length (sentences swap) ≤ max_sentences =
      omega (
        arith,
        ap length there,
        length-append (sentences content) (tokens is_gap new ∷ []),
        a.few,
      ) in
    let (t, made, shape) =
      merge-behind (suc (length (sentences content))) latest new swap (sentences content) b
        (omega (arith, le)) ne m few
        (all_fit-behind content swap (tokens is_gap new) there a.short short) there in
    (
      swap,
      insert_content-behind content new a.last a.sentence (omega (arith, a.few)) a.found a.at_end
            a.short
          ∙ ap updated
              (behind-fits content new (not_empty a.last content a.sentence a.found) a.bytes),
      t,
      made,
      shape,
    )
