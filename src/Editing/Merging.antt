-- ===== src/Editing/Merging.antt =====
-- `ETIRW` in `client_handler_thread` of src/storage_server/main.c: what the merge of a swap file
-- into the document does to the sentences.
use collaborative_doc.Prelude.{
  ℕ, zero, suc, ◌-◌, ◌≤◌, ◌<◌, ◌≡◌, ◌∙◌, refl, sym, ap, subst, true, false, leb, ◌⊎◌, inl, inr,
  List, [], ◌∷◌, ◌++◌, some, Text, arith, All, length, set, get_elem?, take, drop, All-set, ltb,
  ◌==◌,
}
use collaborative_doc.Documents.{max_words, words_of, content_size}
use collaborative_doc.Editing.{
  join_words, add_sentences, sentence_words, merge, merged_text, max_sentences, all_fit,
}
use collaborative_doc.Editing.Joining.{
  IsPhrase, concat, add_sentences-join, add_sentences-append, All-concat,
}
use collaborative_doc.Editing.Splitting.{words_of-join_words}
use collaborative_doc.Editing.Sentences.{group, sentences, sentence_words-sentences}
use collaborative_doc.Editing.Shapes.{
  IsEnded, IsOpen, AreSentences, group-concat, AreSentences-sentences, IsPhrase-sentences,
  AreSentences-set, AreSentences-get_elem?,
}

module _ {ℓ} {A : Type ℓ} where
  pub set-split :
      (xs : List A) (i : ℕ) (v : A) → i < length xs → take i xs ++ v ∷ drop (suc i) xs ≡ set xs i v
  set-split [] i v h = absurd (omega arith)
  set-split (x ∷ xs) zero v h = refl
  set-split (x ∷ xs) (suc i) v h = ap (◌∷◌ x) (set-split xs i v (omega arith))

  pub All-get_elem? {κ} :
      (P : A → Type κ) (xs : List A) (i : ℕ) (x : A) → All P xs → get_elem? xs i ≡ some x → P x
  All-get_elem? P [] i x h e = absurd (ground (arith, e))
  All-get_elem? P (y ∷ xs) zero x h e = let same : y ≡ x = cc e in subst P same h.0
  All-get_elem? P (y ∷ xs) (suc i) x h e = All-get_elem? P xs i x h.1 e

-- The branch that replaces a sentence.
merged_text-replaced :
    (i : ℕ) (content swap : Text) (current written : List (List Text)) (x : List Text)
    → sentence_words content ≡ current
    → sentence_words swap ≡ written
    → i < length current
    → get_elem? written i ≡ some x
    → merged_text (suc i) content swap ≡ add_sentences [] (set current i x)
unfolding merged_text add_sentences
merged_text-replaced i content swap current written x e f h k =
    let some_there : (length current == 0) ≡ false = ground arith in
    let in_range : ltb (length current) (suc i) ≡ false = ground arith in
    let previous : suc i - 1 ≡ i = omega arith in
    rw (e, f, some_there, in_range, previous, k)
      (sym (add_sentences-append [] (take i current) (x ∷ drop (suc i) current))
        ∙ ap (add_sentences []) (set-split current i x h))

-- The words of the new document, sentence by sentence.
All-set-IsPhrase :
    (i : ℕ) (content swap : Text) (x : List Text)
    → get_elem? (sentences swap) i ≡ some x
    → All IsPhrase (set (sentences content) i x)
All-set-IsPhrase i content swap x h =
    All-set IsPhrase (sentences content) i x (IsPhrase-sentences content)
      (All-get_elem? IsPhrase (sentences swap) i x (IsPhrase-sentences swap) h)

-- The document after the end of a write has the words of the old one, with those of the client's
-- sentence in the place of the old sentence.
merged_text-set :
    (i : ℕ) (content swap : Text) (x : List Text)
    → length (sentences content) ≤ max_sentences
    → length (sentences swap) ≤ max_sentences
    → i < length (sentences content)
    → get_elem? (sentences swap) i ≡ some x
    → merged_text (suc i) content swap ≡ join_words (concat (set (sentences content) i x))
unfolding join_words
merged_text-set i content swap x l m h k =
    merged_text-replaced i content swap (sentences content) (sentences swap) x
      (sentence_words-sentences content l) (sentence_words-sentences swap m) h k
    ∙ add_sentences-join (set (sentences content) i x) [] tt (All-set-IsPhrase i content swap x k)

-- The sentences of a text that is put together from the words of sentences.
pub sentences-join :
    (gs : List (List Text))
    → AreSentences gs
    → All IsPhrase gs
    → length (concat gs) ≤ max_words
    → sentences (join_words (concat gs)) ≡ gs
sentences-join gs h k l =
    ap group (words_of-join_words (concat gs) (All-concat gs k) l) ∙ group-concat gs h k

may_replace :
    (i : ℕ) (gs hs : List (List Text)) (x : List Text)
    → AreSentences hs
    → get_elem? hs i ≡ some x
    → IsEnded x ⊎ (suc i ≡ length gs)
    → IsEnded x ⊎ (IsOpen x × (suc i ≡ length gs))
may_replace i gs hs x h k (inl e) = inl e
may_replace i gs hs x h k (inr last) = elim (AreSentences-get_elem? hs i x h k) [
  | inl e ↦ inl e
  | inr o ↦ inr (o.0, last)
]

-- The merge where the words and the text fit their arrays.
pub merge-merged_text :
    (n : ℕ) (content swap final : Text)
    → merged_text n content swap ≡ final
    → all_fit (words_of content) ≡ true
    → all_fit (words_of swap) ≡ true
    → length final ≤ content_size
    → merge n content swap ≡ some final
unfolding merge
merge-merged_text n content swap final e a b l =
    let fits : leb (length final) content_size ≡ true = ground (arith, l) in rw (e, a, b, fits) refl

-- The words of a document after the end of a write.
pub merge-set :
    (i : ℕ) (content swap : Text) (x : List Text)
    → length (sentences content) ≤ max_sentences
    → length (sentences swap) ≤ max_sentences
    → i < length (sentences content)
    → get_elem? (sentences swap) i ≡ some x
    → all_fit (words_of content) ≡ true
    → all_fit (words_of swap) ≡ true
    → length (join_words (concat (set (sentences content) i x))) ≤ content_size
    → merge (suc i) content swap ≡ some (join_words (concat (set (sentences content) i x)))
merge-set i content swap x l m h k a b fits =
    merge-merged_text (suc i) content swap (join_words (concat (set (sentences content) i x)))
      (merged_text-set i content swap x l m h k) a b fits

-- The sentences of the words of a document in which a sentence has been replaced.
pub sentences-set :
    (i : ℕ) (content swap : Text) (x : List Text)
    → get_elem? (sentences swap) i ≡ some x
    → IsEnded x ⊎ (suc i ≡ length (sentences content))
    → length (concat (set (sentences content) i x)) ≤ max_words
    → sentences (join_words (concat (set (sentences content) i x))) ≡ set (sentences content) i x
sentences-set i content swap x k last room =
    sentences-join (set (sentences content) i x)
      (AreSentences-set (sentences content) i x (AreSentences-sentences content)
        (may_replace i (sentences content) (sentences swap) x (AreSentences-sentences swap) k last))
      (All-set-IsPhrase i content swap x k) room

-- The merge of a swap file into a document gives a text, in which its sentence is at the client's
-- place and every other sentence is that of the document, if both have at most 256 sentences and
-- no word of more than 511 bytes, the swap file has that sentence, the sentence is ended or the
-- last one, and at most 1024 words and 8191 bytes result.
pub sentences-merge :
    (i : ℕ) (content swap : Text) (x : List Text)
    → length (sentences content) ≤ max_sentences
    → length (sentences swap) ≤ max_sentences
    → i < length (sentences content)
    → get_elem? (sentences swap) i ≡ some x
    → IsEnded x ⊎ (suc i ≡ length (sentences content))
    → all_fit (words_of content) ≡ true
    → all_fit (words_of swap) ≡ true
    → length (concat (set (sentences content) i x)) ≤ max_words
    → length (join_words (concat (set (sentences content) i x))) ≤ content_size
    → (t : Text) × (merge (suc i) content swap ≡ some t)
      × (sentences t ≡ set (sentences content) i x)
sentences-merge i content swap x l m h k last a b room fits = (
  join_words (concat (set (sentences content) i x)),
  merge-set i content swap x l m h k a b fits,
  sentences-set i content swap x k last room,
)
