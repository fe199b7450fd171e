-- ===== src/Editing/Concurrent.antt =====
-- `ETIRW` of several clients in `client_handler_thread` of src/storage_server/main.c: the merges
-- of two clients that hold the locks of different sentences, and the merge of a new sentence.
use collaborative_doc.Prelude.{
  ℕ, zero, suc, ◌≤◌, ◌<◌, ◌≡◌, ◌≢◌, ◌∙◌, refl, sym, ap, subst, true, ◌⊎◌, List, [], ◌∷◌, some, Text,
  arith, length, set, get_elem?, length-set,
}
use collaborative_doc.Documents.{max_words, words_of, content_size}
use collaborative_doc.Editing.{join_words, merge, max_sentences, all_fit}
use collaborative_doc.Editing.Joining.{concat}
use collaborative_doc.Editing.Sentences.{sentences}
use collaborative_doc.Editing.Shapes.{IsEnded}
use collaborative_doc.Editing.Fitting.{
  all_fit-get_elem?, all_fit-set, all_fit-sentences, all_fit-words_of,
}
use collaborative_doc.Editing.Merging.{merge-set, sentences-merge}

set_comm {ℓ} :
    {A : Type ℓ} (xs : List A) (i j : ℕ) (v w : A)
    → i ≢ j
    → set (set xs i v) j w ≡ set (set xs j w) i v
set_comm [] i j v w h = refl
set_comm (x ∷ xs) zero zero v w h = absurd (h refl)
set_comm (x ∷ xs) zero (suc j) v w h = refl
set_comm (x ∷ xs) (suc i) zero v w h = refl
set_comm (x ∷ xs) (suc i) (suc j) v w h = ap (◌∷◌ x) (set_comm xs i j v w (λ e. h (ap suc e)))

-- A client's swap file as the merge needs it: it has the client's sentence, which is ended where
-- the document goes on behind it, its words fit their arrays, and so do the words and the bytes of
-- the document with that sentence.
pub record IsEdit (i : ℕ) (x : List Text) (content swap : Text) : Type 0 where
  pub few : length (sentences swap) ≤ max_sentences
  pub inside : i < length (sentences content)
  pub found : get_elem? (sentences swap) i ≡ some x
  pub ended : IsEnded x ⊎ (suc i ≡ length (sentences content))
  pub short : all_fit (words_of swap) ≡ true
  pub room : length (concat (set (sentences content) i x)) ≤ max_words
  pub bytes : length (join_words (concat (set (sentences content) i x))) ≤ content_size

-- One merge behind the other.
merge-merge :
    (i j : ℕ) (content swap swap' : Text) (x y : List Text)
    → length (sentences content) ≤ max_sentences
    → all_fit (words_of content) ≡ true
    → IsEdit i x content swap
    → IsEdit j y content swap'
    → length (join_words (concat (set (set (sentences content) i x) j y))) ≤ content_size
    → (t : Text) × (merge (suc i) content swap ≡ some t)
      × (merge (suc j) t swap' ≡ some (join_words (concat (set (set (sentences content) i x) j y))))
merge-merge i j content swap swap' x y few fit a b bytes =
    let (t, made, now) =
      sentences-merge i content swap x few a.few a.inside a.found a.ended fit a.short a.room
        a.bytes in
    let long : length (sentences t) ≡ length (sentences content) =
      ap length now ∙ length-set (sentences content) i x in
    let fit_x : all_fit x ≡ true =
      all_fit-get_elem? (sentences swap) i x (all_fit-sentences swap a.short) a.found in
    let fit_t : all_fit (words_of t) ≡ true = all_fit-words_of t (
      subst (λ gs. all_fit (concat gs) ≡ true) (sym now)
        (all_fit-set (sentences content) i x (all_fit-sentences content fit) fit_x)) in
    (
      t,
      made,
      merge-set j t swap' y (omega (arith, long, few)) b.few (omega (arith, long, b.inside)) b.found
            fit_t b.short
            (subst (λ gs. length (join_words (concat (set gs j y))) ≤ content_size) (sym now) bytes)
          ∙ ap (λ gs. some (join_words (concat (set gs j y)))) now,
    )

-- The merges of the swap files of two clients that write different sentences of a document give
-- the same document in either order, with the sentences of both, if the texts have few sentences,
-- each sentence is ended or the last one, and the words and bytes of the document, the swap files
-- and all results fit their arrays.
pub merge_comm :
    (i j : ℕ) (content swap swap' : Text) (x y : List Text)
    → i ≢ j
    → length (sentences content) ≤ max_sentences
    → all_fit (words_of content) ≡ true
    → IsEdit i x content swap
    → IsEdit j y content swap'
    → length (join_words (concat (set (set (sentences content) i x) j y))) ≤ content_size
    → let both = join_words (concat (set (set (sentences content) i x) j y)) in
      ((t : Text) × (merge (suc i) content swap ≡ some t) × (merge (suc j) t swap' ≡ some both))
      × ((t : Text) × (merge (suc j) content swap' ≡ some t) × (merge (suc i) t swap ≡ some both))
merge_comm i j content swap swap' x y ne few fit a b bytes =
    let same = set_comm (sentences content) i j x y ne in
    let (t, made, after) =
      merge-merge j i content swap' swap y x few fit b a
        (subst (λ gs. length (join_words (concat gs)) ≤ content_size) same bytes) in
    (
      merge-merge i j content swap swap' x y few fit a b bytes,
      (t, made, after ∙ ap (λ gs. some (join_words (concat gs))) (sym same)),
    )
