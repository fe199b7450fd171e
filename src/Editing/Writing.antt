-- ===== src/Editing/Writing.antt =====
-- A write in `client_handler_thread` of src/storage_server/main.c: the insertion of words into a
-- text, and the merge of the text into the document.
use collaborative_doc.Prelude.{
  ℕ, zero, suc, ◌+◌, ◌-◌, ◌≤◌, ◌<◌, ◌≡◌, ◌∙◌, refl, sym, ap, subst, true, false, ◌⊎◌, inl, inr,
  List, [], ◌∷◌, ◌++◌, some, Text, append_assoc, arith, All-set, length, take, drop, ltb, ◌==◌,
  get_elem?, set, get_elem?-of_lt, length-append, get_elem?-lt, length-set, get_elem?-set_self,
}
use collaborative_doc.Strings.Tokens.{tokens, strtok_all, strtok, skip}
use collaborative_doc.Documents.{SentenceInfo, words_of, is_gap, max_words, content_size}
use collaborative_doc.Editing.{
  join_words, insert_at_sentence, insert_content, or_whole, sentences_in, updated, max_sentences,
  merge, all_fit,
}
use collaborative_doc.Editing.Joining.{IsPhrase, concat, concat-append}
use collaborative_doc.Editing.Sentences.{
  group, group_from, sentences, Located, Located-get_elem?, sentences_in-Located, concat-group_from,
  take-append, drop-append,
}
use collaborative_doc.Editing.Shapes.{
  IsEnded, IsOpen, AreSentences-sentences, IsPhrase-sentences, AreSentences-set,
  AreSentences-get_elem?,
}
use collaborative_doc.Editing.Merging.{sentences-join, sentences-merge, All-get_elem?, set-split}
use collaborative_doc.Editing.Fitting.{all_fit-set, all_fit-sentences, all_fit-words_of}
use collaborative_doc.Editing.Inserting.{
  all_fit-edited, edited, IsInsertion, edited-IsEnded, edited-IsOpen, edited-IsPhrase,
  insert_at_sentence-edited,
}

pub length-Located :
    (start : ℕ) (gs : List (List Text)) (ss : List SentenceInfo)
    → Located start gs ss
    → length ss ≡ length gs
length-Located start [] [] h = refl
length-Located start [] (s ∷ ss) h = absurd h
length-Located start (g ∷ gs) [] h = absurd h
length-Located start (g ∷ gs) (s ∷ ss) h = ap suc (length-Located (start + length g) gs ss h.2)

pub or_whole_some :
    (words : List Text) (ss : List SentenceInfo) → 0 < length ss → or_whole words ss ≡ ss
or_whole_some [] [] h = absurd (omega arith)
or_whole_some (w ∷ words) [] h = absurd (omega arith)
or_whole_some [] (s ∷ ss) h = refl
or_whole_some (w ∷ words) (s ∷ ss) h = refl

-- The words of a list of sentences around one of them.
pub concat-split :
    (gs : List (List Text)) (i : ℕ) (x : List Text)
    → get_elem? gs i ≡ some x
    → concat gs ≡ concat (take i gs) ++ x ++ concat (drop (suc i) gs)
concat-split [] i x h = absurd (ground (arith, h))
concat-split (g ∷ gs) zero x h = let same : g ≡ x = cc h in ap (λ l. l ++ concat gs) same
concat-split (g ∷ gs) (suc i) x h =
    ap (◌++◌ g)
      (concat-split gs i x h ∙ append_assoc (concat (take i gs)) x (concat (drop (suc i) gs)))
    ∙ sym (append_assoc g (concat (take i gs)) (x ++ concat (drop (suc i) gs)))
    ∙ sym (append_assoc (g ++ concat (take i gs)) x (concat (drop (suc i) gs)))

concat-set :
    (gs : List (List Text)) (i : ℕ) (v : List Text)
    → i < length gs
    → concat (take i gs) ++ v ++ concat (drop (suc i) gs) ≡ concat (set gs i v)
concat-set gs i v h =
    append_assoc (concat (take i gs)) v (concat (drop (suc i) gs))
    ∙ sym (concat-append (take i gs) (v ∷ drop (suc i) gs))
    ∙ ap concat (set-split gs i v h)

-- The sentence of an insertion, found by its bounds.
insert_into :
    (gs : List (List Text)) (words : List Text) (s : SentenceInfo) (i m : ℕ) (new : Text)
    (x : List Text)
    → words ≡ concat gs
    → get_elem? gs i ≡ some x
    → s.start_word_idx ≡ length (concat (take i gs))
    → s.end_word_idx + 1 ≡ length (concat (take i gs)) + length x
    → IsInsertion m new x
    → length (concat (set gs i (edited m (tokens is_gap new) x))) ≤ max_words
    → length (join_words (concat (set gs i (edited m (tokens is_gap new) x)))) ≤ content_size
    → insert_at_sentence words s (suc m) new
      ≡ updated (join_words (concat (set gs i (edited m (tokens is_gap new) x))))
insert_into gs words s i m new x e f a b h room bytes =
    let before = concat (take i gs) in
    let behind = concat (drop (suc i) gs) in
    let parts : words ≡ before ++ x ++ behind = e ∙ concat-split gs i x f in
    let parts' : words ≡ before ++ (x ++ behind) = parts ∙ append_assoc before x behind in
    let n : s.end_word_idx + 1 - s.start_word_idx ≡ length x = omega (arith, a, b) in
    let end : s.end_word_idx + 1 ≡ length (before ++ x) = b ∙ sym (length-append before x) in
    let whole = concat-set gs i (edited m (tokens is_gap new) x) (get_elem?-lt gs i x f) in
    insert_at_sentence-edited m new x h words before behind s
      (rw (n, a, parts', drop-append before (x ++ behind)) (take-append x behind)) n
      (rw (a, parts') (take-append before (x ++ behind)))
      (rw (end, parts) (drop-append (before ++ x) behind))
      (subst (λ l. length l ≤ max_words) (sym whole) room)
      (subst (λ l. length (join_words l) ≤ content_size) (sym whole) bytes)
    ∙ ap (λ l. updated (join_words l)) whole

sentences_nil : sentences [] ≡ []
unfolding strtok_all strtok skip group_from
sentences_nil = refl

pub not_empty :
    (i : ℕ) (content : Text) (x : List Text)
    → get_elem? (sentences content) i ≡ some x
    → (length content == 0) ≡ false
not_empty i [] x h = absurd (ground (arith, ap (λ gs. get_elem? gs i) (sym sentences_nil) ∙ h))
not_empty i (c ∷ content) x h = ground arith

-- A text in which the sentence `x` at `i` may be replaced by `y`: it has few sentences, its words
-- fit their arrays, and so do the words and the bytes then.
pub record MayWrite (i : ℕ) (y x : List Text) (content : Text) : Type 0 where
  pub few : length (sentences content) ≤ max_sentences
  pub found : get_elem? (sentences content) i ≡ some x
  pub short : all_fit (words_of content) ≡ true
  pub room : length (concat (set (sentences content) i y)) ≤ max_words
  pub bytes : length (join_words (concat (set (sentences content) i y))) ≤ content_size

-- An insertion into a sentence of a text puts the new words there, and nowhere else.
pub insert_content-set :
    (i m : ℕ) (new content : Text) (x : List Text)
    → MayWrite i (edited m (tokens is_gap new) x) x content
    → IsInsertion m new x
    → insert_content (suc i) (suc m) new content
      ≡ updated (join_words (concat (set (sentences content) i (edited m (tokens is_gap new) x))))
unfolding insert_content
insert_content-set i m new content x w k =
    let h = w.found in
    let words = words_of content in
    let located = sentences_in-Located words w.few in
    let same = length-Located 0 (group words) (sentences_in words) located in
    let lt = get_elem?-lt (sentences content) i x h in
    let (s, found) = get_elem?-of_lt (sentences_in words) i (omega (arith, same, lt)) in
    let (a, b) = Located-get_elem? (group words) (sentences_in words) 0 i s x located found h in
    let whole : or_whole words (sentences_in words) ≡ sentences_in words =
      or_whole_some words (sentences_in words) (omega (arith, same, lt)) in
    let in_range : ltb (length (sentences_in words)) (suc i) ≡ false = ground (arith, same, lt) in
    let previous : suc i - 1 ≡ i = omega arith in
    rw (not_empty i content x h, w.short, whole, in_range, previous, found)
      (insert_into (group words) words s i m new x (sym (concat-group_from words [])) h
        (omega (arith, a)) (omega (arith, b)) k w.room w.bytes)

-- The sentence with the new words is ended as the old one, or open as it.
edited-shape :
    (m : ℕ) (new : Text) (x : List Text) (last : Type 0)
    → IsInsertion m new x
    → IsEnded x ⊎ (IsOpen x × last)
    → IsEnded (edited m (tokens is_gap new) x) ⊎ (IsOpen (edited m (tokens is_gap new) x) × last)
edited-shape m new x last k (inl e) = inl (edited-IsEnded m new x k e)
edited-shape m new x last k (inr o) = inr (edited-IsOpen m new x k o.0, o.1)

kept : (x : List Text) (last : Type 0) → IsEnded x ⊎ (IsOpen x × last) → IsEnded x ⊎ IsOpen x
kept x last (inl e) = inl e
kept x last (inr o) = inr o.0

pub insert_content-sentences :
    (i m : ℕ) (new content : Text) (x : List Text)
    → MayWrite i (edited m (tokens is_gap new) x) x content
    → IsInsertion m new x
    → (t : Text) × (insert_content (suc i) (suc m) new content ≡ updated t)
      × (sentences t ≡ set (sentences content) i (edited m (tokens is_gap new) x))
insert_content-sentences i m new content x w k =
    let gs = sentences content in
    let y = edited m (tokens is_gap new) x in
    let shape : IsEnded x ⊎ (IsOpen x × (suc i ≡ length gs)) =
      AreSentences-get_elem? gs i x (AreSentences-sentences content) w.found in
    let phrase : IsPhrase y =
      edited-IsPhrase m new x k (kept x (suc i ≡ length gs) shape)
        (All-get_elem? IsPhrase gs i x (IsPhrase-sentences content) w.found) in
    (
      join_words (concat (set gs i y)),
      insert_content-set i m new content x w k,
      sentences-join (set gs i y)
          (AreSentences-set gs i y (AreSentences-sentences content)
            (edited-shape m new x (suc i ≡ length gs) k shape))
          (All-set IsPhrase gs i y (IsPhrase-sentences content) phrase) w.room,
    )

-- A write of one insertion: where the document has the sentence at its place when the write ends,
-- the merge changes only this sentence of the latest document, in the same way, if what results
-- fits the arrays and the sentence is ended or the last one.
pub write-refines :
    (i m : ℕ) (new content latest : Text) (x : List Text)
    → MayWrite i (edited m (tokens is_gap new) x) x content
    → MayWrite i (edited m (tokens is_gap new) x) x latest
    → IsEnded x ⊎ (suc i ≡ length (sentences latest))
    → IsInsertion m new x
    → (swap : Text) × (insert_content (suc i) (suc m) new content ≡ updated swap)
      × (t : Text) × (merge (suc i) latest swap ≡ some t)
      × (sentences t ≡ set (sentences latest) i (edited m (tokens is_gap new) x))
write-refines i m new content latest x w v last k =
    let y = edited m (tokens is_gap new) x in
    let (swap, e, f) = insert_content-sentences i m new content x w k in
    let lt = get_elem?-lt (sentences content) i x w.found in
    let n : length (sentences swap) ≡ length (sentences content) =
      ap length f ∙ length-set (sentences content) i y in
    let there : get_elem? (sentences swap) i ≡ some y =
      ap (λ gs. get_elem? gs i) f ∙ get_elem?-set_self (sentences content) i y lt in
    let fit : all_fit (words_of swap) ≡ true = all_fit-words_of swap (
      subst (λ gs. all_fit (concat gs) ≡ true) (sym f)
        (all_fit-set (sentences content) i y (all_fit-sentences content w.short)
          (all_fit-edited m new x k))) in
    let (t, made, shape) =
      sentences-merge i latest swap y v.few (omega (arith, n, w.few))
        (get_elem?-lt (sentences latest) i x v.found) there (ended_after last) v.short fit v.room
        v.bytes in
    (swap, e, t, made, shape)
  where
    ended_after :
        IsEnded x ⊎ (suc i ≡ length (sentences latest))
        → IsEnded (edited m (tokens is_gap new) x) ⊎ (suc i ≡ length (sentences latest))
    ended_after (inl e) = inl (edited-IsEnded m new x k e)
    ended_after (inr e) = inr e
