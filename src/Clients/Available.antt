-- ===== src/Clients/Available.antt =====
-- The sentences that `WRITE` allows in `client_handler_thread` of src/storage_server/main.c.
use collaborative_doc.Prelude.{
  ℕ, zero, suc, ℤ, pos, negsuc, Bool-cases, ◌+◌, ◌-◌, ◌≤◌, ◌≡◌, ◌≢◌, ◌∙◌, refl, sym, ap, Bool, true,
  false, ◌⊎◌, inl, inr, List, [], ◌∷◌, ◌++◌, some, Text, append-nil, arith, length, take, drop, ltb,
  ◌==◌, if◌then◌else◌, get_elem?, get_elem?-of_lt, get_elem?-lt, last_or, drop_of_length-le,
  length-append, leb,
}
use collaborative_doc.Documents.{SentenceInfo, words_of, content_size, get_sentence_info_simple}
use collaborative_doc.Editing.{max_sentences, sentences_in}
use collaborative_doc.Editing.Joining.{IsPhrase, concat}
use collaborative_doc.Editing.Sentences.{
  group, sentences, Located-get_elem?, sentences_in-Located, concat-group_from,
}
use collaborative_doc.Editing.Shapes.{
  IsEnded, IsOpen, IsPhrase-sentences, AreSentences-sentences, AreSentences-get_elem?,
}
use collaborative_doc.Editing.Merging.{All-get_elem?}
use collaborative_doc.Editing.Writing.{length-Located, concat-split, not_empty}
use collaborative_doc.Locks.{SentenceLock, is_sentence_locked, add_sentence_lock}
use collaborative_doc.Clients.{
  Server, Around, Reply, available_sentences, with_found, with_next, ends_word, handle_write,
  write_number, not_positive, not_available, conflict, granted,
}

get_elem?-last_or {ℓ} :
    {A : Type ℓ} (x : A) (xs : List A) (i : ℕ)
    → suc i ≡ length (x ∷ xs)
    → get_elem? (x ∷ xs) i ≡ some (last_or x xs)
get_elem?-last_or x [] zero h = refl
get_elem?-last_or x [] (suc i) h = absurd (omega (arith, h))
get_elem?-last_or x (y ∷ xs) zero h = absurd (omega (arith, h))
get_elem?-last_or x (y ∷ xs) (suc i) h = get_elem?-last_or y xs i (omega (arith, h))

-- The last word of a sentence, with words before it.
ends_word-IsEnded :
    (before x : List Text) (k : ℕ)
    → IsEnded x
    → suc k ≡ length (before ++ x)
    → ends_word (get_elem? (before ++ x) k) ≡ true
ends_word-IsEnded [] [] k h e = absurd h
ends_word-IsEnded [] (w ∷ []) zero h e = h
ends_word-IsEnded [] (w ∷ []) (suc k) h e = absurd (omega (arith, e))
ends_word-IsEnded [] (w ∷ v ∷ x) zero h e = absurd (omega (arith, e))
ends_word-IsEnded [] (w ∷ v ∷ x) (suc k) h e = ends_word-IsEnded [] (v ∷ x) k h.1 (omega (arith, e))
ends_word-IsEnded (b ∷ before) [] k h e = absurd h
ends_word-IsEnded (b ∷ before) (w ∷ x) zero h e =
    absurd (omega (arith, e, length-append before (w ∷ x)))
ends_word-IsEnded (b ∷ before) (w ∷ x) (suc k) h e =
    ends_word-IsEnded before (w ∷ x) k h (omega (arith, e))

ends_word-IsOpen :
    (before x : List Text) (k : ℕ)
    → x ≢ []
    → IsOpen x
    → suc k ≡ length (before ++ x)
    → ends_word (get_elem? (before ++ x) k) ≡ false
ends_word-IsOpen before [] k ne h e = absurd (ne refl)
ends_word-IsOpen [] (w ∷ []) zero ne h e = h.0
ends_word-IsOpen [] (w ∷ []) (suc k) ne h e = absurd (omega (arith, e))
ends_word-IsOpen [] (w ∷ v ∷ x) zero ne h e = absurd (omega (arith, e))
ends_word-IsOpen [] (w ∷ v ∷ x) (suc k) ne h e =
    ends_word-IsOpen [] (v ∷ x) k (λ q. absurd (cc q)) h.1 (omega (arith, e))
ends_word-IsOpen (b ∷ before) (w ∷ x) zero ne h e =
    absurd (omega (arith, e, length-append before (w ∷ x)))
ends_word-IsOpen (b ∷ before) (w ∷ x) (suc k) ne h e =
    ends_word-IsOpen before (w ∷ x) k ne h (omega (arith, e))

with_next_last :
    (words : List Text) (count : ℕ) (s : SentenceInfo) (ended : Bool)
    → s.end_word_idx + 1 ≡ length words
    → ends_word (get_elem? words s.end_word_idx) ≡ ended
    → with_next words count s ≡ (if ended then count + 1 else count)
with_next_last words count s ended h e =
    let f : ltb s.end_word_idx (length words - 1) ≡ false = ground (arith, h) in rw (f, e) refl

with_found_last :
    (words : List Text) (found : List SentenceInfo) (i : ℕ) (s : SentenceInfo)
    → suc i ≡ length found
    → get_elem? found i ≡ some s
    → with_found words found ≡ with_next words (suc i) s
with_found_last words [] i s h e = absurd (omega (arith, h))
with_found_last words (t ∷ ts) i s h e =
    let same : last_or t ts ≡ s = cc (sym (get_elem?-last_or t ts i h) ∙ e) in
    ap (λ n. with_next words n (last_or t ts)) (sym h) ∙ ap (with_next words (suc i)) same

-- The last sentence `x` of a document, and its bounds.
available_last :
    (file : Text) (i : ℕ) (x : List Text) (ended : Bool)
    → length (sentences (take content_size file)) ≤ max_sentences
    → get_elem? (sentences (take content_size file)) i ≡ some x
    → suc i ≡ length (sentences (take content_size file))
    → ((before : List Text) (k : ℕ)
        → suc k ≡ length (before ++ x)
        → ends_word (get_elem? (before ++ x) k) ≡ ended)
    → available_sentences file ≡ (if ended then suc i + 1 else suc i)
unfolding available_sentences get_sentence_info_simple
available_last file i x ended l h last test =
    let words = words_of (take content_size file) in
    let gs = group words in
    let located = sentences_in-Located words l in
    let same = length-Located 0 gs (sentences_in words) located in
    let (s, found) =
      get_elem?-of_lt (sentences_in words) i (omega (arith, same, get_elem?-lt gs i x h)) in
    let (a, b) = Located-get_elem? gs (sentences_in words) 0 i s x located found h in
    let nothing : drop (suc i) gs ≡ [] = drop_of_length-le (suc i) gs (omega (arith, last)) in
    let split : words ≡ concat (take i gs) ++ x =
      sym (concat-group_from words [])
      ∙ concat-split gs i x h
      ∙ ap (λ r. concat (take i gs) ++ x ++ concat r) nothing
      ∙ append-nil (concat (take i gs) ++ x) in
    let n : s.end_word_idx + 1 ≡ length (concat (take i gs) ++ x) =
      omega (arith, b, length-append (concat (take i gs)) x) in
    rw (not_empty i (take content_size file) x h) (
      with_found_last words (sentences_in words) i s (omega (arith, same, last)) found
      ∙ with_next_last words (suc i) s ended (n ∙ ap length (sym split)) (
          ap (λ w. ends_word (get_elem? w s.end_word_idx)) split
          ∙ test (concat (take i gs)) s.end_word_idx (omega (arith, n))))

-- One more than there are where the last sentence is ended.
pub available_sentences-lem :
    (file : Text) (i : ℕ) (x : List Text)
    → length (sentences (take content_size file)) ≤ max_sentences
    → get_elem? (sentences (take content_size file)) i ≡ some x
    → suc i ≡ length (sentences (take content_size file))
    → (IsEnded x → available_sentences file ≡ suc (suc i))
      × (IsOpen x → available_sentences file ≡ suc i)
available_sentences-lem file i x l h last =
    let phrase =
      All-get_elem? IsPhrase (sentences (take content_size file)) i x
        (IsPhrase-sentences (take content_size file)) h in
    (
      λ e.
          available_last file i x true l h last (λ b k q. ends_word-IsEnded b x k e q)
          ∙ omega arith,
      λ o. available_last file i x false l h last (λ b k q. ends_word-IsOpen b x k phrase.0 o q),
    )

granted_number :
    (fd : ℕ) (f : Text) (n : ℕ) (e : Around) (text : Text) (s : Server)
    → (write_number fd f (pos n) e text s).0 ≡ granted
    → (1 ≤ n)
      × (n ≤ available_sentences text)
      × (is_sentence_locked f n fd s.locks ≡ false)
      × ((write_number fd f (pos n) e text s).1.locks ≡ add_sentence_lock e.alloc_ok f n fd s.locks)
granted_number fd f n e text s h = elim (Bool-cases (n == 0)) [
  | inl y ↦ absurd (refused not_positive (λ q. absurd (cc q)) (rw y at h))
  | inr a ↦ elim (Bool-cases (ltb (available_sentences text) n)) [
    | inl y ↦
        absurd
          (refused (not_available (available_sentences text)) (λ q. absurd (cc q)) (rw (a, y) at h))
    | inr b ↦ elim (Bool-cases (is_sentence_locked f n fd s.locks)) [
      | inl y ↦ absurd (refused conflict (λ q. absurd (cc q)) (rw (a, b, y) at h))
      | inr c ↦ (ground (arith, a), ground (arith, b), c, rw (a, b, c) refl)
    ]
  ]
]
  where
    refused : (r : Reply) → r ≢ granted → r ≡ granted → ⊥
    refused r ne q = ne q

added :
    (ok : Bool) (f : Text) (n fd : ℕ) (ls : List SentenceLock)
    → ok ≡ true
    → add_sentence_lock ok f n fd ls
      ≡ record { filename = f; sentence_num = n; client_fd = fd } ∷ ls
unfolding add_sentence_lock
added true f n fd ls h = refl
added false f n fd ls h = absurd (cc h)

last_allowed :
    (n : ℕ) (file : Text) (i : ℕ) (x : List Text)
    → length (sentences (take content_size file)) ≤ max_sentences
    → get_elem? (sentences (take content_size file)) i ≡ some x
    → suc i ≡ length (sentences (take content_size file))
    → n ≤ available_sentences file
    → (n ≤ length (sentences (take content_size file)))
      ⊎ ((n ≡ suc (length (sentences (take content_size file)))) × IsEnded x)
last_allowed n file i x l h last le =
    let gs = sentences (take content_size file) in
    let (ended, open_) = available_sentences-lem file i x l h last in
    elim (AreSentences-get_elem? gs i x (AreSentences-sentences (take content_size file)) h) [
      | inl k ↦
          let a = ended k in
          elim (Bool-cases (leb n (length gs))) [
            | inl y ↦ inl (ground (arith, y))
            | inr z ↦ inr (ground (arith, z, a, le, last), k)
          ]
      | inr k ↦ let a = open_ k.0 in inl (omega (arith, a, le, last))
    ]

-- A WRITE that is granted, on a document with at least one and at most 256 sentences and where
-- malloc succeeds, is for a positive sentence number that the document has, or for the next one
-- where the last sentence is ended; no other client has a lock on it, and the lock of the client
-- on the sentence is put before the others.
pub handle_write-granted :
    (fd : ℕ) (f : Text) (number : ℤ) (e : Around) (s : Server) (text : Text) (i : ℕ) (x : List Text)
    → (s.documents f).file ≡ some text
    → length (sentences (take content_size text)) ≤ max_sentences
    → get_elem? (sentences (take content_size text)) i ≡ some x
    → suc i ≡ length (sentences (take content_size text))
    → e.alloc_ok ≡ true
    → (handle_write fd f number e s).0 ≡ granted
    → (n : ℕ) × (number ≡ pos n)
      × (1 ≤ n)
      × ((n ≤ length (sentences (take content_size text)))
          ⊎ ((n ≡ suc (length (sentences (take content_size text)))) × IsEnded x))
      × (is_sentence_locked f n fd s.locks ≡ false)
      × ((handle_write fd f number e s).1.locks
          ≡ record { filename = f; sentence_num = n; client_fd = fd } ∷ s.locks)
handle_write-granted fd f (negsuc k) e s text i x found l h last ok g =
    let same : handle_write fd f (negsuc k) e s ≡ (not_positive, s) =
      unfold handle_write in rw (found, handle_write) refl in
    absurd (cc (sym (ap (λ r. r.0) same) ∙ g))
handle_write-granted fd f (pos n) e s text i x found l h last ok g =
    let same : handle_write fd f (pos n) e s ≡ write_number fd f (pos n) e text s =
      unfold handle_write in rw (found, handle_write) refl in
    let (a, b, c, d) = granted_number fd f n e text s (sym (ap (λ r. r.0) same) ∙ g) in
    (
      n,
      refl,
      a,
      last_allowed n text i x l h last b,
      c,
      ap (λ r. r.1.locks) same ∙ d ∙ added e.alloc_ok f n fd s.locks ok,
    )
