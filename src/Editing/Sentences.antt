-- ===== src/Editing/Sentences.antt =====
-- The sentences of a list of words, for the loops of `client_handler_thread` in
-- src/storage_server/main.c that find their bounds: each sentence as its words.
use collaborative_doc.Prelude.{
  ℕ, zero, suc, ◌+◌, ◌-◌, ◌≤◌, ◌<◌, ◌≡◌, ◌∙◌, refl, sym, ap, true, false, inl, inr, List, [], ◌∷◌,
  ◌++◌, map, Text, append_assoc, arith, Bool-cases, length, take, drop, ltb, get_elem?, some, subst,
  length-append, if◌then◌else◌,
}
use collaborative_doc.Documents.{SentenceInfo, sentences_from, words_of, incomplete}
use collaborative_doc.Editing.{ends, words_in, sentences_in, sentence_words, max_sentences}
use collaborative_doc.Editing.Joining.{concat}

-- Words that are not ended, as a sentence of their own, if there are any.
abbrev pub unended : List Text → List (List Text)
unended [] = []
unended (w ∷ ws) = (w ∷ ws) ∷ []

-- A sentence ends with the word that ends it; the words before belong to it.
unfoldable pub group_from : List Text → List Text → List (List Text)
group_from current [] = unended current
group_from current (w ∷ ws) =
    let ended = group_from [] ws in
    let goes_on = group_from (current ++ w ∷ []) ws in
    if ends w then (current ++ w ∷ []) ∷ ended else goes_on

abbrev pub group : List Text → List (List Text)
group ws = group_from [] ws

-- The sentences of a text, by the words that are read.
abbrev pub sentences : Text → List (List Text)
sentences content = group (words_of content)

module _ {ℓ} {A : Type ℓ} where
  pub take-append : (xs ys : List A) → take (length xs) (xs ++ ys) ≡ xs
  take-append [] ys = refl
  take-append (x ∷ xs) ys = ap (◌∷◌ x) (take-append xs ys)

  pub drop-append : (xs ys : List A) → drop (length xs) (xs ++ ys) ≡ ys
  drop-append [] ys = refl
  drop-append (x ∷ xs) ys = drop-append xs ys

  length-zero : (xs : List A) → length xs ≤ 0 → xs ≡ []
  length-zero [] h = refl
  length-zero (x ∷ xs) h = absurd (omega arith)

group_from-open : (c : Text) (current ws : List Text) → 0 < length (group_from (c ∷ current) ws)
unfolding group_from
group_from-open c current [] = omega arith
group_from-open c current (w ∷ ws) = elim (Bool-cases (ends w)) [
  | inl y ↦ rw y (omega arith)
  | inr n ↦ rw n (group_from-open c (current ++ w ∷ []) ws)
]

-- Where there are words there is a sentence.
pub group_from-nonempty :
    (current : List Text) (w : Text) (ws : List Text) → 0 < length (group_from current (w ∷ ws))
unfolding group_from
group_from-nonempty (c ∷ current) w ws = group_from-open c current (w ∷ ws)
group_from-nonempty [] w ws = elim (Bool-cases (ends w)) [
  | inl y ↦ rw y (omega arith)
  | inr n ↦ rw n (group_from-open w [] ws)
]

-- The bounds of the sentences, the first of which starts at the word `start`.
abbrev pub Located : ℕ → List (List Text) → List SentenceInfo → Type 0
Located start [] [] = Unit
Located start [] (s ∷ ss) = ⊥
Located start (g ∷ gs) [] = ⊥
Located start (g ∷ gs) (s ∷ ss) =
    (s.start_word_idx ≡ start)
    × (s.end_word_idx + 1 ≡ start + length g)
    × Located (start + length g) gs ss

incomplete-Located :
    (current : List Text) (room start : ℕ)
    → length (unended current) ≤ room
    → Located start (unended current) (incomplete room start (start + length current))
incomplete-Located [] zero start l = tt
incomplete-Located (w ∷ ws) zero start l = absurd (omega arith)
incomplete-Located [] (suc room) start l =
    let e : ltb start (start + 0) ≡ false = ground arith in rw e tt
incomplete-Located (w ∷ ws) (suc room) start l =
    let e : ltb start (start + length (w ∷ ws)) ≡ true = ground arith in
    rw e (refl, omega arith, tt)

-- The loop finds the bounds of the sentences, if there is room for all of them.
sentences_from-Located :
    (ws current : List Text) (room start i : ℕ)
    → i ≡ start + length current
    → length (group_from current ws) ≤ room
    → Located start (group_from current ws) (sentences_from room start i ws)
unfolding sentences_from group_from
sentences_from-Located [] current room start i k l = rw k (incomplete-Located current room start l)
sentences_from-Located (w ∷ ws) current zero start i k l =
    absurd (omega (arith, l, group_from-nonempty current w ws))
sentences_from-Located (w ∷ ws) current (suc room) start i k l =
    let next : i + 1 ≡ start + length (current ++ w ∷ []) =
      omega (arith, length-append current (w ∷ [])) in
    elim (Bool-cases (ends w)) [
      | inl y ↦
          let l' : suc (length (group_from [] ws)) ≤ suc room = rw y at l in
          let rest : Located (i + 1) (group_from [] ws) (sentences_from room (i + 1) (i + 1) ws) =
            sentences_from-Located ws [] room (i + 1) (i + 1) (omega arith) (omega (arith, l')) in
          rw y (
            refl,
            next,
            subst (λ n. Located n (group_from [] ws) (sentences_from room (i + 1) (i + 1) ws)) next
                rest,
          )
      | inr n ↦
          let l' : length (group_from (current ++ w ∷ []) ws) ≤ suc room = rw n at l in
          rw n (sentences_from-Located ws (current ++ w ∷ []) (suc room) start (i + 1) next l')
    ]

-- The words between the bounds.
Located-words_in :
    (gs : List (List Text)) (ss : List SentenceInfo) (all before : List Text)
    → all ≡ before ++ concat gs
    → Located (length before) gs ss
    → map (words_in all) ss ≡ gs
Located-words_in [] [] all before e h = refl
Located-words_in [] (s ∷ ss) all before e h = absurd h
Located-words_in (g ∷ gs) [] all before e h = absurd h
Located-words_in (g ∷ gs) (s ∷ ss) all before e (h, k, l) =
    let count : s.end_word_idx + 1 - s.start_word_idx ≡ length g = omega (arith, h, k) in
    let here : words_in all s ≡ g =
      rw (count, h, e, drop-append before (concat (g ∷ gs))) (take-append g (concat gs)) in
    rw here (
      ap (◌∷◌ g) (
        Located-words_in gs ss all (before ++ g) (e ∙ sym (append_assoc before g (concat gs)))
          (subst (λ n. Located n gs ss) (sym (length-append before g)) l)))

pub Located-get_elem? :
    (gs : List (List Text)) (ss : List SentenceInfo) (start i : ℕ) (s : SentenceInfo)
    (g : List Text)
    → Located start gs ss
    → get_elem? ss i ≡ some s
    → get_elem? gs i ≡ some g
    → (s.start_word_idx ≡ start + length (concat (take i gs)))
      × (s.end_word_idx + 1 ≡ start + length (concat (take i gs)) + length g)
Located-get_elem? [] ss start i s g h e f = absurd (ground (arith, f))
Located-get_elem? (x ∷ gs) [] start i s g h e f = absurd h
Located-get_elem? (x ∷ gs) (t ∷ ss) start zero s g h e f =
    let same : t ≡ s = cc e in
    let same' : x ≡ g = cc f in
    (
      omega (arith, sym (ap SentenceInfo.start_word_idx same), h.0),
      omega (arith, sym (ap SentenceInfo.end_word_idx same), h.1, ap length same'),
    )
Located-get_elem? (x ∷ gs) (t ∷ ss) start (suc i) s g h e f =
    let (k, l) = Located-get_elem? gs ss (start + length x) i s g h.2 e f in
    let more = length-append x (concat (take i gs)) in
    (omega (arith, k, more), omega (arith, l, more))

pub sentences_in-Located :
    (words : List Text)
    → length (group words) ≤ max_sentences
    → Located 0 (group words) (sentences_in words)
sentences_in-Located words l = sentences_from-Located words [] max_sentences 0 0 refl l

-- No word is lost.
pub concat-group_from : (ws current : List Text) → concat (group_from current ws) ≡ current ++ ws
unfolding group_from
concat-group_from [] [] = refl
concat-group_from [] (c ∷ current) = refl
concat-group_from (w ∷ ws) current = elim (Bool-cases (ends w)) [
  | inl y ↦
      rw y
        (ap (◌++◌ (current ++ w ∷ [])) (concat-group_from ws []) ∙ append_assoc current (w ∷ []) ws)
  | inr n ↦ rw n (concat-group_from ws (current ++ w ∷ []) ∙ append_assoc current (w ∷ []) ws)
]

-- What the server takes for the words of the sentences of a text.
pub sentence_words-sentences :
    (content : Text)
    → length (sentences content) ≤ max_sentences
    → sentence_words content ≡ sentences content
sentence_words-sentences content l =
    let words = words_of content in
    Located-words_in (group words) (sentences_in words) words [] (sym (concat-group_from words []))
      (sentences_in-Located words l)
