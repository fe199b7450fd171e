-- ===== src/Editing/Shapes.antt =====
-- How the sentences of a document look that `client_handler_thread` of
-- src/storage_server/main.c finds by the ends of the words: every sentence but the last is ended.
use collaborative_doc.Prelude.{
  ℕ, zero, suc, ◌≡◌, ◌≢◌, ◌∙◌, refl, sym, ap, subst, true, false, ◌⊎◌, inl, inr, List, [], ◌∷◌,
  ◌++◌, some, Text, append_assoc, append-nil, arith, All, All-append, Bool-cases, length, set,
  get_elem?,
}
use collaborative_doc.Documents.{words_of}
use collaborative_doc.Editing.{ends}
use collaborative_doc.Editing.Joining.{IsWord, IsPhrase, concat}
use collaborative_doc.Editing.Splitting.{words_of-IsWord}
use collaborative_doc.Editing.Sentences.{group_from, group, unended, sentences}

-- The last word of the sentence ends it, and no other does.
abbrev pub IsEnded : List Text → Type 0
IsEnded [] = ⊥
IsEnded (w ∷ []) = ends w ≡ true
IsEnded (w ∷ v ∷ ws) = (ends w ≡ false) × IsEnded (v ∷ ws)

-- No word ends the sentence.
abbrev pub IsOpen : List Text → Type 0
IsOpen s = All (λ w. ends w ≡ false) s

abbrev pub AreSentences : List (List Text) → Type 0
AreSentences [] = Unit
AreSentences (s ∷ []) = IsEnded s ⊎ IsOpen s
AreSentences (s ∷ t ∷ ss) = IsEnded s × AreSentences (t ∷ ss)

group_from-ended :
    (s current ws : List Text)
    → IsEnded s
    → group_from current (s ++ ws) ≡ (current ++ s) ∷ group_from [] ws
unfolding group_from
group_from-ended [] current ws h = absurd h
group_from-ended (w ∷ []) current ws h = rw h refl
group_from-ended (w ∷ v ∷ s) current ws h = rw h.0 (
    group_from-ended (v ∷ s) (current ++ w ∷ []) ws h.1
    ∙ ap (λ t. t ∷ group_from [] ws) (append_assoc current (w ∷ []) (v ∷ s)))

group_from-open : (s current : List Text) → IsOpen s → group_from current s ≡ unended (current ++ s)
unfolding group_from
group_from-open [] current h = ap unended (sym (append-nil current))
group_from-open (w ∷ s) current h =
    rw h.0
      (group_from-open s (current ++ w ∷ []) h.1 ∙ ap unended (append_assoc current (w ∷ []) s))

unended-single : (s : List Text) → s ≢ [] → unended s ≡ s ∷ []
unended-single [] h = absurd (h refl)
unended-single (w ∷ s) h = refl

-- The sentences of the words of sentences are these again.
pub group-concat :
    (gs : List (List Text)) → AreSentences gs → All IsPhrase gs → group (concat gs) ≡ gs
unfolding group_from
group-concat [] h k = refl
group-concat (s ∷ []) (inl ended) k = group_from-ended s [] [] ended
group-concat (s ∷ []) (inr unended_) k =
    ap (λ t. group_from [] t) (append-nil s)
    ∙ group_from-open s [] unended_
    ∙ unended-single s k.0.0
group-concat (s ∷ t ∷ gs) h k =
    group_from-ended s [] (concat (t ∷ gs)) h.0 ∙ ap (◌∷◌ s) (group-concat (t ∷ gs) h.1 k.1)

IsEnded-append :
    (current : List Text) (w : Text) → IsOpen current → ends w ≡ true → IsEnded (current ++ w ∷ [])
IsEnded-append [] w h k = k
IsEnded-append (c ∷ []) w h k = (h.0, k)
IsEnded-append (c ∷ d ∷ current) w h k = (h.0, IsEnded-append (d ∷ current) w h.1 k)

AreSentences-cons :
    (s : List Text) (gs : List (List Text)) → IsEnded s → AreSentences gs → AreSentences (s ∷ gs)
AreSentences-cons s [] h k = inl h
AreSentences-cons s (t ∷ gs) h k = (h, k)

AreSentences-unended : (s : List Text) → IsOpen s → AreSentences (unended s)
AreSentences-unended [] h = tt
AreSentences-unended (w ∷ s) h = inr h

pub group_from-AreSentences :
    (ws current : List Text) → IsOpen current → AreSentences (group_from current ws)
unfolding group_from
group_from-AreSentences [] current h = AreSentences-unended current h
group_from-AreSentences (w ∷ ws) current h = elim (Bool-cases (ends w)) [
  | inl y ↦ rw y (
      AreSentences-cons (current ++ w ∷ []) (group_from [] ws) (IsEnded-append current w h y)
        (group_from-AreSentences ws [] tt))
  | inr n ↦ rw n (
      group_from-AreSentences ws (current ++ w ∷ [])
        (All-append (λ v. ends v ≡ false) current (w ∷ []) h (n, tt)))
]

snoc_ne : (current : List Text) (w : Text) → current ++ w ∷ [] ≢ []
snoc_ne [] w e = absurd (cc e)
snoc_ne (c ∷ current) w e = absurd (cc e)

unended-IsPhrase : (s : List Text) → All IsWord s → All IsPhrase (unended s)
unended-IsPhrase [] h = tt
unended-IsPhrase (w ∷ s) h = (((λ e. absurd (cc e)), h), tt)

pub group_from-IsPhrase :
    (ws current : List Text)
    → All IsWord current
    → All IsWord ws
    → All IsPhrase (group_from current ws)
unfolding group_from
group_from-IsPhrase [] current h k = unended-IsPhrase current h
group_from-IsPhrase (w ∷ ws) current h k =
    let longer : All IsWord (current ++ w ∷ []) = All-append IsWord current (w ∷ []) h (k.0, tt) in
    elim (Bool-cases (ends w)) [
      | inl y ↦ rw y ((snoc_ne current w, longer), group_from-IsPhrase ws [] tt k.1)
      | inr n ↦ rw n (group_from-IsPhrase ws (current ++ w ∷ []) longer k.1)
    ]

pub AreSentences-sentences : (content : Text) → AreSentences (sentences content)
AreSentences-sentences content = group_from-AreSentences (words_of content) [] tt

pub IsPhrase-sentences : (content : Text) → All IsPhrase (sentences content)
IsPhrase-sentences content = group_from-IsPhrase (words_of content) [] tt (words_of-IsWord content)

pub AreSentences-set :
    (gs : List (List Text)) (i : ℕ) (x : List Text)
    → AreSentences gs
    → IsEnded x ⊎ (IsOpen x × (suc i ≡ length gs))
    → AreSentences (set gs i x)
AreSentences-set [] i x h k = tt
AreSentences-set (s ∷ []) zero x h (inl e) = inl e
AreSentences-set (s ∷ []) zero x h (inr o) = inr o.0
AreSentences-set (s ∷ []) (suc i) x h k = h
AreSentences-set (s ∷ t ∷ gs) zero x h (inl e) = (e, h.1)
AreSentences-set (s ∷ t ∷ gs) zero x h (inr o) = absurd (omega (arith, o.1))
AreSentences-set (s ∷ t ∷ gs) (suc i) x h k =
    AreSentences-cons s (set (t ∷ gs) i x) h.0 (AreSentences-set (t ∷ gs) i x h.1 (later k))
  where
    later :
        IsEnded x ⊎ (IsOpen x × (suc (suc i) ≡ length (s ∷ t ∷ gs)))
        → IsEnded x ⊎ (IsOpen x × (suc i ≡ length (t ∷ gs)))
    later (inl e) = inl e
    later (inr o) = inr (o.0, omega (arith, o.1))

-- A sentence of a document is ended, or it is the last one and open.
pub AreSentences-get_elem? :
    (gs : List (List Text)) (i : ℕ) (x : List Text)
    → AreSentences gs
    → get_elem? gs i ≡ some x
    → IsEnded x ⊎ (IsOpen x × (suc i ≡ length gs))
AreSentences-get_elem? [] i x h e = absurd (ground (arith, e))
AreSentences-get_elem? (s ∷ []) zero x (inl k) e =
    let same : s ≡ x = cc e in inl (subst IsEnded same k)
AreSentences-get_elem? (s ∷ []) zero x (inr k) e =
    let same : s ≡ x = cc e in inr (subst IsOpen same k, refl)
AreSentences-get_elem? (s ∷ []) (suc i) x h e = absurd (ground (arith, e))
AreSentences-get_elem? (s ∷ t ∷ gs) zero x h e =
    let same : s ≡ x = cc e in inl (subst IsEnded same h.0)
AreSentences-get_elem? (s ∷ t ∷ gs) (suc i) x h e =
    elim (AreSentences-get_elem? (t ∷ gs) i x h.1 e) [
      | inl k ↦ inl k
      | inr k ↦ inr (k.0, omega (arith, k.1))
    ]
