-- ===== src/Editing/Fitting.antt =====
-- The words of a text that fit the arrays of 512 bytes, in `client_handler_thread` of
-- src/storage_server/main.c: those of its sentences, and of what is put together from them.
use collaborative_doc.Prelude.{
  ℕ, zero, suc, ◌≡◌, refl, sym, subst, Bool, true, false, List, [], ◌∷◌, ◌++◌, some, Text, ◌&&◌,
  arith, get_elem?, set, All, length, leb, length-append, if◌then◌else◌, ◌==◌, Bool-cases, inl, inr,
}
use collaborative_doc.Documents.{words_of}
use collaborative_doc.Editing.{all_fit, max_word, add_delimiter, with_delimiter}
use collaborative_doc.Editing.Joining.{concat}
use collaborative_doc.Editing.Sentences.{sentences, concat-group_from}
use collaborative_doc.Editing.Words.{IsShort}

and_true : (a b : Bool) → (a && b) ≡ true → (a ≡ true) × (b ≡ true)
and_true true true h = (refl, refl)
and_true true false h = absurd (cc h)
and_true false b h = absurd (cc h)

true_and : (a b : Bool) → a ≡ true → b ≡ true → (a && b) ≡ true
true_and a b h k = rw (h, k) refl

pub all_fit-append :
    (xs ys : List Text) → all_fit xs ≡ true → all_fit ys ≡ true → all_fit (xs ++ ys) ≡ true
unfolding all_fit
all_fit-append [] ys h k = k
all_fit-append (x ∷ xs) ys h k =
    let (a, b) = and_true (leb (length x) max_word) (all_fit xs) h in
    true_and (leb (length x) max_word) (all_fit (xs ++ ys)) a (all_fit-append xs ys b k)

append-all_fit :
    (xs ys : List Text) → all_fit (xs ++ ys) ≡ true → (all_fit xs ≡ true) × (all_fit ys ≡ true)
unfolding all_fit
append-all_fit [] ys h = (refl, h)
append-all_fit (x ∷ xs) ys h =
    let (a, b) = and_true (leb (length x) max_word) (all_fit (xs ++ ys)) h in
    let (c, d) = append-all_fit xs ys b in (true_and (leb (length x) max_word) (all_fit xs) a c, d)

-- A sentence of words that fit.
pub all_fit-get_elem? :
    (gs : List (List Text)) (i : ℕ) (x : List Text)
    → all_fit (concat gs) ≡ true
    → get_elem? gs i ≡ some x
    → all_fit x ≡ true
all_fit-get_elem? [] i x h e = absurd (ground (arith, e))
all_fit-get_elem? (g ∷ gs) zero x h e =
    let same : g ≡ x = cc e in subst (λ z. all_fit z ≡ true) same (append-all_fit g (concat gs) h).0
all_fit-get_elem? (g ∷ gs) (suc i) x h e =
    all_fit-get_elem? gs i x (append-all_fit g (concat gs) h).1 e

pub all_fit-set :
    (gs : List (List Text)) (i : ℕ) (x : List Text)
    → all_fit (concat gs) ≡ true
    → all_fit x ≡ true
    → all_fit (concat (set gs i x)) ≡ true
all_fit-set [] i x h k = h
all_fit-set (g ∷ gs) zero x h k = all_fit-append x (concat gs) k (append-all_fit g (concat gs) h).1
all_fit-set (g ∷ gs) (suc i) x h k =
    let (a, b) = append-all_fit g (concat gs) h in
    all_fit-append g (concat (set gs i x)) a (all_fit-set gs i x b k)

pub all_fit-sentences :
    (content : Text)
    → all_fit (words_of content) ≡ true
    → all_fit (concat (sentences content)) ≡ true
all_fit-sentences content h =
    subst (λ ws. all_fit ws ≡ true) (sym (concat-group_from (words_of content) [])) h

pub all_fit-words_of :
    (content : Text)
    → all_fit (concat (sentences content)) ≡ true
    → all_fit (words_of content) ≡ true
all_fit-words_of content h =
    subst (λ ws. all_fit ws ≡ true) (concat-group_from (words_of content) []) h

pub all_fit-IsShort : (ws : List Text) → All IsShort ws → all_fit ws ≡ true
unfolding all_fit
all_fit-IsShort [] h = refl
all_fit-IsShort (w ∷ ws) h =
    true_and (leb (length w) max_word) (all_fit ws) (ground (arith, h.0)) (all_fit-IsShort ws h.1)

-- A delimiter more.
fits-with_delimiter :
    (d : ℕ) (w : Text)
    → IsShort w
    → leb (length (if d == 0 then w else with_delimiter d w)) max_word ≡ true
fits-with_delimiter d w h = elim (Bool-cases (d == 0)) [
  | inl y ↦ rw y (ground (arith, h))
  | inr n ↦ rw (n, h) (ground (arith, h, length-append w (d ∷ [])))
]

pub all_fit-add_delimiter :
    (d : ℕ) (ws : List Text) → All IsShort ws → all_fit (add_delimiter d ws) ≡ true
unfolding all_fit add_delimiter
all_fit-add_delimiter d [] h = refl
all_fit-add_delimiter d (w ∷ []) h =
    true_and (leb (length (if d == 0 then w else with_delimiter d w)) max_word) true
      (fits-with_delimiter d w h.0) refl
all_fit-add_delimiter d (w ∷ v ∷ ws) h =
    true_and (leb (length w) max_word) (all_fit (add_delimiter d (v ∷ ws))) (ground (arith, h.0))
      (all_fit-add_delimiter d (v ∷ ws) h.1)
