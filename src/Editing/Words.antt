-- ===== src/Editing/Words.antt =====
-- The insertion of words into one sentence, in `client_handler_thread` of
-- src/storage_server/main.c: the delimiter at the end of the sentence, and the loop that inserts.
use collaborative_doc.Prelude.{
  ℕ, zero, suc, ◌+◌, ◌≤◌, ◌<◌, ◌≡◌, ◌≢◌, ◌∙◌, refl, sym, ap, true, false, inl, inr, List, [], ◌∷◌,
  ◌++◌, Text, append-nil, arith, All, All-append, Bool-cases, length, take, drop, ltb, ◌==◌,
  but_last, if◌then◌else◌,
}
use collaborative_doc.Strings.Tokens.{Lacks, tokens, tokens_from, strtok_all_lem}
use collaborative_doc.Documents.{is_gap, is_sentence_end, last_char}
use collaborative_doc.Editing.{
  ends, bare_word, split_delimiter, max_word, with_delimiter, add_delimiter, insert_from,
  insert_words, is_space_or_tab, new_words,
}
use collaborative_doc.Editing.Joining.{IsWord}
use collaborative_doc.Editing.Shapes.{IsEnded, IsOpen}

-- Behind its position the loop inserts nothing.
insert_from-behind :
    (position word_idx : ℕ) (new ws : List Text)
    → word_idx < position
    → insert_from position word_idx new ws ≡ ws
unfolding insert_from
insert_from-behind position word_idx new [] h = refl
insert_from-behind position word_idx new (w ∷ ws) h =
    let e : (position == word_idx) ≡ false = ground arith in
    rw (e, insert_from-behind (position + 1) word_idx new ws (omega arith)) refl

insert_from-split :
    (ws : List Text) (position m : ℕ) (new : List Text)
    → m ≤ length ws
    → insert_from position (position + m) new ws ++ (if ltb (length ws) (suc m) then new else [])
      ≡ take m ws ++ new ++ drop m ws
unfolding insert_from
insert_from-split [] position zero new h = sym (append-nil new)
insert_from-split [] position (suc m) new h = absurd (omega arith)
insert_from-split (w ∷ ws) position zero new h =
    let e : (position == (position + 0)) ≡ true = ground arith in
    let f : ltb (length (w ∷ ws)) 1 ≡ false = ground arith in
    rw (e, insert_from-behind (position + 1) (position + 0) new ws (omega arith), f)
      (append-nil (new ++ w ∷ ws))
insert_from-split (w ∷ ws) position (suc m) new h =
    let e : (position == (position + suc m)) ≡ false = ground arith in
    let same : position + suc m ≡ position + 1 + m = omega arith in
    let f : ltb (length (w ∷ ws)) (suc (suc m)) ≡ ltb (length ws) (suc m) = ground arith in
    rw (e, f)
      (ap
          (λ k.
            w ∷ insert_from (position + 1) k new ws
            ++ (if ltb (length ws) (suc m) then new else []))
          same
        ∙ ap (◌∷◌ w) (insert_from-split ws (position + 1) m new (omega arith)))

-- The word that is asked for is the first of the new ones.
pub insert_words-split :
    (m : ℕ) (new ws : List Text)
    → m ≤ length ws
    → insert_words (suc m) new ws ≡ take m ws ++ new ++ drop m ws
insert_words-split m new ws h =
    let same : 1 + m ≡ suc m = omega arith in
    ap (λ k. insert_from 1 k new ws ++ (if ltb (length ws) (suc m) then new else [])) (sym same)
    ∙ insert_from-split ws 1 m new h

-- The delimiter goes to the last word, whatever stands before.
pub add_delimiter-append :
    (d : ℕ) (xs ws : List Text) → ws ≢ [] → add_delimiter d (xs ++ ws) ≡ xs ++ add_delimiter d ws
unfolding add_delimiter
add_delimiter-append d [] ws h = refl
add_delimiter-append d (x ∷ []) [] h = absurd (h refl)
add_delimiter-append d (x ∷ []) (w ∷ ws) h = refl
add_delimiter-append d (x ∷ y ∷ xs) ws h = ap (◌∷◌ x) (add_delimiter-append d (y ∷ xs) ws h)

pub add_delimiter_none : (ws : List Text) → add_delimiter 0 ws ≡ ws
unfolding add_delimiter
add_delimiter_none [] = refl
add_delimiter_none (w ∷ []) = refl
add_delimiter_none (w ∷ v ∷ ws) = ap (◌∷◌ w) (add_delimiter_none (v ∷ ws))

last_char-append : (w : Text) (d : ℕ) → last_char (w ++ d ∷ []) ≡ d
last_char-append [] d = refl
last_char-append (c ∷ []) d = refl
last_char-append (c ∷ e ∷ w) d = last_char-append (e ∷ w) d

-- The words have room for the delimiter behind them.
abbrev pub IsShort : Text → Type 0
IsShort w = ltb (length w) max_word ≡ true

with_delimiter-short : (d : ℕ) (w : Text) → IsShort w → with_delimiter d w ≡ w ++ d ∷ []
with_delimiter-short d w h = rw h refl

not_zero : (d : ℕ) → is_sentence_end d ≡ true → (d == 0) ≡ false
not_zero d h = ground arith

not_gap : (d : ℕ) → is_sentence_end d ≡ true → is_gap d ≡ false
not_gap d h = ground arith

-- With a delimiter the sentence is ended.
pub add_delimiter-IsEnded :
    (d : ℕ) (ws : List Text)
    → ws ≢ []
    → is_sentence_end d ≡ true
    → IsOpen ws
    → All IsShort ws
    → IsEnded (add_delimiter d ws)
unfolding add_delimiter
add_delimiter-IsEnded d [] ne h k l = absurd (ne refl)
add_delimiter-IsEnded d (w ∷ []) ne h k l =
    rw (not_zero d h, with_delimiter-short d w l.0, last_char-append w d) h
add_delimiter-IsEnded d (w ∷ v ∷ []) ne h k l =
    (k.0, add_delimiter-IsEnded d (v ∷ []) (λ e. absurd (cc e)) h k.1 l.1)
add_delimiter-IsEnded d (w ∷ v ∷ u ∷ ws) ne h k l =
    (k.0, add_delimiter-IsEnded d (v ∷ u ∷ ws) (λ e. absurd (cc e)) h k.1 l.1)

snoc-IsWord : (w : Text) (d : ℕ) → is_gap d ≡ false → IsWord w → IsWord (w ++ d ∷ [])
snoc-IsWord [] d h k = absurd (k.0 refl)
snoc-IsWord (c ∷ w) d h k =
    (λ e. absurd (cc e), All-append (λ x. is_gap x ≡ false) (c ∷ w) (d ∷ []) k.1 (h, tt))

pub add_delimiter-IsWord :
    (d : ℕ) (ws : List Text)
    → is_sentence_end d ≡ true
    → All IsWord ws
    → All IsShort ws
    → All IsWord (add_delimiter d ws)
unfolding add_delimiter
add_delimiter-IsWord d [] h k l = tt
add_delimiter-IsWord d (w ∷ []) h k l =
    rw (not_zero d h, with_delimiter-short d w l.0) (snoc-IsWord w d (not_gap d h) k.0, tt)
add_delimiter-IsWord d (w ∷ v ∷ ws) h k l = (k.0, add_delimiter-IsWord d (v ∷ ws) h k.1 l.1)

pub add_delimiter_ne : (d : ℕ) (ws : List Text) → ws ≢ [] → add_delimiter d ws ≢ []
unfolding add_delimiter
add_delimiter_ne d [] h e = h refl
add_delimiter_ne d (w ∷ []) h e = absurd (cc e)
add_delimiter_ne d (w ∷ v ∷ ws) h e = absurd (cc e)

pub length-add_delimiter : (d : ℕ) (ws : List Text) → length (add_delimiter d ws) ≡ length ws
unfolding add_delimiter
length-add_delimiter d [] = refl
length-add_delimiter d (w ∷ []) = refl
length-add_delimiter d (w ∷ v ∷ ws) = ap suc (length-add_delimiter d (v ∷ ws))

-- An open sentence has no delimiter to split off.
pub split_delimiter-IsOpen : (x : List Text) → IsOpen x → split_delimiter x ≡ (x, 0)
unfolding split_delimiter
split_delimiter-IsOpen [] h = refl
split_delimiter-IsOpen (w ∷ []) h = rw h.0 refl
split_delimiter-IsOpen (w ∷ v ∷ ws) h = rw (split_delimiter-IsOpen (v ∷ ws) h.1) refl

pub split_delimiter-IsEnded :
    (x : List Text) → IsEnded x → is_sentence_end (split_delimiter x).1 ≡ true
unfolding split_delimiter
split_delimiter-IsEnded [] h = absurd h
split_delimiter-IsEnded (w ∷ []) h = rw h h
split_delimiter-IsEnded (w ∷ v ∷ ws) h = split_delimiter-IsEnded (v ∷ ws) h.1

length-bare_word : (w : Text) → length (bare_word w) ≤ 1
length-bare_word [] = omega arith
length-bare_word (c ∷ w) = omega arith

pub length-split_delimiter : (x : List Text) → length (split_delimiter x).0 ≤ length x
unfolding split_delimiter
length-split_delimiter [] = omega arith
length-split_delimiter (w ∷ []) = elim (Bool-cases (ends w)) [
  | inl y ↦ rw y (length-bare_word (but_last w))
  | inr n ↦ rw n (omega arith)
]
length-split_delimiter (w ∷ v ∷ ws) = omega (arith, length-split_delimiter (v ∷ ws))

Lacks-but_last : (w : Text) → Lacks is_gap w → Lacks is_gap (but_last w)
Lacks-but_last [] h = tt
Lacks-but_last (c ∷ []) h = tt
Lacks-but_last (c ∷ d ∷ w) h = (h.0, Lacks-but_last (d ∷ w) h.1)

bare_word-IsWord : (w : Text) → Lacks is_gap w → All IsWord (bare_word w)
bare_word-IsWord [] h = tt
bare_word-IsWord (c ∷ w) h = (((λ e. absurd (cc e)), h), tt)

pub split_delimiter-IsWord : (x : List Text) → All IsWord x → All IsWord (split_delimiter x).0
unfolding split_delimiter
split_delimiter-IsWord [] h = tt
split_delimiter-IsWord (w ∷ []) h = elim (Bool-cases (ends w)) [
  | inl y ↦ rw y (bare_word-IsWord (but_last w) (Lacks-but_last w h.0.1))
  | inr n ↦ rw n h
]
split_delimiter-IsWord (w ∷ v ∷ ws) h = (h.0, split_delimiter-IsWord (v ∷ ws) h.1)

-- A line that the client sends has no newline: the new words are its words.
tokens_from_same :
    (s current : Text)
    → Lacks (λ c. c == b'\n') s
    → tokens_from is_space_or_tab current s ≡ tokens_from is_gap current s
unfolding tokens_from
tokens_from_same [] current h = refl
tokens_from_same (c ∷ s) current h =
    let same : is_gap c ≡ is_space_or_tab c = ground (arith, h.0) in
    elim (Bool-cases (is_space_or_tab c)) [
      | inl y ↦ rw (same, y, tokens_from_same s [] h.1) refl
      | inr n ↦ rw (same, n, tokens_from_same s (current ++ c ∷ []) h.1) refl
    ]

pub new_words-tokens :
    (new : Text) → Lacks (λ c. c == b'\n') new → new_words new ≡ tokens is_gap new
new_words-tokens new h =
    strtok_all_lem is_space_or_tab (suc (length new)) new (omega arith) ∙ tokens_from_same new [] h
