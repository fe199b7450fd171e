-- ===== src/Trie/Lookup.antt =====
-- The trie as a map: its keys are the names with the invalid bytes left out.
use collaborative_doc.Prelude.{
  ◌≡◌, refl, ap, Bool, true, Option, none, inl, inr, [], ◌∷◌, ltb, ◌==◌, if◌then◌else◌, arith, Text,
  text_eq, Bool-cases, ==_iff, ◌&&◌,
}
use collaborative_doc.Trie.{
  Trie, node, null_node, create_node, update, trie_char_set_size, file_info, children, find_record,
  find_strict, write_record,
}

-- The path that a name spells.
unfoldable pub key : Text → Text
key [] = []
key (c ∷ s) = let rest = key s in if ltb c trie_char_set_size then c ∷ rest else rest

-- Every byte is a character of the trie.
unfoldable pub is_ascii : Text → Bool
is_ascii [] = true
is_ascii (c ∷ s) = ltb c trie_char_set_size && is_ascii s

pub key_of_ascii : (s : Text) → is_ascii s ≡ true → key s ≡ s
unfolding key is_ascii
key_of_ascii [] h = refl
key_of_ascii (c ∷ s) h = ground (arith, key_of_ascii s)

pub key-is_ascii : (s : Text) → is_ascii (key s) ≡ true
unfolding key is_ascii
key-is_ascii [] = refl
key-is_ascii (c ∷ s) = ground (arith, key-is_ascii s)

module _ {ℓ} {A : Type ℓ} where
  pub find_record-null : (s : Text) → find_record s (null_node {A = A}) ≡ none
  unfolding find_record
  find_record-null [] = refl
  find_record-null (c ∷ s) = elim (Bool-cases (ltb c 128)) [
    | inl y ↦ rw y (find_record-null s)
    | inr n ↦ rw n (find_record-null s)
  ]

  pub find_record-key : (s : Text) (t : Trie A) → find_record s t ≡ find_record (key s) t
  unfolding find_record key
  find_record-key [] t = refl
  find_record-key (c ∷ s) t = elim (Bool-cases (ltb c 128)) [
    | inl y ↦ rw (y, find_record, y) (find_record-key s (children t c))
    | inr n ↦ rw n (find_record-key s t)
  ]

  write_record-key :
      (s : Text) (r : Option A) (t : Trie A) → write_record s r t ≡ write_record (key s) r t
  unfolding write_record key
  write_record-key [] r t = refl
  write_record-key (c ∷ s) r t = elim (Bool-cases (ltb c 128)) [
    | inl y ↦
        rw (y, write_record, y)
          (ap (λ b. node (file_info t) (update (children t) c b))
            (write_record-key s r (children t c)))
    | inr n ↦ rw n (write_record-key s r t)
  ]

  find_after_write :
      (s q : Text) (r : Option A) (t : Trie A)
      → is_ascii s ≡ true
      → is_ascii q ≡ true
      → find_record q (write_record s r t) ≡ (if text_eq s q then r else find_record q t)
  unfolding find_record write_record is_ascii text_eq
  find_after_write [] [] r t h k = refl
  find_after_write [] (d ∷ q) r t h k = ground arith
  find_after_write (c ∷ s) [] r t h k = ground arith
  find_after_write (c ∷ s) (d ∷ q) r t h k =
      let hc : ltb c 128 ≡ true = ground arith in
      let hd : ltb d 128 ≡ true = ground arith in
      rw (hc, hd)
        (elim (Bool-cases (d == c)) [
          | inl y ↦
              let e : c ≡ d = ground arith in
              rw y (
                rw ((==_iff c d).1 e, ← e)
                  (find_after_write s q r (children t c) (ground arith) (ground arith)))
          | inr n ↦ ground (arith, n)
        ])

  -- A write to the trie is read back under every name that spells the same path, and nowhere
  -- else.
  pub find_record-write_record :
      (s q : Text) (r : Option A) (t : Trie A)
      → find_record q (write_record s r t)
        ≡ (if text_eq (key s) (key q) then r else find_record q t)
  find_record-write_record s q r t =
      rw (write_record-key s r t, find_record-key q (write_record (key s) r t), find_record-key q t)
        (find_after_write (key s) (key q) r t (key-is_ascii s) (key-is_ascii q))

  -- The strict walk finds what the skipping walk finds under an ASCII name, and nothing under any
  -- other.
  pub find_strict_lem :
      (s : Text) (t : Trie A) → find_strict s t ≡ (if is_ascii s then find_record s t else none)
  unfolding find_strict find_record is_ascii
  find_strict_lem [] t = refl
  find_strict_lem (c ∷ s) t = elim (Bool-cases (ltb c 128)) [
    | inl y ↦ rw y (find_strict_lem s (children t c))
    | inr n ↦ rw n refl
  ]

  pub find_record-create_node : (s : Text) → find_record s (create_node {A = A}) ≡ none
  unfolding find_record
  find_record-create_node [] = refl
  find_record-create_node (c ∷ s) = elim (Bool-cases (ltb c 128)) [
    | inl y ↦ rw y (find_record-null s)
    | inr n ↦ rw n (find_record-create_node s)
  ]
