-- ===== src/Trie.antt =====
-- The trie that maps file names to records: `TrieNode` of include/search.h and the walks over it in
-- src/name_server/search.c. A null pointer is a constructor, the array of 128 child pointers is a
-- function on the index, and a write through a node's pointer rebuilds the path to that node.
-- A byte of 128 or more is a negative `char`, which the walks skip or reject.
pub mod Lookup
use collaborative_doc.Prelude.{
  ℕ, zero, suc, ◌≡◌, Bool, true, false, Option, none, some, List, [], ◌∷◌, ltb, ◌==◌, if◌then◌else◌,
  Text,
}

abbrev pub trie_char_set_size : ℕ
trie_char_set_size = 128

pub data Trie {ℓ} (A : Type ℓ) : Type ℓ where
  null : Trie A
  node : Option A → (ℕ → Trie A) → Trie A

-- `for (i = 0; i < n; i++) s = f(i, s);`
unfoldable pub for_each {ℓ} : {S : Type ℓ} → ℕ → (ℕ → S → S) → S → S
for_each zero f s = s
for_each (suc n) f s = f n (for_each n f s)

abbrev pub update {ℓ} : {A : Type ℓ} → (ℕ → A) → ℕ → A → ℕ → A
update f i a j = if j == i then a else f j

module _ {ℓ} {A : Type ℓ} where
  abbrev pub null_node : Trie A
  null_node = null

  -- `create_node()`
  abbrev pub create_node : Trie A
  create_node = node none (λ i. null)

  abbrev pub file_info : Trie A → Option A
  file_info null = none
  file_info (node info below) = info

  abbrev pub children : Trie A → ℕ → Trie A
  children null i = null
  children (node info below) i = below i

  -- The walk of `find_file_record`: it skips invalid bytes.
  unfoldable pub find_record : Text → Trie A → Option A
  find_record [] t = file_info t
  find_record (c ∷ s) t = find_record s (if ltb c trie_char_set_size then children t c else t)

  -- The walk of `search_delete_file` and `search_set_file_folder`: an invalid byte is "not found".
  unfoldable pub find_strict : Text → Trie A → Option A
  find_strict [] t = file_info t
  find_strict (c ∷ s) t =
      let next = find_strict s (children t c) in if ltb c trie_char_set_size then next else none

  -- The walk of `search_add_file`, which creates the nodes that are missing, and a write to
  -- `file_info` of the node where it ends.
  unfoldable pub write_record : Text → Option A → Trie A → Trie A
  write_record [] r t = node r (children t)
  write_record (c ∷ s) r t =
      let valid = ltb c trie_char_set_size in
      let below = write_record s r (if valid then children t c else t) in
      if valid then node (file_info t) (update (children t) c below) else below
