-- ===== src/Search/Purge.antt =====
-- What a purge does to the trie and to the cache.
use collaborative_doc.Prelude.{
  ℕ, zero, suc, ◌<◌, ◌≡◌, refl, true, Option, none, some, inl, inr, [], ◌∷◌, arith, ltb, ◌==◌,
  ==_iff, Text, text_eq_refl, Option-cases, Bool-cases,
}
use collaborative_doc.Cache.{Cache}
use collaborative_doc.Cache.View.{
  IsValid, cached, cached-cache_invalidate, cache_invalidate-IsValid,
}
use collaborative_doc.Trie.{Trie, null, node, for_each, find_record, trie_char_set_size}
use collaborative_doc.Trie.Lookup.{find_record-null, is_ascii}
use collaborative_doc.Search.{FileRecord, kept, forget, purge_trie, purge_cache}

-- A loop that keeps a predicate, and one whose round `k` establishes another.
pub for_each-keeps {ℓ κ} :
    {S : Type ℓ} (P : S → Type κ) (n : ℕ) (f : ℕ → S → S)
    → ((i : ℕ) (s : S) → P s → P (f i s))
    → (s : S) → P s
    → P (for_each n f s)
unfolding for_each
for_each-keeps P zero f keep s h = h
for_each-keeps P (suc n) f keep s h = keep n (for_each n f s) (for_each-keeps P n f keep s h)

pub for_each-reaches {ℓ κ μ} :
    {S : Type ℓ} (P : S → Type κ) (Q : S → Type μ) (n : ℕ) (f : ℕ → S → S) (k : ℕ)
    → ((i : ℕ) (s : S) → P s → P (f i s))
    → ((i : ℕ) (s : S) → P s → Q s → Q (f i s))
    → ((s : S) → P s → Q (f k s))
    → (s : S) → P s
    → k < n
    → Q (for_each n f s)
unfolding for_each
for_each-reaches P Q zero f k keep stay make s h l = absurd (omega arith)
for_each-reaches P Q (suc n) f k keep stay make s h l =
    let before = for_each-keeps P n f keep s h in
    elim (Bool-cases (k == n)) [
      | inl y ↦ rw (← (==_iff k n).0 y) (make (for_each k f s) (for_each-keeps P k f keep s h))
      | inr m ↦
          stay n (for_each n f s) before
            (for_each-reaches P Q n f k keep stay make s h (ground (arith, m)))
    ]

-- A valid cache that shows no name under another index than `c` does.
pub record Shrinks (c c' : Cache) : Type 0 where
  pub valid : IsValid c'
  pub sub : (q : Text) (i : ℕ) → cached q c' ≡ some i → cached q c ≡ some i

Shrinks-trans : {a b c : Cache} → Shrinks a b → Shrinks b c → Shrinks a c
Shrinks-trans h k = record { valid = k.valid; sub = λ q i e. h.sub q i (k.sub q i e) }

Shrinks-none : {a b : Cache} (q : Text) → Shrinks a b → cached q a ≡ none → cached q b ≡ none
Shrinks-none {a} {b} q h e = elim (Option-cases (cached q b)) [
  | inl n ↦ n
  | inr (i, y) ↦ cc (e, h.sub q i y)
]

module _ (dead : ℕ) where
  -- A purge takes exactly the records on the dead server out of the trie.
  pub find_record-purge_trie :
      (s : Text) (t : Trie FileRecord)
      → find_record s (purge_trie dead t) ≡ kept dead (find_record s t)
  unfolding find_record purge_trie
  find_record-purge_trie [] null = refl
  find_record-purge_trie [] (node info below) = refl
  find_record-purge_trie (c ∷ s) null = rw (find_record-null (c ∷ s))
  find_record-purge_trie (c ∷ s) (node info below) = elim (Bool-cases (ltb c 128)) [
    | inl y ↦ rw y (find_record-purge_trie s (below c))
    | inr n ↦ rw n (find_record-purge_trie s (node info below))
  ]

  forget-Shrinks :
      (info : Option FileRecord) (c : Cache) → IsValid c → Shrinks c (forget dead info c)
  forget-Shrinks none c v = record { valid = v; sub = λ q i e. e }
  forget-Shrinks (some r) c v = elim (Bool-cases (r.ss_index == dead)) [
    | inl y ↦ rw y (record {
      valid = cache_invalidate-IsValid r.filename c v;
      sub = λ q i e. ground (arith, cached-cache_invalidate r.filename q c v);
    })
    | inr n ↦ rw n (record { valid = v; sub = λ q i e. e })
  ]

  pub purge_cache-Shrinks :
      (t : Trie FileRecord) (c : Cache) → IsValid c → Shrinks c (purge_cache dead t c)
  unfolding purge_cache
  purge_cache-Shrinks null c v = record { valid = v; sub = λ q i e. e }
  purge_cache-Shrinks (node info below) c v =
      for_each-keeps (Shrinks c) trie_char_set_size (λ i. purge_cache dead (below i))
        (λ i s h. Shrinks-trans h (purge_cache-Shrinks (below i) s h.valid)) (forget dead info c)
        (forget-Shrinks info c v)

  -- After a purge of a valid cache, a name whose ASCII path leads to a record on the dead server
  -- is not cached.
  pub cached-purge_cache :
      (s : Text) (t : Trie FileRecord) (r : FileRecord) (c : Cache)
      → is_ascii s ≡ true
      → IsValid c
      → find_record s t ≡ some r
      → r.ss_index ≡ dead
      → cached r.filename (purge_cache dead t c) ≡ none
  unfolding find_record purge_cache is_ascii
  cached-purge_cache s null r c a v h d = cc (h, find_record-null {A = FileRecord} s)
  cached-purge_cache [] (node info below) r c a v h d =
      let hidden : cached r.filename (forget dead info c) ≡ none = rw h (
        rw ((==_iff r.ss_index dead).1 d) (
          ground
            (arith, cached-cache_invalidate r.filename r.filename c v, text_eq_refl r.filename))) in
      (for_each-keeps (λ c'. IsValid c' × (cached r.filename c' ≡ none)) trie_char_set_size
        (λ i. purge_cache dead (below i))
        (λ i s h'.
          let k = purge_cache-Shrinks (below i) s h'.0 in (k.valid, Shrinks-none r.filename k h'.1))
        (forget dead info c) ((forget-Shrinks info c v).valid, hidden)).1
  cached-purge_cache (x ∷ s) (node info below) r c a v h d =
      let valid : x < 128 = ground arith in
      let test : ltb x 128 ≡ true = ground arith in
      let below-found : find_record s (below x) ≡ some r = rw test at h in
      for_each-reaches IsValid (λ c'. cached r.filename c' ≡ none) trie_char_set_size
        (λ i. purge_cache dead (below i)) x (λ i s' h'. (purge_cache-Shrinks (below i) s' h').valid)
        (λ i s' h' q. Shrinks-none r.filename (purge_cache-Shrinks (below i) s' h') q)
        (λ s' h'. cached-purge_cache s (below x) r s' (ground arith) h' below-found d)
        (forget dead info c) (forget-Shrinks info c v).valid valid
