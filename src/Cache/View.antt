-- ===== src/Cache/View.antt =====
-- The cache as a partial map from names to server indices.
use collaborative_doc.Prelude.{
  ℕ, zero, suc, ◌≤◌, ◌<◌, ◌≡◌, refl, sym, true, false, Option, none, some, inl, inr,
  get_elem?-set_self, take, text_eq_sound, get_elem?-lt, get_elem?-of_lt, modify-eq-set, ◌∙◌, [],
  ◌∷◌, arith, if◌then◌else◌, Text, text_eq, text_eq_iff, find_index, find_index-some,
  find_index-none, set, get_elem?, length, length-set, count, count-set, Option-cases, Bool-cases,
  take_of_length-le, ◌⊎◌,
}
use collaborative_doc.Cache.Lru.{choose_slot-lt}
use collaborative_doc.Cache.{
  Cache, CacheEntry, index_at, is_hit, new_entry, cache_lookup, cache_add, cache_invalidate,
  choose_slot, cache_size, init_cache,
}

-- The index under which a name is cached.
unfoldable pub cached : Text → Cache → Option ℕ
cached name [] = none
cached name (e ∷ es) = if is_hit name e then some e.ss_index else cached name es

-- No name is cached twice, and the array has its 16 slots.
pub record IsValid (c : Cache) : Type 0 where
  pub size : length c ≡ cache_size
  pub unique : (name : Text) → count (is_hit name) c ≤ 1

pub init-IsValid : IsValid init_cache
init-IsValid = record { size = refl; unique = λ name. omega arith }

pub cached-init : (q : Text) → cached q init_cache ≡ none
unfolding cached
cached-init q = refl

module _ (q : Text) where
  cached-count : (c : Cache) → count (is_hit q) c ≡ 0 → cached q c ≡ none
  unfolding cached
  cached-count [] h = refl
  cached-count (e ∷ es) h = ground (arith, cached-count es)

  count-cached : (c : Cache) → cached q c ≡ none → count (is_hit q) c ≡ 0
  unfolding cached
  count-cached [] h = refl
  count-cached (e ∷ es) h = ground (arith, count-cached es)

  cached-at :
      (c : Cache) (i : ℕ)
      → find_index (is_hit q) c ≡ some i
      → (e : CacheEntry) × (get_elem? c i ≡ some e) × (cached q c ≡ some e.ss_index)
  unfolding cached find_index
  cached-at [] i h = absurd (ground arith)
  cached-at (e ∷ es) zero h = elim (Bool-cases (is_hit q e)) [
    | inl y ↦ (e, refl, rw y)
    | inr n ↦ absurd (ground (arith, h))
  ]
  cached-at (e ∷ es) (suc i) h =
      let (x, g, k) = cached-at es i (ground arith) in
      let n : is_hit q e ≡ false = ground arith in (x, g, rw n k)

  module _ (e' : CacheEntry) where
    -- A write over an entry of another name leaves the view of `q`.
    cached-set_other :
        (c : Cache) (i : ℕ) (e : CacheEntry)
        → get_elem? c i ≡ some e
        → is_hit q e ≡ false
        → is_hit q e' ≡ false
        → cached q (set c i e') ≡ cached q c
    unfolding cached
    cached-set_other [] i e g h k = refl
    cached-set_other (x ∷ c) zero e g h k = ground arith
    cached-set_other (x ∷ c) (suc i) e g h k = ground (arith, cached-set_other c i e g h k)

    cached-set_same :
        (c : Cache) (i : ℕ) (e : CacheEntry)
        → get_elem? c i ≡ some e
        → is_hit q e' ≡ is_hit q e
        → e'.ss_index ≡ e.ss_index
        → cached q (set c i e') ≡ cached q c
    unfolding cached
    cached-set_same [] i e g h k = refl
    cached-set_same (x ∷ c) zero e g h k = ground arith
    cached-set_same (x ∷ c) (suc i) e g h k = ground (arith, cached-set_same c i e g h k)

    cached-set_new :
        (c : Cache) (i : ℕ)
        → i < length c
        → cached q c ≡ none
        → is_hit q e' ≡ true
        → cached q (set c i e') ≡ some e'.ss_index
    unfolding cached
    cached-set_new [] i l h k = absurd (omega arith)
    cached-set_new (x ∷ c) zero l h k = ground arith
    cached-set_new (x ∷ c) (suc i) l h k = ground (arith, cached-set_new c i)

    -- A write over the entry of `q` hides `q`.
    cached-set_drop :
        (c : Cache) (i : ℕ) (e : CacheEntry)
        → get_elem? c i ≡ some e
        → count (is_hit q) c ≤ 1
        → is_hit q e ≡ true
        → is_hit q e' ≡ false
        → cached q (set c i e') ≡ none
    cached-set_drop c i e g u h k =
        cached-count (set c i e') (ground (arith, count-set (is_hit q) c i e' e g))

-- A lookup answers with the view.
pub cache_lookup-cached :
    (name : Text) (now : ℕ) (c : Cache) → (cache_lookup name now c).0 ≡ cached name c
unfolding cache_lookup
cache_lookup-cached name now c = elim (Option-cases (find_index (is_hit name) c)) [
  | inl e ↦
      rw (e, cache_lookup) (ground (arith, cached-count name c (find_index-none (is_hit name) c e)))
  | inr (i, e) ↦
      let (x, g, v) = cached-at name c i e in
      let f = λ (y : CacheEntry). record y { last_used_time = now } in
      rw (e, cache_lookup, modify-eq-set c i f x g)
        (rw (get_elem?-set_self c i (f x) (get_elem?-lt c i x g), index_at) (sym v))
]

-- A lookup changes time stamps only.
cache_lookup-set :
    (name : Text) (now : ℕ) (c : Cache)
    → ((cache_lookup name now c).1 ≡ c)
      ⊎ ((i : ℕ) × (x : CacheEntry) × (get_elem? c i ≡ some x)
          × ((cache_lookup name now c).1 ≡ set c i (record x { last_used_time = now })))
unfolding cache_lookup
cache_lookup-set name now c = elim (Option-cases (find_index (is_hit name) c)) [
  | inl e ↦ inl (rw (e, cache_lookup))
  | inr (i, e) ↦
      let (x, g, v) = cached-at name c i e in
      let f = λ (y : CacheEntry). record y { last_used_time = now } in
      inr (i, x, g, rw (e, cache_lookup, modify-eq-set c i f x g))
]

pub cached-cache_lookup :
    (name q : Text) (now : ℕ) (c : Cache) → cached q (cache_lookup name now c).1 ≡ cached q c
cached-cache_lookup name q now c = elim (cache_lookup-set name now c) [
  | inl e ↦ rw e
  | inr (i, x, g, e) ↦
      rw e (cached-set_same q (record x { last_used_time = now }) c i x g refl refl)
]

pub cache_lookup-IsValid :
    (name : Text) (now : ℕ) (c : Cache) → IsValid c → IsValid (cache_lookup name now c).1
cache_lookup-IsValid name now c v = elim (cache_lookup-set name now c) [
  | inl e ↦ rw e v
  | inr (i, x, g, e) ↦
      let x' = record x { last_used_time = now } in
      rw e (record {
        size = length-set c i x' ∙ v.size;
        unique = λ q. omega (arith, v.unique q, count-set (is_hit q) c i x' x g);
      })
]

cache_invalidate-set :
    (name : Text) (c : Cache)
    → ((cache_invalidate name c ≡ c) × (cached name c ≡ none))
      ⊎ ((i : ℕ) × (x : CacheEntry) × (get_elem? c i ≡ some x)
          × (is_hit name x ≡ true)
          × (cache_invalidate name c ≡ set c i (record x { is_valid = false })))
unfolding cache_invalidate
cache_invalidate-set name c = elim (Option-cases (find_index (is_hit name) c)) [
  | inl e ↦ inl (rw (e, cache_invalidate), cached-count name c (find_index-none (is_hit name) c e))
  | inr (i, e) ↦
      let (l, (x, g, h)) = find_index-some (is_hit name) c i e in
      let f = λ (y : CacheEntry). record y { is_valid = false } in
      inr (i, x, g, h, rw (e, cache_invalidate, modify-eq-set c i f x g))
]

-- In a valid cache, dropping a name hides it and leaves every other name.
pub cached-cache_invalidate :
    (name q : Text) (c : Cache)
    → IsValid c
    → cached q (cache_invalidate name c) ≡ (if text_eq name q then none else cached q c)
cached-cache_invalidate name q c v = elim (cache_invalidate-set name c) [
  | inl (e, h) ↦ rw e (ground (arith, text_eq_iff name q, h))
  | inr (i, x, g, h, e) ↦ rw e (elim (Bool-cases (is_hit q x)) [
    | inl y ↦
        rw (cached-set_drop q (record x { is_valid = false }) c i x g (v.unique q) y refl) (
          ground (arith, text_eq_iff name q, text_eq_iff x.filename q, text_eq_iff x.filename name))
    | inr n ↦
        rw (cached-set_other q (record x { is_valid = false }) c i x g n refl) (
          ground (arith, text_eq_iff name q, text_eq_iff x.filename q, text_eq_iff x.filename name))
  ])
]

pub cache_invalidate-IsValid :
    (name : Text) (c : Cache) → IsValid c → IsValid (cache_invalidate name c)
cache_invalidate-IsValid name c v = elim (cache_invalidate-set name c) [
  | inl (e, h) ↦ rw e v
  | inr (i, x, g, h, e) ↦
      let x' = record x { is_valid = false } in
      rw e (record {
        size = length-set c i x' ∙ v.size;
        unique = λ q. ground (arith, v.unique q, count-set (is_hit q) c i x' x g);
      })
]

-- Adding a name that is not cached: it is found from then on, the name whose slot was taken is
-- gone, and every other name is as before.
module _ (name : Text) (ss_index start now : ℕ) (c : Cache) where
  abbrev pub slot : ℕ
  slot = choose_slot 0 0 start c

  -- In a valid cache, storing a name of at most 255 bytes that is not cached makes it cached with
  -- its server and loses at most the name of the overwritten entry.
  pub cached-cache_add :
      (q : Text)
      → IsValid c
      → length name ≤ 255
      → cached name c ≡ none
      → (victim : CacheEntry) × (get_elem? c slot ≡ some victim)
        × (cached q (cache_add name ss_index start now c) ≡ (
            if text_eq name q then some ss_index else if is_hit q victim then none else cached q c))
  unfolding cache_add
  cached-cache_add q v short fresh =
      let (x, g) = get_elem?-of_lt c slot (choose_slot-lt start c (omega (arith, v.size))) in
      let x' = new_entry name ss_index now in
      let t : take 255 name ≡ name = take_of_length-le 255 name short in
      (
        x,
        g,
        elim (Bool-cases (text_eq name q)) [
          | inl y ↦
              let e = text_eq_sound name q y in
              rw (y, cached-set_new q x' c slot (get_elem?-lt c slot x g) (rw (← e) fresh) (rw t y))
          | inr n ↦ elim (Bool-cases (is_hit q x)) [
            | inl y' ↦ rw (n, y', cached-set_drop q x' c slot x g (v.unique q) y' (rw t n))
            | inr n' ↦ rw (n, n', cached-set_other q x' c slot x g n' (rw t n))
          ]
        ],
      )

  pub cache_add-IsValid :
      IsValid c
      → length name ≤ 255
      → cached name c ≡ none
      → IsValid (cache_add name ss_index start now c)
  unfolding cache_add
  cache_add-IsValid v short fresh =
      let (x, g) = get_elem?-of_lt c slot (choose_slot-lt start c (omega (arith, v.size))) in
      let x' = new_entry name ss_index now in
      let t : take 255 name ≡ name = take_of_length-le 255 name short in
      record {
        size = length-set c slot x' ∙ v.size;
        unique = λ q. ground (
          arith,
          v.unique q,
          count-cached name c fresh,
          count-set (is_hit q) c slot x' x g,
          text_eq_iff name q,
          t,
        );
      }
