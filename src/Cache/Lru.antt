-- ===== src/Cache/Lru.antt =====
-- Which slot `cache_add` writes.
use collaborative_doc.Prelude.{
  ℕ, zero, suc, ◌+◌, ◌≤◌, ◌<◌, ◌≡◌, refl, Bool, true, false, some, inl, inr, [], ◌∷◌, arith, ltb,
  if◌then◌else◌, Text, set, get_elem?, length, Bool-cases, ◌⊎◌, All, All-weaken, find_index,
}
use native.Mathlib.Nat.{le_trans, zero-add}
use collaborative_doc.Cache.{Cache, CacheEntry, new_entry, cache_add, choose_slot}

pub choose_slot-range :
    (i lru oldest : ℕ) (c : Cache)
    → lru ≤ i
    → (choose_slot i lru oldest c ≡ lru)
      ⊎ ((i ≤ choose_slot i lru oldest c) × (choose_slot i lru oldest c < i + length c))
unfolding choose_slot
choose_slot-range i lru oldest [] h = inl refl
choose_slot-range i lru oldest (e ∷ es) h = ground (
  arith,
  choose_slot-range (suc i) i e.last_used_time es,
  choose_slot-range (suc i) lru oldest es,
)

pub choose_slot-lt : (oldest : ℕ) (c : Cache) → 0 < length c → choose_slot 0 0 oldest c < length c
choose_slot-lt oldest c h = ground (arith, choose_slot-range 0 0 oldest c)

abbrev Used : ℕ → CacheEntry → Type 0
Used t e = t ≤ e.last_used_time

module _ (i lru oldest : ℕ) (e : CacheEntry) (es : Cache) (valid : e.is_valid ≡ true) where
  choose_slot-older :
      e.last_used_time < oldest
      → choose_slot i lru oldest (e ∷ es) ≡ choose_slot (suc i) i e.last_used_time es
  unfolding choose_slot
  choose_slot-older h = ground arith

  choose_slot-newer :
      oldest ≤ e.last_used_time
      → choose_slot i lru oldest (e ∷ es) ≡ choose_slot (suc i) lru oldest es
  unfolding choose_slot
  choose_slot-newer h = ground arith

abbrev pub is_free : CacheEntry → Bool
is_free e = if e.is_valid then false else true

-- The running minimum of the loop over entries that are all in use.
choose_slot-min :
    (i lru oldest : ℕ) (c : Cache)
    → All (λ e. e.is_valid ≡ true) c
    → ((choose_slot i lru oldest c ≡ lru) × All (Used oldest) c)
      ⊎ ((j : ℕ) × (e : CacheEntry) × (choose_slot i lru oldest c ≡ i + j)
          × (get_elem? c j ≡ some e)
          × (e.last_used_time < oldest)
          × All (Used e.last_used_time) c)
choose_slot-min i lru oldest [] h = inl (unfold choose_slot in refl, tt)
choose_slot-min i lru oldest (e ∷ es) h = elim (Bool-cases (ltb e.last_used_time oldest)) [
  | inl y ↦
      let lt : e.last_used_time < oldest = ground arith in
      let step = choose_slot-older i lru oldest e es h.0 lt in
      elim (choose_slot-min (suc i) i e.last_used_time es h.1) [
        | inl (k, a) ↦ inr (0, e, omega (arith, step, k), refl, lt, (omega arith, a))
        | inr (j, x, k, g, l, a) ↦
            inr (suc j, x, omega (arith, step, k), g, omega arith, (omega arith, a))
      ]
  | inr n ↦
      let ge : oldest ≤ e.last_used_time = ground arith in
      let step = choose_slot-newer i lru oldest e es h.0 ge in
      elim (choose_slot-min (suc i) lru oldest es h.1) [
        | inl (k, a) ↦ inl (omega (arith, step, k), (ge, a))
        | inr (j, x, k, g, l, a) ↦ inr (suc j, x, omega (arith, step, k), g, l, (omega arith, a))
      ]
]

choose_slot-free :
    (k lru oldest : ℕ) (c : Cache) (i : ℕ)
    → find_index is_free c ≡ some i
    → choose_slot k lru oldest c ≡ k + i
unfolding choose_slot find_index
choose_slot-free k lru oldest [] i h = absurd (ground arith)
choose_slot-free k lru oldest (e ∷ es) zero h = ground (arith, h)
choose_slot-free k lru oldest (e ∷ es) (suc i) h =
    let older = ltb e.last_used_time oldest in
    ground (
      arith,
      h,
      choose_slot-free (suc k) (if older then k else lru)
          (if older then e.last_used_time else oldest) es i,
    )

-- In a cache with at least one slot, the entry that is overwritten when every slot is in use and
-- no time stamp lies in the future is one whose last use is the longest ago.
pub cache_add_lru :
    (name : Text) (ss_index start now : ℕ) (c : Cache)
    → 0 < length c
    → All (λ e. e.is_valid ≡ true) c
    → All (λ e. e.last_used_time ≤ start) c
    → (i : ℕ) × (victim : CacheEntry) × (get_elem? c i ≡ some victim)
      × All (λ e. victim.last_used_time ≤ e.last_used_time) c
      × (cache_add name ss_index start now c ≡ set c i (new_entry name ss_index now))
unfolding cache_add
cache_add_lru name ss_index start now [] l valid past = absurd (omega arith)
cache_add_lru name ss_index start now (e ∷ es) l valid past =
    elim (choose_slot-min 0 0 start (e ∷ es) valid) [
      | inl (k, a) ↦
          let weak = λ (x : CacheEntry) (h : start ≤ x.last_used_time). le_trans past.0 h in
          (0, e, refl, All-weaken weak (e ∷ es) a, rw k)
      | inr (j, x, k, g, l', a) ↦ (j, x, g, a, rw (k, zero-add))
    ]

-- While a slot of the cache is free, the first free one is taken.
cache_add_free :
    (name : Text) (ss_index start now : ℕ) (c : Cache) (i : ℕ)
    → find_index is_free c ≡ some i
    → cache_add name ss_index start now c ≡ set c i (new_entry name ss_index now)
unfolding cache_add
cache_add_free name ss_index start now c i h = rw (choose_slot-free 0 0 start c i h, zero-add)
