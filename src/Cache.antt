-- ===== src/Cache.antt =====
-- The file cache of the name server: src/name_server/cache.c and include/cache.h.
-- The array is a list of 16 entries. What `time(NULL)` returns is an argument of each operation,
-- one for each call. An operation is one critical section of `cache_mutex`.
pub mod View
pub mod Lru
use collaborative_doc.Prelude.{
  ℕ, zero, suc, ◌+◌, ◌-◌, Bool, true, false, ◌&&◌, Option, none, some, List, [], ◌∷◌, ltb,
  if◌then◌else◌, Text, text_eq, strncpy, find_index, modify, set, get_elem?, replicate,
}

abbrev pub cache_size : ℕ
cache_size = 16

abbrev pub max_filename : ℕ
max_filename = 256

pub record CacheEntry : Type 0 where
  pub filename : Text
  pub ss_index : ℕ
  pub is_valid : Bool
  pub last_used_time : ℕ

abbrev pub Cache : Type 0
Cache = List CacheEntry

-- `memset(cache, 0, sizeof(cache))`
abbrev pub init_cache : Cache
init_cache =
    replicate cache_size
      (record { filename = []; ss_index = 0; is_valid = false; last_used_time = 0 })

-- `cache[i].is_valid && strcmp(cache[i].filename, filename) == 0`
abbrev pub is_hit : Text → CacheEntry → Bool
is_hit filename e = e.is_valid && text_eq e.filename filename

abbrev index_at : Cache → ℕ → Option ℕ
index_at c i = elim (get_elem? c i) [ none ↦ none | some e ↦ some e.ss_index ]

-- A hit gets a new time stamp. `none` is the -1 of a miss.
unfoldable pub cache_lookup : Text → ℕ → Cache → Option ℕ × Cache
cache_lookup filename now c = elim (find_index (is_hit filename) c) [
  | none ↦ (none, c)
  | some i ↦
      let touched = modify c i (λ e. record e { last_used_time = now }) in
      (index_at touched i, touched)
]

-- The loop that chooses a slot, at index `i` with the running `lru_index` and `oldest_time`.
unfoldable pub choose_slot : ℕ → ℕ → ℕ → Cache → ℕ
choose_slot i lru_index oldest_time [] = lru_index
choose_slot i lru_index oldest_time (e ∷ es) =
    let older = ltb e.last_used_time oldest_time in
    let next =
      choose_slot (suc i) (if older then i else lru_index)
        (if older then e.last_used_time else oldest_time) es in
    if e.is_valid then next else i

-- What is written into the chosen slot.
abbrev pub new_entry : Text → ℕ → ℕ → CacheEntry
new_entry filename ss_index now = record {
  filename = strncpy (max_filename - 1) filename;
  ss_index = ss_index;
  is_valid = true;
  last_used_time = now;
}

-- `start` and `now` are the two readings of the clock.
unfoldable pub cache_add : Text → ℕ → ℕ → ℕ → Cache → Cache
cache_add filename ss_index start now c =
    set c (choose_slot 0 0 start c) (new_entry filename ss_index now)

-- Only the first entry of the name is dropped.
unfoldable pub cache_invalidate : Text → Cache → Cache
cache_invalidate filename c = elim (find_index (is_hit filename) c) [
  | none ↦ c
  | some i ↦ modify c i (λ e. record e { is_valid = false })
]
