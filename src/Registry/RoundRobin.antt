-- ===== src/Registry/RoundRobin.antt =====
-- The choice of a server for a new file: `get_ss_for_new_file` of
-- src/name_server/storage_manager.c.
use collaborative_doc.Prelude.{
  ℕ, zero, suc, ◌+◌, ◌-◌, ◌%◌, ◌≤◌, ◌<◌, ◌≡◌, ◌≢◌, ◌⊎◌, refl, true, false, Option, none, some, inl,
  inr, List, [], ◌∷◌, ◌==◌, arith, Bool-cases, ==_iff, ◌*◌, Option-cases,
}
use collaborative_doc.Search.{max_storage_servers}
use collaborative_doc.Registry.{
  Registry, StorageServerInfo, active_at, scan, find_next_active_ss, get_ss_for_new_file,
}

-- The loop finds the first active server in cyclic order, if there is one within its rounds.
scan-first :
    (rounds i start : ℕ) (servers : List StorageServerInfo) (k : ℕ)
    → i ≤ k
    → k < i + rounds
    → active_at ((start + k) % 10) servers ≡ true
    → (m : ℕ) × (i ≤ m)
      × (m ≤ k)
      × (scan rounds i start servers ≡ some ((start + m) % 10))
      × (active_at ((start + m) % 10) servers ≡ true)
unfolding scan
scan-first zero i start servers k a b h = absurd (omega arith)
scan-first (suc n) i start servers k a b h =
    elim (Bool-cases (active_at ((start + i) % 10) servers)) [
      | inl y ↦ (i, omega arith, a, rw y, y)
      | inr z ↦
          let ne : i ≢ k = λ e. cc (z, h, e) in
          let (m, p, q, r, s) =
            scan-first n (suc i) start servers k (omega arith) (omega arith) h in
          (m, omega arith, q, rw z r, s)
    ]

scan-some :
    (rounds i start : ℕ) (servers : List StorageServerInfo) (j : ℕ)
    → scan rounds i start servers ≡ some j
    → (active_at j servers ≡ true) × (j < max_storage_servers)
unfolding scan
scan-some zero i start servers j h = absurd (ground (arith, h))
scan-some (suc n) i start servers j h = elim (Bool-cases (active_at ((start + i) % 10) servers)) [
  | inl y ↦ let e : (start + i) % 10 ≡ j = ground (arith, h, y) in (rw (← e) y, omega arith)
  | inr z ↦ scan-some n (suc i) start servers j (rw z at h)
]

-- A server that is chosen is active, and the next choice starts behind it.
pub get_ss_for_new_file_active :
    (reg : Registry) (j : ℕ)
    → (get_ss_for_new_file reg).0 ≡ some j
    → (active_at j reg.servers ≡ true)
      × (j < max_storage_servers)
      × ((get_ss_for_new_file reg).1 ≡ record reg { next_ss_index = (j + 1) % 10 })
unfolding find_next_active_ss
get_ss_for_new_file_active reg j h = elim (Option-cases (scan 10 0 reg.next_ss_index reg.servers)) [
  | inl n ↦ absurd (ground (arith, h, n))
  | inr (k, e) ↦
      let same : k ≡ j = ground (arith, h, e) in
      let (active, range) = scan-some 10 0 reg.next_ss_index reg.servers k e in
      (rw (← same) active, rw (← same) range, rw (e, find_next_active_ss, same))
]

-- If no server is chosen, none of the ten slots holds an active one.
get_ss_for_new_file-none :
    (reg : Registry) (j : ℕ)
    → (get_ss_for_new_file reg).0 ≡ none
    → j < max_storage_servers
    → active_at j reg.servers ≡ false
unfolding find_next_active_ss
get_ss_for_new_file-none reg j h l = elim (Bool-cases (active_at j reg.servers)) [
  | inr n ↦ n
  | inl y ↦
      let d = (j + 10 * (reg.next_ss_index + 1) - reg.next_ss_index) % 10 in
      let target : (reg.next_ss_index + d) % 10 ≡ j = omega arith in
      let (m, p, q, r, s) =
        scan-first 10 0 reg.next_ss_index reg.servers d (omega arith) (omega arith) (rw target y) in
      absurd (ground (arith, h, r))
]

found :
    (reg : Registry) (k : ℕ)
    → scan 10 0 reg.next_ss_index reg.servers ≡ some k
    → get_ss_for_new_file reg ≡ (some k, record reg { next_ss_index = (k + 1) % 10 })
unfolding find_next_active_ss
found reg k e = rw (e, find_next_active_ss)

-- The servers that a number of calls choose, while no server comes or goes.
unfoldable pub picks : ℕ → Registry → List (Option ℕ)
picks zero reg = []
picks (suc n) reg = let (chosen, next) = get_ss_for_new_file reg in chosen ∷ picks n next

-- Whether a server is among the chosen ones.
abbrev pub IsChosen : ℕ → List (Option ℕ) → Type 0
IsChosen j [] = ⊥
IsChosen j (o ∷ os) = (o ≡ some j) ⊎ IsChosen j os

-- The calls until server `j` has its turn.
abbrev distance : ℕ → ℕ → ℕ
distance next j = (j + 10 - next) % 10

fair :
    (n : ℕ) (reg : Registry) (j : ℕ)
    → reg.next_ss_index < 10
    → j < 10
    → active_at j reg.servers ≡ true
    → distance reg.next_ss_index j < n
    → IsChosen j (picks n reg)
unfolding picks
fair zero reg j a b h l = absurd (omega arith)
fair (suc n) reg j a b h l =
    let d = distance reg.next_ss_index j in
    let target : (reg.next_ss_index + d) % 10 ≡ j = omega arith in
    let (m, p, q, r, s) =
      scan-first 10 0 reg.next_ss_index reg.servers d (omega arith) (omega arith) (rw target h) in
    let step = found reg ((reg.next_ss_index + m) % 10) r in
    elim (Bool-cases (m == d)) [
      | inl y ↦
          let e : (reg.next_ss_index + m) % 10 ≡ j = rw (← (==_iff m d).0 y) at target in
          inl (rw (step, e))
      | inr z ↦
          let next : ℕ = ((reg.next_ss_index + m) % 10 + 1) % 10 in
          let less : m < d = ground (arith, z) in
          let nearer : distance next j < n = omega arith in
          inr (rw step (fair n (record reg { next_ss_index = next }) j (omega arith) b h nearer))
    ]

-- Round robin: among any ten choices in a row, from a next index within the array and with no
-- server coming or going, every active server is chosen.
pub picks_fair :
    (reg : Registry) (j : ℕ)
    → reg.next_ss_index < max_storage_servers
    → j < max_storage_servers
    → active_at j reg.servers ≡ true
    → IsChosen j (picks max_storage_servers reg)
picks_fair reg j a b h = fair 10 reg j a b h (omega arith)

-- A choice moves only the index where the next one starts.
pub get_ss_for_new_file_keeps :
    (reg : Registry)
    → reg.next_ss_index < max_storage_servers
    → ((get_ss_for_new_file reg).1.servers ≡ reg.servers)
      × ((get_ss_for_new_file reg).1.next_ss_index < max_storage_servers)
unfolding find_next_active_ss
get_ss_for_new_file_keeps reg h = elim (Option-cases (scan 10 0 reg.next_ss_index reg.servers)) [
  | inl n ↦ rw (n, find_next_active_ss) (refl, h)
  | inr (k, e) ↦ rw (e, find_next_active_ss) (refl, omega arith)
]
