-- ===== src/Registry/Slots.antt =====
-- What a registration and a removal do to the slots of the registry.
use collaborative_doc.Prelude.{
  ℕ, ◌<◌, ◌≡◌, ◌≢◌, ◌⊎◌, Bool, true, false, none, some, inl, inr, List, ◌==◌, if◌then◌else◌, arith,
  Bool-cases, Option-cases, length, get_elem?, set, modify-eq-set, get_elem?-set_self,
  get_elem?-set_ne, find_index, find_index-some,
}
use collaborative_doc.Search.{max_storage_servers}
use collaborative_doc.Registry.{
  Registry, StorageServerInfo, SsRegistration, is_slot_free, registered, register_storage_server,
  active_at, get_ss_by_index, has_socket, clear_slot,
}

-- The array has its ten slots.
abbrev pub IsSized : Registry → Type 0
IsSized reg = length reg.servers ≡ max_storage_servers

pub server_at-active :
    (i : ℕ) (reg : Registry) (ss : StorageServerInfo)
    → get_ss_by_index i reg ≡ some ss
    → (active_at i reg.servers ≡ true) × (get_elem? reg.servers i ≡ some ss) × (ss.is_active ≡ true)
unfolding get_ss_by_index active_at
server_at-active i reg ss h = ground (arith, h)

-- A registration in a registry of ten slots, one of them free, fills a slot that was inactive,
-- whether or not its acknowledgement can be sent; every other slot is as before.
pub register_slot :
    (sock : ℕ) (p : SsRegistration) (ack_sent : Bool) (reg : Registry) (i : ℕ)
    → IsSized reg
    → find_index is_slot_free reg.servers ≡ some i
    → (active_at i reg.servers ≡ false)
      × (get_ss_by_index i (register_storage_server sock (some p) ack_sent reg).1
          ≡ some (registered sock p))
      × ((j : ℕ)
          → i ≢ j
          → get_ss_by_index j (register_storage_server sock (some p) ack_sent reg).1
            ≡ get_ss_by_index j reg)
unfolding register_storage_server active_at get_ss_by_index
register_slot sock p ack_sent reg i sized h =
    let (l, (x, g, f)) = find_index-some is_slot_free reg.servers i h in
    (
      ground (arith, g),
      rw (h, register_storage_server, get_elem?-set_self reg.servers i (registered sock p) l)
          (ground arith),
      λ j ne. rw (h, register_storage_server, get_elem?-set_ne reg.servers (registered sock p) ne),
    )

abbrev pub cleared : StorageServerInfo → StorageServerInfo
cleared ss = record ss { is_active = false; ss_socket_fd = none }

-- A removal finds no server, or it clears one slot, which was active.
pub clear_slot-cases :
    (sock : ℕ) (reg : Registry)
    → (clear_slot sock reg ≡ (none, reg))
      ⊎ ((i : ℕ) × (ss : StorageServerInfo) × (get_elem? reg.servers i ≡ some ss)
          × (ss.is_active ≡ true)
          × (clear_slot sock reg
              ≡ (some i, record reg { servers = set reg.servers i (cleared ss) })))
unfolding clear_slot
clear_slot-cases sock reg = elim (Option-cases (find_index (has_socket sock) reg.servers)) [
  | inl n ↦ inl (rw (n, clear_slot))
  | inr (i, e) ↦
      let (l, (x, g, p)) = find_index-some (has_socket sock) reg.servers i e in
      inr (i, x, g, ground (arith, p), rw (e, clear_slot, modify-eq-set reg.servers i cleared x g))
]

-- A write to one slot is seen in that slot and nowhere else.
pub active_at-set :
    (i j : ℕ) (ss : StorageServerInfo) (servers : List StorageServerInfo)
    → i < length servers
    → active_at j (set servers i ss) ≡ (if i == j then ss.is_active else active_at j servers)
unfolding active_at
active_at-set i j ss servers l = elim (Bool-cases (i == j)) [
  | inl y ↦ ground (arith, y, get_elem?-set_self servers i ss l)
  | inr n ↦ let ne : i ≢ j = ground (arith, n) in ground (arith, n, get_elem?-set_ne servers ss ne)
]

-- In a registry of ten slots, one of them free: if the acknowledgement cannot be sent, the
-- registration is reported as failed, although the server stays in its slot as active.
register_leak :
    (sock : ℕ) (p : SsRegistration) (reg : Registry) (i : ℕ)
    → IsSized reg
    → find_index is_slot_free reg.servers ≡ some i
    → ((register_storage_server sock (some p) false reg).0 ≡ none)
      × (get_ss_by_index i (register_storage_server sock (some p) false reg).1
          ≡ some (registered sock p))
register_leak sock p reg i sized h =
    let (a, b, c) = register_slot sock p false reg i sized h in
    (unfold register_storage_server in rw (h, register_storage_server), b)
