-- ===== src/Registry.antt =====
-- The registry of storage servers: src/name_server/storage_manager.c and include/storage_manager.h,
-- with `static int next_ss_index`. A socket descriptor is a number, and `none` is -1.
-- `remove_storage_server` also purges the file index: that step is in NameServer.antt.
pub mod Slots
pub mod RoundRobin
use collaborative_doc.Prelude.{
  ℕ, zero, suc, ◌+◌, ◌-◌, ◌%◌, Bool, true, false, ◌&&◌, not, Option, none, some, List, [], ◌∷◌, leb,
  ◌==◌, if◌then◌else◌, Text, text_eq, strncpy, find_index, set, get_elem?, modify, replicate,
}
use collaborative_doc.Search.{max_storage_servers}

pub record StorageServerInfo : Type 0 where
  pub ss_socket_fd : Option ℕ
  pub ip_addr : Text
  pub client_facing_port : ℕ
  pub is_active : Bool

-- `SSRegistrationPayload`
pub record SsRegistration : Type 0 where
  pub ip_addr : Text
  pub client_facing_port : ℕ

pub record Registry : Type 0 where
  pub servers : List StorageServerInfo
  pub next_ss_index : ℕ

abbrev pub init_storage_manager : Registry
init_storage_manager = record {
  servers =
      replicate max_storage_servers
        (record { ss_socket_fd = none; ip_addr = []; client_facing_port = 0; is_active = false });
  next_ss_index = 0;
}

abbrev pub is_slot_free : StorageServerInfo → Bool
is_slot_free ss = if ss.is_active then false else true

abbrev pub registered : ℕ → SsRegistration → StorageServerInfo
registered sock_fd p = record {
  ss_socket_fd = some sock_fd;
  ip_addr = strncpy 64 p.ip_addr;
  client_facing_port = p.client_facing_port;
  is_active = true;
}

-- `payload` is what arrived, `none` if its size was wrong or the socket failed; `ack_sent` says
-- whether the acknowledgement could be sent. The slot stays filled if it could not.
unfoldable pub register_storage_server :
    ℕ → Option SsRegistration → Bool → Registry → Option ℕ × Registry
register_storage_server sock_fd none ack_sent reg = (none, reg)
register_storage_server sock_fd (some p) ack_sent reg = elim (find_index is_slot_free reg.servers) [
  | none ↦ (none, reg)
  | some slot ↦ (
    if ack_sent then some slot else none,
    record reg { servers = set reg.servers slot (registered sock_fd p) },
  )
]

-- `ss_registry[index].is_active`
unfoldable pub active_at : ℕ → List StorageServerInfo → Bool
active_at index servers = elim (get_elem? servers index) [ none ↦ false | some ss ↦ ss.is_active ]

-- The loop of `find_next_active_ss`, with the rounds left and the counter `i`.
unfoldable pub scan : ℕ → ℕ → ℕ → List StorageServerInfo → Option ℕ
scan zero i start_index servers = none
scan (suc rounds) i start_index servers =
    let index = (start_index + i) % max_storage_servers in
    let rest = scan rounds (suc i) start_index servers in
    if active_at index servers then some index else rest

-- The server that is found is the last one of the next round.
unfoldable pub find_next_active_ss : ℕ → Registry → Option ℕ × Registry
find_next_active_ss start_index reg = elim (scan max_storage_servers 0 start_index reg.servers) [
  | none ↦ (none, reg)
  | some index ↦ (some index, record reg { next_ss_index = (index + 1) % max_storage_servers })
]

abbrev pub get_ss_for_new_file : Registry → Option ℕ × Registry
get_ss_for_new_file reg = find_next_active_ss reg.next_ss_index reg

-- An inactive or missing server is a null pointer.
unfoldable pub get_ss_by_index : ℕ → Registry → Option StorageServerInfo
get_ss_by_index ss_index reg =
    if leb max_storage_servers ss_index then none else elim (get_elem? reg.servers ss_index) [
      | none ↦ none
      | some ss ↦ if ss.is_active then some ss else none
    ]

abbrev pub same_socket : ℕ → Option ℕ → Bool
same_socket sock_fd none = false
same_socket sock_fd (some s) = s == sock_fd

-- `ss_registry[i].is_active && ss_registry[i].ss_socket_fd == sock_fd`
abbrev pub has_socket : ℕ → StorageServerInfo → Bool
has_socket sock_fd ss = ss.is_active && same_socket sock_fd ss.ss_socket_fd

-- The locked part of `remove_storage_server`: the slot that it cleared.
unfoldable pub clear_slot : ℕ → Registry → Option ℕ × Registry
clear_slot sock_fd reg = elim (find_index (has_socket sock_fd) reg.servers) [
  | none ↦ (none, reg)
  | some i ↦
      let cleared =
        λ (ss : StorageServerInfo). record ss { is_active = false; ss_socket_fd = none } in
      (some i, record reg { servers = modify reg.servers i cleared })
]

abbrev pub has_address : Text → ℕ → StorageServerInfo → Bool
has_address ip port ss = ss.is_active && (ss.client_facing_port == port) && text_eq ss.ip_addr ip

unfoldable pub get_ss_sock_by_address : Text → ℕ → Registry → Option ℕ
get_ss_sock_by_address ip port reg = elim (find_index (has_address ip port) reg.servers) [
  | none ↦ none
  | some i ↦ elim (get_elem? reg.servers i) [ none ↦ none | some ss ↦ ss.ss_socket_fd ]
]
