-- ===== src/NameServer/Closing.antt =====
-- What the end of a connection leaves behind: `handle_client_connection` of
-- src/name_server/client_handler.c and `handle_storage_server_connection` of
-- src/name_server/storage_manager.c.
use collaborative_doc.Prelude.{
  ℕ, arith, zero, suc, ◌≡◌, ◌∙◌, refl, sym, ap, subst, Bool, true, false, ◌&&◌, Option, none, some,
  inl, inr, List, [], ◌∷◌, if◌then◌else◌, Text, All, Bool-cases, Option-cases, find_index, modify,
  set, text_eq_refl,
}
use collaborative_doc.Users.Laws as UserLaws
use collaborative_doc.Registry.{
  SsRegistration, StorageServerInfo, Registry, register_storage_server, registered, is_slot_free,
  has_socket, clear_slot,
}
use collaborative_doc.Search.{search_rebuild_add_file}
use collaborative_doc.NameServer.{NameServer, bad_size, lost, received, remove_storage_server}
use collaborative_doc.NameServer.Router.{login, handle, login_name}
use collaborative_doc.NameServer.Reach.{Reach, Reach-IsValid, next}
use collaborative_doc.NameServer.Connections.{
  Request, serve, handle_client_connection, SyncMessage, file, complete, unexpected, sync_files,
  handle_storage_server_connection, IsPolite, IsSound, handle_client_connection-Reach,
  handle_storage_server_connection-Reach, serve-Reach,
}

-- A session of a client that logs in, with any requests whose names and access lists fit their
-- buffers and are ASCII, takes the name server from a state that it reaches to one that it
-- reaches, in which the name of the user is not listed any more.
pub handle_client_connection-closed :
    (name : Text) (qs : List Request) (s : NameServer)
    → IsPolite qs
    → Reach s
    → Reach (handle_client_connection (some name) qs s).0
      × (UserLaws.listed (login_name name) (handle_client_connection (some name) qs s).0.users ≡ 0)
unfolding handle_client_connection handle
handle_client_connection-closed name qs s polite r =
    let entered = next {s = s} r (login name) tt refl in
    let served = serve-Reach (login_name name) qs (handle (login name) s) polite entered in
    (
      handle_client_connection-Reach (some name) qs s polite r,
      UserLaws.listed-deregister (login_name name) (login_name name)
            (serve (login_name name) qs (handle (login name) s)).0.users
            (Reach-IsValid served).users
          ∙ rw (text_eq_refl (login_name name)) refl,
    )

-- No active slot has the socket.
abbrev pub Unused : ℕ → List StorageServerInfo → Type 0
Unused sock servers = All (λ ss. has_socket sock ss ≡ false) servers

-- Whether the file list comes to its end.
unfoldable pub completes : List SyncMessage → Bool
completes [] = false
completes (file (received p) ∷ ms) = completes ms
completes (file bad_size ∷ ms) = false
completes (file lost ∷ ms) = false
completes (complete ∷ ms) = true
completes (unexpected ∷ ms) = false

module _ {ℓ} {A : Type ℓ} (test : A → Bool) where
  none-All : (xs : List A) → find_index test xs ≡ none → All (λ x. test x ≡ false) xs
  unfolding find_index
  none-All [] h = tt
  none-All (x ∷ xs) h = elim (Bool-cases (test x)) [
    | inl y ↦ absurd (cc (rw y at h))
    | inr n ↦ elim (Option-cases (find_index test xs)) [
      | inl e ↦ (n, none-All xs e)
      | inr (i, e) ↦ absurd (cc (rw (n, e) at h))
    ]
  ]

  All-none : (xs : List A) → All (λ x. test x ≡ false) xs → find_index test xs ≡ none
  unfolding find_index
  All-none [] h = refl
  All-none (x ∷ xs) h = rw (h.0, All-none xs h.1) refl

  -- Where one entry at most passes the test, the first that does is the last.
  found-All :
      (f : A → A)
      → ((x : A) → test (f x) ≡ false)
      → (xs : List A) (i : ℕ) (x : A) (j : ℕ) → All (λ y. test y ≡ false) xs
      → find_index test (set xs i x) ≡ some j
      → All (λ y. test y ≡ false) (modify (set xs i x) j f)
  unfolding find_index
  found-All f fails [] i x j h e = tt
  found-All f fails (y ∷ xs) zero x zero h e = (fails x, h.1)
  found-All f fails (y ∷ xs) zero x (suc j) h e =
      let nothing = All-none xs h.1 in
      absurd (elim (Bool-cases (test x)) [
        | inl p ↦ ground (arith, rw p at e)
        | inr n ↦ ground (arith, rw (n, nothing) at e)
      ])
  found-All f fails (y ∷ xs) (suc i) x j h e = elim (Option-cases (find_index test (set xs i x))) [
    | inl k ↦ absurd (ground (arith, rw (h.0, k) at e))
    | inr (z, k) ↦
        let same : suc z ≡ j = ground (arith, rw (h.0, k) at e) in
        subst (λ n. All (λ a. test a ≡ false) (modify (y ∷ set xs i x) n f)) same
          (h.0, found-All f fails xs i x z h.1 k)
  ]

clear_slot-Unused :
    (sock : ℕ) (p : SsRegistration) (i : ℕ) (reg : Registry)
    → Unused sock reg.servers
    → Unused sock
        (clear_slot sock (record reg { servers = set reg.servers i (registered sock p) })).1.servers
unfolding clear_slot
clear_slot-Unused sock p i reg h =
    let servers = set reg.servers i (registered sock p) in
    let after : Registry = record reg { servers = servers } in
    let clear = λ (ss : StorageServerInfo). record ss { is_active = false; ss_socket_fd = none } in
    elim (Option-cases (find_index (has_socket sock) servers)) [
      | inl e ↦
          let same : clear_slot sock after ≡ (none, after) = rw (e, clear_slot) refl in
          subst (λ (r : Option ℕ × Registry). Unused sock r.1.servers) (sym same)
            (none-All (has_socket sock) servers e)
      | inr (j, e) ↦
          let same : clear_slot sock after
              ≡ (some j, record reg { servers = modify servers j clear }) =
            rw (e, clear_slot) refl in
          subst (λ (r : Option ℕ × Registry). Unused sock r.1.servers) (sym same)
            (found-All (has_socket sock) clear (λ ss. refl) reg.servers i (registered sock p) j h e)
    ]

registry-remove_storage_server :
    (sock : ℕ) (s : NameServer)
    → (remove_storage_server sock s).registry ≡ (clear_slot sock s.registry).1
unfolding remove_storage_server
registry-remove_storage_server sock s = elim (Option-cases (clear_slot sock s.registry).0) [
  | inl e ↦ rw (e, remove_storage_server) refl
  | inr (i, e) ↦ rw (e, remove_storage_server) refl
]

registry-sync_files :
    (i sock : ℕ) (ms : List SyncMessage) (s : NameServer)
    → completes ms ≡ false
    → (sync_files i sock ms s).registry ≡ (clear_slot sock s.registry).1
unfolding sync_files completes
registry-sync_files i sock [] s h = registry-remove_storage_server sock s
registry-sync_files i sock (file (received p) ∷ ms) s h =
    registry-sync_files i sock ms (record s { index = search_rebuild_add_file i p s.index }) h
registry-sync_files i sock (file bad_size ∷ ms) s h = registry-remove_storage_server sock s
registry-sync_files i sock (file lost ∷ ms) s h = registry-remove_storage_server sock s
registry-sync_files i sock (complete ∷ ms) s h = absurd (cc h)
registry-sync_files i sock (unexpected ∷ ms) s h = registry-remove_storage_server sock s

-- The registry behind a registration with a free slot.
abbrev entered : ℕ → SsRegistration → ℕ → NameServer → NameServer
entered sock p i s = record s {
  registry = record s.registry { servers = set s.registry.servers i (registered sock p) };
}

registered_none :
    (sock : ℕ) (p : SsRegistration) (ack_sent' : Bool) (ms : List SyncMessage) (s : NameServer)
    → find_index is_slot_free s.registry.servers ≡ none
    → handle_storage_server_connection true sock (some p) true ack_sent' ms s ≡ s
unfolding handle_storage_server_connection
registered_none sock p ack_sent' ms s e =
    let result : register_storage_server sock (some p) true s.registry ≡ (none, s.registry) =
      unfold register_storage_server in rw (e, register_storage_server) refl in
    rw (result, result) refl

registered_at :
    (sock : ℕ) (p : SsRegistration) (ack_sent' : Bool) (ms : List SyncMessage) (s : NameServer)
    (i : ℕ)
    → find_index is_slot_free s.registry.servers ≡ some i
    → handle_storage_server_connection true sock (some p) true ack_sent' ms s ≡ (
        if ack_sent'
        then sync_files i sock ms (entered sock p i s)
        else remove_storage_server sock (entered sock p i s))
unfolding handle_storage_server_connection
registered_at sock p ack_sent' ms s i e =
    let result : register_storage_server sock (some p) true s.registry
        ≡ (some i, (entered sock p i s).registry) =
      unfold register_storage_server in rw (e, register_storage_server) refl in
    rw (result, result) refl

closed_registry :
    (sock i : ℕ) (sent : Bool) (ms : List SyncMessage) (s : NameServer)
    → (sent && completes ms) ≡ false
    → (if sent then sync_files i sock ms s else remove_storage_server sock s).registry
      ≡ (clear_slot sock s.registry).1
closed_registry sock i true ms s h = registry-sync_files i sock ms s h
closed_registry sock i false ms s h = registry-remove_storage_server sock s

-- A registered server whose connection breaks off.
broken-Unused :
    (sock : ℕ) (p : SsRegistration) (ack_sent' : Bool) (ms : List SyncMessage) (s : NameServer)
    → Unused sock s.registry.servers
    → (ack_sent' && completes ms) ≡ false
    → Unused sock
        (handle_storage_server_connection true sock (some p) true ack_sent' ms s).registry.servers
broken-Unused sock p ack_sent' ms s free h =
    elim (Option-cases (find_index is_slot_free s.registry.servers)) [
      | inl e ↦
          subst (λ (z : NameServer). Unused sock z.registry.servers)
            (sym (registered_none sock p ack_sent' ms s e)) free
      | inr (i, e) ↦
          subst (λ (z : Registry). Unused sock z.servers)
            (sym (
              ap (λ (z : NameServer). z.registry) (registered_at sock p ack_sent' ms s i e)
              ∙ closed_registry sock i ack_sent' ms (entered sock p i s) h))
            (clear_slot-Unused sock p i s.registry free)
    ]

-- A connection of a storage server on a socket that no active slot has, whose registration is
-- received and acknowledged, and which then breaks off in any way before the end of its file
-- list, or gets no second acknowledgement, takes the name server from a state that it reaches to
-- one that it reaches, in which no active slot has the socket; the files that it listed have
-- valid names and access lists.
pub handle_storage_server_connection-closed :
    (sock : ℕ) (p : SsRegistration) (ack_sent' : Bool) (ms : List SyncMessage) (s : NameServer)
    → ((i : ℕ) → All (IsSound i) ms)
    → Reach s
    → Unused sock s.registry.servers
    → (ack_sent' && completes ms) ≡ false
    → Reach (handle_storage_server_connection true sock (some p) true ack_sent' ms s)
      × Unused sock
          (handle_storage_server_connection true sock (some p) true ack_sent' ms s).registry.servers
handle_storage_server_connection-closed sock p ack_sent' ms s sound r free h = (
  handle_storage_server_connection-Reach true sock (some p) true ack_sent' ms s sound r,
  broken-Unused sock p ack_sent' ms s free h,
)
