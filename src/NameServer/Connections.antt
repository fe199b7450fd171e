-- ===== src/NameServer/Connections.antt =====
-- The threads of the name server from accept to close: `handle_client_connection` of
-- src/name_server/client_handler.c and `handle_storage_server_connection` of
-- src/name_server/storage_manager.c, and how they relate to the events. The list of messages ends
-- where `recv_header` fails.
use collaborative_doc.Prelude.{
  ℕ, ◌≡◌, refl, Bool, true, false, Option, none, some, inl, inr, List, [], ◌∷◌, if◌then◌else◌,
  arith, Text, All, Bool-cases, Option-cases, find_index, find_index-some,
}
use collaborative_doc.Users
use collaborative_doc.Acl.Laws as AclLaws
use collaborative_doc.Registry.{
  SsRegistration, register_storage_server, active_at, registered, is_slot_free,
}
use collaborative_doc.Registry.Slots.{active_at-set}
use collaborative_doc.Search.{SsFileRecord, search_rebuild_add_file, rebuilt_record}
use collaborative_doc.Search.Coherence.{IsName}
use collaborative_doc.NameServer.{
  NameServer, Payload, bad_size, lost, received, Reply, error, ack, remove_storage_server,
}
use collaborative_doc.NameServer.Router.{
  Message, Around, route_message, Event, login, logout, request, register, register_file,
  disconnect, handle, login_name,
}
use collaborative_doc.NameServer.Reach.{Reach, next, IsReady, IsShort}

-- A header that arrives, with what surrounds its handling.
pub record Request : Type 0 where
  pub message : Message
  pub filename : Text
  pub around : Around

abbrev pub is_exec : Message → Bool
is_exec Message.exec = true
is_exec _ = false

-- The loop over the messages; `MSG_EXEC` is the last one that is read.
unfoldable pub serve : Text → List Request → NameServer → NameServer × List Reply
serve user [] s = (s, [])
serve user (q ∷ qs) s =
    let done = route_message q.message q.filename user q.around s in
    let rest = serve user qs done.state in
    if is_exec q.message then (done.state, done.reply ∷ []) else (rest.0, done.reply ∷ rest.1)

-- `none` is a first message that is no `MSG_REGISTER_CLIENT`.
unfoldable pub handle_client_connection :
    Option Text → List Request → NameServer → NameServer × List Reply
handle_client_connection none qs s = (s, error "Must register username first." ∷ [])
handle_client_connection (some name) qs s =
    let user = login_name name in
    let served = serve user qs (record s { users = Users.register user s.users }) in
    (record (served.0) { users = Users.deregister user served.0.users }, ack ∷ served.1)

-- What a storage server sends after its registration.
pub data SyncMessage : Type 0 where
  file : Payload SsFileRecord → SyncMessage
  complete unexpected : SyncMessage

-- The loop over the file list.
unfoldable pub sync_files : ℕ → ℕ → List SyncMessage → NameServer → NameServer
sync_files ss_index sock_fd [] s = remove_storage_server sock_fd s
sync_files ss_index sock_fd (file (received p) ∷ ms) s =
    sync_files ss_index sock_fd ms (record s { index = search_rebuild_add_file ss_index p s.index })
sync_files ss_index sock_fd (file bad_size ∷ ms) s = remove_storage_server sock_fd s
sync_files ss_index sock_fd (file lost ∷ ms) s = remove_storage_server sock_fd s
sync_files ss_index sock_fd (complete ∷ ms) s = s
sync_files ss_index sock_fd (unexpected ∷ ms) s = remove_storage_server sock_fd s

-- The registration, the second acknowledgement, and the file list. `is_register` says whether
-- the first message is `MSG_REGISTER`.
unfoldable pub handle_storage_server_connection :
    Bool → ℕ → Option SsRegistration → Bool → Bool → List SyncMessage → NameServer → NameServer
handle_storage_server_connection is_register sock_fd p ack_sent ack_sent' ms s =
    if is_register
    then (let (slot, registry) = register_storage_server sock_fd p ack_sent s.registry in
        let s' : NameServer = record s { registry = registry } in
        elim slot [
          | none ↦ s'
          | some ss_index ↦
              if ack_sent'
              then sync_files ss_index sock_fd ms s'
              else remove_storage_server sock_fd s'
        ])
    else s

-- What the environment keeps to in a session of a client, and in a file list.
abbrev pub IsPolite : List Request → Type 0
IsPolite qs = All (λ q. IsName q.filename × IsShort q.message) qs

abbrev pub IsSound : ℕ → SyncMessage → Type 0
IsSound i (file (received p)) = IsName p.filename × AclLaws.IsValid (rebuilt_record i p).acl
IsSound i _ = Unit

step : (e : Event) (s : NameServer) → IsReady e s → Reach s → Reach (handle e s)
step e s ready r = next r e ready refl

pub serve-Reach :
    (user : Text) (qs : List Request) (s : NameServer)
    → IsPolite qs
    → Reach s
    → Reach (serve user qs s).0
unfolding serve handle
serve-Reach user [] s polite r = r
serve-Reach user (q ∷ qs) s polite r =
    let event = request q.message q.filename user q.around in
    let first = step event s polite.0 r in
    elim (Bool-cases (is_exec q.message)) [
      | inl y ↦ rw y first
      | inr n ↦ rw n (serve-Reach user qs (handle event s) polite.1 first)
    ]

-- A session of a client, with any requests whose names and access lists fit their buffers and are
-- ASCII, takes the name server from a state that it reaches to one that it reaches.
pub handle_client_connection-Reach :
    (name : Option Text) (qs : List Request) (s : NameServer)
    → IsPolite qs
    → Reach s
    → Reach (handle_client_connection name qs s).0
unfolding handle_client_connection handle
handle_client_connection-Reach none qs s polite r = r
handle_client_connection-Reach (some name) qs s polite r =
    let entered = step (login name) s tt r in
    let served = serve-Reach (login_name name) qs (handle (login name) s) polite entered in
    step (logout name) (serve (login_name name) qs (handle (login name) s)).0 tt served

sync_files-Reach :
    (i sock : ℕ) (ms : List SyncMessage) (s : NameServer)
    → All (IsSound i) ms
    → active_at i s.registry.servers ≡ true
    → Reach s
    → Reach (sync_files i sock ms s)
unfolding sync_files handle
sync_files-Reach i sock [] s sound up r = step (disconnect sock) s tt r
sync_files-Reach i sock (file (received p) ∷ ms) s sound up r =
    let (name, acl) = sound.0 in
    sync_files-Reach i sock ms (handle (register_file i p) s) sound.1 up
      (step (register_file i p) s (name, acl, up) r)
sync_files-Reach i sock (file bad_size ∷ ms) s sound up r = step (disconnect sock) s tt r
sync_files-Reach i sock (file lost ∷ ms) s sound up r = step (disconnect sock) s tt r
sync_files-Reach i sock (complete ∷ ms) s sound up r = r
sync_files-Reach i sock (unexpected ∷ ms) s sound up r = step (disconnect sock) s tt r

register-active :
    (sock : ℕ) (p : Option SsRegistration) (ack_sent : Bool) (s : NameServer) (i : ℕ)
    → (register_storage_server sock p ack_sent s.registry).0 ≡ some i
    → active_at i (register_storage_server sock p ack_sent s.registry).1.servers ≡ true
unfolding register_storage_server
register-active sock none ack_sent s i h = absurd (cc h)
register-active sock (some p) ack_sent s i h =
    elim (Option-cases (find_index is_slot_free s.registry.servers)) [
      | inl n ↦ absurd (ground (arith, h, n))
      | inr (j, e) ↦
          let (l, _) = find_index-some is_slot_free s.registry.servers j e in
          let same : j ≡ i = ground (arith, h, e) in
          rw
            (e, register_storage_server, active_at-set j i (registered sock p) s.registry.servers l)
            (ground (arith, same))
    ]

-- The same for a connection of a storage server, whatever it sends in whatever order and wherever
-- it breaks off, if the files that it lists have valid names and access lists.
pub handle_storage_server_connection-Reach :
    (is_register : Bool) (sock : ℕ) (p : Option SsRegistration) (ack_sent ack_sent' : Bool)
    (ms : List SyncMessage) (s : NameServer)
    → ((i : ℕ) → All (IsSound i) ms)
    → Reach s
    → Reach (handle_storage_server_connection is_register sock p ack_sent ack_sent' ms s)
unfolding handle_storage_server_connection handle
handle_storage_server_connection-Reach false sock p ack_sent ack_sent' ms s sound r = r
handle_storage_server_connection-Reach true sock p ack_sent ack_sent' ms s sound r =
    let event = register sock p ack_sent in
    let entered = step event s tt r in
    elim (Option-cases (register_storage_server sock p ack_sent s.registry).0) [
      | inl n ↦ rw (n, handle_storage_server_connection) entered
      | inr (i, e) ↦ elim (Bool-cases ack_sent') [
        | inl y ↦
            rw (e, y)
              (sync_files-Reach i sock ms (handle event s) (sound i)
                (register-active sock p ack_sent s i e) entered)
        | inr n ↦ rw (e, n) (step (disconnect sock) (handle event s) tt entered)
      ]
    ]
