-- ===== src/NameServer/Redirects.antt =====
-- Who is sent to which storage server.
use collaborative_doc.Prelude.{
  ℕ, ◌≡◌, ◌∙◌, refl, true, false, Option, none, some, inl, inr, arith, Text, Option-cases, length,
  get_elem?, get_elem?-lt, take,
}
use Prim.Native.String.{String}
use collaborative_doc.Registry.{Registry, StorageServerInfo, active_at, get_ss_by_index}
use collaborative_doc.Search.{Times, FileRecord, search_check_permission, search_find_file}
use collaborative_doc.Search.Cached.{search_find_file-located, located}
use collaborative_doc.Search.Coherence.{some_eq}
use collaborative_doc.Trie.{Trie, find_record}
use collaborative_doc.NameServer.{NameServer, Reply, error, read_redirect}
use collaborative_doc.NameServer.Commands.{
  with_server, redirect, handle_read_request, handle_write_request, handle_stream_request,
  handle_checkpoint_request, handle_viewcheckpoint_request, handle_revert_request,
  handle_listcheckpoints_request,
}
use collaborative_doc.NameServer.Router.{Message, Around, route_message}
use collaborative_doc.NameServer.Invariant.{IsValid}

-- The permission that a command asks for, of those that answer with a storage server's address.
abbrev pub required : Message → Option ℕ
required Message.read = some 1
required Message.stream = some 1
required Message.viewcheckpoint = some 1
required Message.listcheckpoints = some 1
required Message.write = some 2
required Message.checkpoint = some 2
required Message.revert = some 2
required _ = none

pub active-server :
    (i : ℕ) (reg : Registry)
    → length reg.servers ≡ 10
    → active_at i reg.servers ≡ true
    → (ss : StorageServerInfo) × (get_ss_by_index i reg ≡ some ss)
unfolding active_at get_ss_by_index
active-server i reg l h = elim (Option-cases (get_elem? reg.servers i)) [
  | inl n ↦ absurd (ground (arith, h, n))
  | inr (ss, e) ↦ (ss, ground (arith, h, e, get_elem?-lt reg.servers i ss e))
]

permitted-found :
    (f user : Text) (p : ℕ) (s : NameServer)
    → search_check_permission f user p s.index ≡ true
    → (r : FileRecord) × (find_record f s.index.root ≡ some r)
unfolding search_check_permission
permitted-found f user p s h = elim (Option-cases (find_record f s.index.root)) [
  | inl n ↦ absurd (ground (arith, h, n))
  | inr x ↦ x
]

-- The address of the server that has the file.
abbrev pub address : StorageServerInfo → Reply
address ss = read_redirect (take 64 ss.ip_addr) ss.client_facing_port

pub located-some :
    (f : Text) (root : Trie FileRecord) (r : FileRecord)
    → find_record f root ≡ some r
    → located f root ≡ some r.ss_index
located-some f root r e = ground (arith, e)

redirect-allowed :
    (n p : ℕ) (denied : String) (f user : Text) (t : Times) (s : NameServer)
    → some n ≡ some p
    → IsValid s
    → search_check_permission f user p s.index ≡ true
    → (r : FileRecord) × (ss : StorageServerInfo) × (find_record f s.index.root ≡ some r)
      × (get_ss_by_index r.ss_index s.registry ≡ some ss)
      × ((redirect n denied f user t s).reply ≡ address ss)
unfolding with_server
redirect-allowed n p denied f user t s q v h =
    let (r, e) = permitted-found f user p s h in
    let (ss, g) = active-server r.ss_index s.registry v.sized (v.placed f r e) in
    let found : (search_find_file f t s.index).0 ≡ some r.ss_index =
      search_find_file-located f t s.index v.index ∙ located-some f s.index.root r e in
    (r, ss, e, g, rw (some_eq q, h, found, g))

redirect-denied :
    (n p : ℕ) (denied : String) (f user : Text) (t : Times) (s : NameServer)
    → some n ≡ some p
    → search_check_permission f user p s.index ≡ false
    → ((redirect n denied f user t s).state ≡ s)
      × ((redirect n denied f user t s).reply ≡ error denied)
unfolding with_server
redirect-denied n p denied f user t s q h = rw (some_eq q, h) (refl, refl)

-- In a valid state, for the seven commands that answer with a server's address: a user with the
-- required permission is sent the address of the active server that has the file, as the trie and
-- the registry say it.
pub route_message-redirect :
    (m : Message) (p : ℕ) (f user : Text) (e : Around) (s : NameServer)
    → required m ≡ some p
    → IsValid s
    → search_check_permission f user p s.index ≡ true
    → (r : FileRecord) × (ss : StorageServerInfo) × (find_record f s.index.root ≡ some r)
      × (get_ss_by_index r.ss_index s.registry ≡ some ss)
      × ((route_message m f user e s).reply ≡ address ss)
unfolding route_message handle_read_request handle_write_request handle_stream_request
    handle_checkpoint_request handle_viewcheckpoint_request handle_revert_request
    handle_listcheckpoints_request
route_message-redirect Message.read p f user e s q v h =
    redirect-allowed 1 p "Access Denied." f user e.times s q v h
route_message-redirect Message.stream p f user e s q v h =
    redirect-allowed 1 p "Access Denied (Read Permission Required)." f user e.times s q v h
route_message-redirect Message.viewcheckpoint p f user e s q v h =
    redirect-allowed 1 p "Access Denied (Read Permission Required)." f user e.times s q v h
route_message-redirect Message.listcheckpoints p f user e s q v h =
    redirect-allowed 1 p "Access Denied (Read Permission Required)." f user e.times s q v h
route_message-redirect Message.write p f user e s q v h =
    redirect-allowed 2 p "Access Denied (Write Permission Required)." f user e.times s q v h
route_message-redirect Message.checkpoint p f user e s q v h =
    redirect-allowed 2 p "Access Denied (Write Permission Required)." f user e.times s q v h
route_message-redirect Message.revert p f user e s q v h =
    redirect-allowed 2 p "Access Denied (Write Permission Required)." f user e.times s q v h
route_message-redirect Message.create p f user e s q v h = absurd (cc q)
route_message-redirect Message.delete p f user e s q v h = absurd (cc q)
route_message-redirect Message.undo p f user e s q v h = absurd (cc q)
route_message-redirect Message.info p f user e s q v h = absurd (cc q)
route_message-redirect Message.list p f user e s q v h = absurd (cc q)
route_message-redirect Message.exec p f user e s q v h = absurd (cc q)
route_message-redirect Message.locate_file p f user e s q v h = absurd (cc q)
route_message-redirect Message.create_folder p f user e s q v h = absurd (cc q)
route_message-redirect (Message.move_file x) p f user e s q v h = absurd (cc q)
route_message-redirect (Message.move_folder x) p f user e s q v h = absurd (cc q)
route_message-redirect Message.unknown p f user e s q v h = absurd (cc q)
route_message-redirect (Message.add_access x) p f user e s q v h = absurd (cc q)
route_message-redirect (Message.rem_access x) p f user e s q v h = absurd (cc q)
route_message-redirect (Message.ss_dead_report x) p f user e s q v h = absurd (cc q)
