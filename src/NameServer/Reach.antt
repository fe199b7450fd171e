-- ===== src/NameServer/Reach.antt =====
-- The states that the name server can reach, and the invariant.
use collaborative_doc.Prelude.{
  ℕ, ◌≤◌, ◌≡◌, ◌∙◌, Bool, true, Option, none, some, inl, inr, arith, Text, Option-cases, length,
  length-set, length-take, find_index, find_index-some,
}
use Prim.Native.String.{String}
use collaborative_doc.Users.Laws
use collaborative_doc.Acl.Laws as AclLaws
use collaborative_doc.Registry.{
  SsRegistration, active_at, register_storage_server, registered, is_slot_free,
}
use collaborative_doc.Registry.Slots.{active_at-set}
use collaborative_doc.Search.{FileRecord, Times, rebuilt_record, search_find_file}
use collaborative_doc.Search.Coherence
use collaborative_doc.Search.Coherence.{IsName}
use collaborative_doc.Search.Cached.{located, search_find_file-located}
use collaborative_doc.Search.Placement
use collaborative_doc.Trie.{find_record}
use collaborative_doc.NameServer.{NameServer, bad_size, lost, received, init_name_server}
use collaborative_doc.NameServer.Commands.{
  handle_read_request, handle_write_request, handle_stream_request, handle_checkpoint_request,
  handle_viewcheckpoint_request, handle_revert_request, handle_listcheckpoints_request,
  send_redirect, redirect,
}
use collaborative_doc.NameServer.Sharing.{
  handle_list_request, handle_ss_dead_report, handle_add_access, handle_rem_access,
}
use collaborative_doc.NameServer.Rearranged.{create_folder-Good, move_file-Good, move_folder-Good}
use collaborative_doc.NameServer.Moves.{handle_move_file_request, handle_move_folder_request}
use collaborative_doc.NameServer.Router.{
  Message, Around, route_message, Event, login, logout, request, register, register_file,
  disconnect, handle, login_name,
}
use collaborative_doc.NameServer.Invariant.{
  IsValid, Good, done-Good, with_server-Good, remove_server_of-IsValid,
  remove_storage_server-IsValid, init_name_server-IsValid,
}
use collaborative_doc.NameServer.Steps.{
  create-Good, delete-Good, undo-Good, exec-Good, info-Good, locate-Good, add_access-Good,
  rem_access-Good,
}

-- The name in an access list is at most 63 bytes long.
abbrev pub IsShort : Message → Type 0
IsShort (Message.add_access (received p)) = length p.target_username ≤ 63
IsShort _ = Unit

redirect-Good :
    (p : ℕ) (denied : String) (f user : Text) (t : Times) (s : NameServer)
    → IsName f
    → IsValid s
    → Good (redirect p denied f user t s)
redirect-Good p denied f user t s name v =
    with_server-Good _ _ f t s send_redirect name v (λ i ss s' v'. done-Good s' _ _ v')

-- Every message, whoever sends it and however the storage server behaves, keeps the invariant.
route-Good :
    (m : Message) (f user : Text) (e : Around) (s : NameServer)
    → IsName f
    → IsShort m
    → IsValid s
    → Good (route_message m f user e s)
unfolding route_message handle_read_request handle_write_request handle_stream_request
    handle_checkpoint_request handle_viewcheckpoint_request handle_revert_request
    handle_listcheckpoints_request handle_list_request handle_ss_dead_report handle_add_access
    handle_rem_access handle_move_file_request handle_move_folder_request
route-Good Message.create f user e s name short v = create-Good f user name e.times e.link s v
route-Good Message.delete f user e s name short v = delete-Good f user name e.link s v
route-Good Message.undo f user e s name short v = undo-Good f user name e.times e.link s v
route-Good Message.info f user e s name short v = info-Good f user name e.link s v
route-Good Message.list f user e s name short v = done-Good s _ _ v
route-Good Message.exec f user e s name short v =
    exec-Good f user name e.times e.link e.alloc_ok e.output s v
route-Good Message.locate_file f user e s name short v = locate-Good f user name e.times s v
route-Good Message.unknown f user e s name short v = done-Good s _ _ v
route-Good (Message.add_access bad_size) f user e s name short v = done-Good s _ _ v
route-Good (Message.add_access lost) f user e s name short v = done-Good s _ _ v
route-Good (Message.add_access (received p)) f user e s name short v =
    add_access-Good f user name p e.times e.link s short v
route-Good (Message.rem_access bad_size) f user e s name short v = done-Good s _ _ v
route-Good (Message.rem_access lost) f user e s name short v = done-Good s _ _ v
route-Good (Message.rem_access (received target)) f user e s name short v =
    rem_access-Good f user name target e.times e.link s v
route-Good (Message.ss_dead_report bad_size) f user e s name short v = done-Good s _ _ v
route-Good (Message.ss_dead_report lost) f user e s name short v = done-Good s _ _ v
route-Good (Message.ss_dead_report (received p)) f user e s name short v =
    done-Good _ _ _ (remove_server_of-IsValid _ s v)
route-Good Message.create_folder f user e s name short v = create_folder-Good f user s v
route-Good (Message.move_file bad_size) f user e s name short v = done-Good s _ _ v
route-Good (Message.move_file lost) f user e s name short v = done-Good s _ _ v
route-Good (Message.move_file (received folder)) f user e s name short v =
    move_file-Good f user folder e.link s v
route-Good (Message.move_folder bad_size) f user e s name short v = done-Good s _ _ v
route-Good (Message.move_folder lost) f user e s name short v = done-Good s _ _ v
route-Good (Message.move_folder (received dst)) f user e s name short v =
    move_folder-Good f user dst e.alloc_ok s v
route-Good Message.read f user e s name short v = redirect-Good _ _ f user e.times s name v
route-Good Message.write f user e s name short v = redirect-Good _ _ f user e.times s name v
route-Good Message.stream f user e s name short v = redirect-Good _ _ f user e.times s name v
route-Good Message.checkpoint f user e s name short v = redirect-Good _ _ f user e.times s name v
route-Good Message.viewcheckpoint f user e s name short v =
    redirect-Good _ _ f user e.times s name v
route-Good Message.revert f user e s name short v = redirect-Good _ _ f user e.times s name v
route-Good Message.listcheckpoints f user e s name short v =
    redirect-Good _ _ f user e.times s name v

register-IsValid :
    (sock : ℕ) (p : Option SsRegistration) (ack_sent : Bool) (s : NameServer)
    → IsValid s
    → IsValid (record s { registry = (register_storage_server sock p ack_sent s.registry).1 })
unfolding register_storage_server
register-IsValid sock none ack_sent s v = v
register-IsValid sock (some p) ack_sent s v =
    elim (Option-cases (find_index is_slot_free s.registry.servers)) [
      | inl n ↦ rw (n, register_storage_server) v
      | inr (i, e) ↦
          let new = registered sock p in
          let (l, _) = find_index-some is_slot_free s.registry.servers i e in
          rw (e, register_storage_server)
            (record {
              index = v.index;
              placed = λ q r f.
                  rw (active_at-set i r.ss_index new s.registry.servers l)
                    (ground (arith, v.placed q r f));
              sized = length-set s.registry.servers i new ∙ v.sized;
              next = v.next;
              users = v.users;
            })
    ]

-- What the environment keeps to: names in messages are ASCII and fit their buffers, the access
-- lists that a storage server sends are valid, and it sends its files while it is registered.
abbrev pub IsReady : Event → NameServer → Type 0
IsReady (login name) s = Unit
IsReady (logout name) s = Unit
IsReady (request m f user e) s = IsName f × IsShort m
IsReady (register sock p ack_sent) s = Unit
IsReady (register_file i p) s =
    IsName p.filename
    × AclLaws.IsValid (rebuilt_record i p).acl
    × (active_at i s.registry.servers ≡ true)
IsReady (disconnect sock) s = Unit

login_name-short : (name : Text) → length (login_name name) ≤ 63
login_name-short name = omega (arith, length-take 63 name)

handle-IsValid : (e : Event) (s : NameServer) → IsReady e s → IsValid s → IsValid (handle e s)
unfolding handle
handle-IsValid (login name) s ready v = record {
  index = v.index;
  placed = v.placed;
  sized = v.sized;
  next = v.next;
  users = Laws.register-IsValid (login_name name) s.users (login_name-short name) v.users;
}
handle-IsValid (logout name) s ready v = record {
  index = v.index;
  placed = v.placed;
  sized = v.sized;
  next = v.next;
  users = Laws.deregister-IsValid (login_name name) s.users v.users;
}
handle-IsValid (request m f user e) s ready v = (route-Good m f user e s ready.0 ready.1 v).kept
handle-IsValid (register sock p ack_sent) s ready v = register-IsValid sock p ack_sent s v
handle-IsValid (register_file i p) s ready v = record {
  index = Coherence.search_rebuild_add_file-IsValid i p s.index ready.0 ready.1 v.index;
  placed = Placement.rebuild-Placed _ i p s.index ready.2 v.placed;
  sized = v.sized;
  next = v.next;
  users = v.users;
}
handle-IsValid (disconnect sock) s ready v = remove_storage_server-IsValid sock s v

-- The states that the events lead to.
pub data Reach : NameServer → Type 0 where
  start : {s : NameServer} → s ≡ init_name_server → Reach s
  next : {s s' : NameServer} → Reach s → (e : Event) → IsReady e s → s' ≡ handle e s → Reach s'

-- Every state that the name server reaches, by any interleaving of logins, requests,
-- registrations of servers and files, and losses of servers, with names in messages that are
-- ASCII and fit their buffers, and storage servers that list files with valid access lists while
-- they are registered, is valid: the file cache agrees with the trie, every file is on an active
-- server, access lists hold a user once and at most ten entries, and the list of users holds a
-- name once and at most 50.
pub Reach-IsValid : {s : NameServer} → Reach s → IsValid s
Reach-IsValid (start e) = rw e init_name_server-IsValid
Reach-IsValid (next {s = s} r e ready p) = rw p (handle-IsValid e s ready (Reach-IsValid r))

-- In every state that is reached in this way, a lookup of a file through the cache gives what the
-- trie says.
pub Reach-located :
    {s : NameServer} (f : Text) (t : Times)
    → Reach s
    → (search_find_file f t s.index).0 ≡ located f s.index.root
Reach-located {s} f t r = search_find_file-located f t s.index (Reach-IsValid r).index

-- In every state that is reached in this way, a file that is found is on a server that is
-- registered and active.
pub Reach-placed :
    {s : NameServer} (q : Text) (r : FileRecord)
    → Reach s
    → find_record q s.index.root ≡ some r
    → active_at r.ss_index s.registry.servers ≡ true
Reach-placed q r h = (Reach-IsValid h).placed q r
