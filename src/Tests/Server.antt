-- ===== src/Tests/Server.antt =====
-- Runs of the name server.
use collaborative_doc.Prelude.{ℕ, ◌≡◌, ◌⊎◌, refl, true, false, none, some, text_eq, find_index}
use collaborative_doc.Registry
use collaborative_doc.Registry.{StorageServerInfo}
use collaborative_doc.Search
use collaborative_doc.Search.{FileRecord, new_record}
use collaborative_doc.Search.Cached.{located}
use collaborative_doc.Acl
use collaborative_doc.Trie
use collaborative_doc.Trie.Lookup.{is_ascii}
use collaborative_doc.Cache.{cache_lookup, cache_add, choose_slot}
use collaborative_doc.NameServer.{ack, error}
use collaborative_doc.NameServer.Commands
use collaborative_doc.NameServer.Router.{Message, handle, route_message}
use collaborative_doc.NameServer.Invariant.{IsValid}
use collaborative_doc.NameServer.Reach.{Reach-IsValid, Reach-located, Reach-placed}
use collaborative_doc.NameServer.Redirects.{address, route_message-redirect}
use collaborative_doc.NameServer.Files.{
  handle_create_request-new_record, handle_delete_request_owner,
}
use collaborative_doc.Tests.Sample.{
  doc, alice, bob, clock, working, around, with_file, one_server, doc_record, one_server-Reach,
  with_file-Reach,
}

unfoldable pub program : Unit {0}
unfolding Registry.register_storage_server Registry.active_at Registry.scan
    Registry.find_next_active_ss Registry.get_ss_by_index Search.search_add_file
    Search.search_find_file Search.search_check_permission Acl.acl_allows Trie.find_record
    Trie.write_record cache_lookup cache_add choose_slot Commands.handle_create_request handle
    route_message find_index text_eq is_ascii
program = tt

pub created : Trie.find_record doc with_file.index.root ≡ some doc_record
unfolding program
created = refl

alice-reads : Search.search_check_permission doc alice 1 with_file.index ≡ true
unfolding program
alice-reads = refl

bob-reads : Search.search_check_permission doc bob 1 with_file.index ≡ false
unfolding program
bob-reads = refl

acked : (Commands.handle_create_request doc alice clock working one_server).reply ≡ ack
unfolding program
acked = refl

Reach-IsValid_example : IsValid with_file
Reach-IsValid_example = Reach-IsValid with_file-Reach

Reach-located_example :
    (Search.search_find_file doc clock with_file.index).0 ≡ located doc with_file.index.root
Reach-located_example = Reach-located doc clock with_file-Reach

Reach-placed_example : Registry.active_at 0 with_file.registry.servers ≡ true
Reach-placed_example = Reach-placed doc doc_record with_file-Reach created

route_message-redirect_example :
    (r : FileRecord) × (ss : StorageServerInfo) × (Trie.find_record doc with_file.index.root
      ≡ some r)
    × (Registry.get_ss_by_index r.ss_index with_file.registry ≡ some ss)
    × ((route_message Message.read doc alice around with_file).reply ≡ address ss)
route_message-redirect_example =
    route_message-redirect Message.read 1 doc alice around with_file refl
      (Reach-IsValid with_file-Reach) alice-reads

handle_create_request-new_record_example :
    (Trie.find_record doc one_server.index.root ≡ none)
    × ((i : ℕ) × (Registry.active_at i one_server.registry.servers ≡ true)
        × (Trie.find_record doc
              (Commands.handle_create_request doc alice clock working one_server).state.index.root
            ≡ some (new_record doc i alice)))
handle_create_request-new_record_example =
    handle_create_request-new_record doc alice clock working one_server
      (Reach-IsValid one_server-Reach) acked

pub doc-is_ascii : is_ascii doc ≡ true
unfolding program
doc-is_ascii = refl

handle_delete_request_owner_example :
    ((text_eq alice bob ≡ true)
      × (Trie.find_record doc
            (Commands.handle_delete_request doc bob working with_file).state.index.root
          ≡ none)
      × ((Commands.handle_delete_request doc bob working with_file).reply ≡ ack))
    ⊎ ((text_eq alice bob ≡ false)
        × ((Commands.handle_delete_request doc bob working with_file).state ≡ with_file)
        × ((Commands.handle_delete_request doc bob working with_file).reply
            ≡ error "Access Denied (Only owner can delete)."))
handle_delete_request_owner_example =
    handle_delete_request_owner doc bob working with_file doc_record doc-is_ascii created
