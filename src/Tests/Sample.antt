-- ===== src/Tests/Sample.antt =====
-- The data that the runs share: a name server with one storage server and one file.
use collaborative_doc.Prelude.{refl, true, none, some, Text, bytes, arith}
use collaborative_doc.Registry.{SsRegistration}
use collaborative_doc.Search.{Times, FileRecord, new_record}
use collaborative_doc.Search.Coherence.{IsName}
use collaborative_doc.Trie.Lookup.{is_ascii}
use collaborative_doc.NameServer.{NameServer, Link, init_name_server}
use collaborative_doc.NameServer.Router.{Message, Around, Event, handle}
use collaborative_doc.NameServer.Reach.{Reach, start, next}

abbrev pub doc : Text
doc = bytes "doc"

abbrev pub alice : Text
alice = bytes "alice"

abbrev pub bob : Text
bob = bytes "bob"

abbrev pub address : SsRegistration
address = record { ip_addr = bytes "10.0.0.7"; client_facing_port = 9000 }

abbrev pub clock : Times
clock = record { at_hit = 3; at_start = 4; at_store = 5 }

-- A storage server that acknowledges.
abbrev pub working : Link
working = record {
  send_ok = true;
  response = some 11;
  leftover = 0;
  metadata = none;
  content = none;
}

abbrev pub around : Around
around = record { times = clock; link = working; alloc_ok = true; output = λ text. some text }

abbrev pub arrival : Event
arrival = Event.register 7 (some address) true

abbrev pub creation : Event
creation = Event.request Message.create doc alice around

abbrev pub one_server : NameServer
one_server = handle arrival init_name_server

abbrev pub with_file : NameServer
with_file = handle creation one_server

abbrev pub doc_record : FileRecord
doc_record = new_record doc 0 alice

pub doc-IsName : IsName doc
unfolding is_ascii
doc-IsName = record { ascii = refl; short = omega arith }

pub one_server-Reach : Reach one_server
one_server-Reach = next (start refl) arrival tt refl

pub with_file-Reach : Reach with_file
with_file-Reach = next one_server-Reach creation (doc-IsName, tt) refl
