-- ===== src/Tests/Storage.antt =====
-- Runs of a storage server behind the name server.
use collaborative_doc.Prelude.{
  ◌≡◌, refl, pos, true, none, some, [], ◌∷◌, arith, find_index, text_eq,
}
use collaborative_doc.Metadata.Format.{FileMeta}
use collaborative_doc.Metadata.{persist_find_file}
use collaborative_doc.NameServer.{received}
use collaborative_doc.NameServer.Sharing.{AccessControl, handle_add_access, handle_rem_access}
use collaborative_doc.NameServer.Reach.{Reach-IsValid}
use collaborative_doc.Storage.{StorageServer, Around, deliver}
use collaborative_doc.Storage.Agreement.{Agree, handle_add_access-Agree, handle_rem_access-Agree}
use collaborative_doc.Tests.Sample.{
  doc, alice, bob, clock, working, with_file, doc_record, doc-IsName, with_file-Reach,
}
use collaborative_doc.Tests.Server.{created}

abbrev stored : FileMeta
stored = record {
  filename = doc;
  size = pos 0;
  word_count = pos 0;
  created = pos 1700000000;
  modified = pos 1700000000;
  last_accessed = pos 1700000000;
  last_accessed_by = [];
  owner_username = alice;
  folder = [];
  acl = [];
}

abbrev server : StorageServer
server = record {
  store = record { file_table = stored ∷ []; metadata = none };
  files = λ f. some [];
}

abbrev around : Around
around = record { opens = true; writable = true; alloc_ok = true; now = pos 1700000003 }

kept : persist_find_file doc server.store ≡ some stored
unfolding persist_find_file find_index text_eq
kept = refl

abbrev both : Agree doc with_file server
both = record {
  known = doc_record;
  stored = stored;
  found = created;
  kept = kept;
  owner = refl;
  acl = refl;
}

abbrev reader : AccessControl
reader = record { target_username = bob; permission = 1 }

handle_add_access-Agree_example :
    Agree doc (handle_add_access doc alice (received reader) clock working with_file).state (
      deliver 0
        (handle_add_access doc alice (received reader) clock working with_file).sent
        around
        server)
handle_add_access-Agree_example =
    handle_add_access-Agree doc alice reader clock working around with_file server both doc-IsName
      (omega arith) (Reach-IsValid with_file-Reach)

handle_rem_access-Agree_example :
    Agree doc (handle_rem_access doc alice (received bob) clock working with_file).state (
      deliver 0
        (handle_rem_access doc alice (received bob) clock working with_file).sent
        around
        server)
handle_rem_access-Agree_example =
    handle_rem_access-Agree doc alice bob clock working around with_file server both doc-IsName
      (Reach-IsValid with_file-Reach)
