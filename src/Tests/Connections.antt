-- ===== src/Tests/Connections.antt =====
-- Runs of the two kinds of connections.
use collaborative_doc.Prelude.{refl, true, false, ◌&&◌, ◌≡◌, some, List, [], ◌∷◌}
use collaborative_doc.Acl.Laws
use collaborative_doc.Search.{SsFileRecord}
use collaborative_doc.Prelude.{pos}
use collaborative_doc.NameServer.{received, init_name_server}
use collaborative_doc.NameServer.Router.{Message}
use collaborative_doc.NameServer.Reach.{Reach, start}
use collaborative_doc.NameServer.Connections.{
  Request, file, handle_client_connection, handle_storage_server_connection,
}
use collaborative_doc.NameServer.Closing.{
  Unused, completes, handle_client_connection-closed, handle_storage_server_connection-closed,
}
use collaborative_doc.NameServer.Router.{login_name}
use collaborative_doc.Users.Laws as UserLaws
use collaborative_doc.Tests.Server.{program}
use collaborative_doc.Tests.Sample.{
  doc, doc-IsName, alice, address, around, one_server, one_server-Reach,
}

abbrev requests : List Request
requests =
    record { message = Message.create; filename = doc; around = around }
    ∷ record { message = Message.exec; filename = doc; around = around }
    ∷ []

handle_client_connection-closed_example :
    Reach (handle_client_connection (some alice) requests one_server).0
    × (UserLaws.listed
          (login_name alice)
          (handle_client_connection (some alice) requests one_server).0.users
        ≡ 0)
handle_client_connection-closed_example =
    handle_client_connection-closed alice requests one_server
      ((doc-IsName, tt), ((doc-IsName, tt), tt)) one_server-Reach

abbrev stored : SsFileRecord
stored = record {
  filename = doc;
  owner_username = alice;
  acl = [];
  word_count = pos 2;
  char_count = pos 9;
  created = pos 1;
  modified = pos 1;
  last_accessed = pos 1;
  last_accessed_by = alice;
  folder = [];
}

nothing_uses : Unused 7 init_name_server.registry.servers
unfolding program
nothing_uses = (refl, (refl, (refl, (refl, (refl, (refl, (refl, (refl, (refl, (refl, tt))))))))))

not_complete : (true && completes (file (received stored) ∷ [])) ≡ false
unfolding completes
not_complete = refl

handle_storage_server_connection-closed_example :
    Reach (
      handle_storage_server_connection true 7
        (some address)
        true
        true
        (file (received stored) ∷ [])
        init_name_server)
    × Unused 7
        (handle_storage_server_connection true 7
          (some address)
          true
          true
          (file (received stored) ∷ [])
          init_name_server).registry.servers
handle_storage_server_connection-closed_example =
    handle_storage_server_connection-closed 7 address true (file (received stored) ∷ [])
      init_name_server (λ i. ((doc-IsName, Laws.empty-IsValid), tt)) (start refl) nothing_uses
      not_complete
