-- ===== src/Clients/Writing.antt =====
-- A write of one client while others work on the same storage server, in `client_handler_thread` of
-- src/storage_server/main.c.
use collaborative_doc.Prelude.{ℕ, none, some, Text}
use collaborative_doc.Undo.{create_file_backup}
use collaborative_doc.Clients.{Server, Around, put_swap, put_document, unlock, update_metadata}

-- The server behind the end of a write.
abbrev after_merge : ℕ → Text → ℕ → Text → Text → Around → Server → Server
after_merge fd f n user final e s =
    let backed_up = (create_file_backup f user e.opens e.now (s.documents f)).1 in
    unlock f n fd (
      update_metadata f e
        (put_swap f n fd none (put_document f (record backed_up { file = some final }) s)))
