-- ===== src/Clients/Commands.antt =====
-- The commands of a client on a whole document, and the dispatch of its lines, in
-- `client_handler_thread` of src/storage_server/main.c.
use collaborative_doc.Prelude.{
  ℕ, Bool, true, false, none, some, List, [], ◌∷◌, if◌then◌else◌, Text, text_eq,
}
use collaborative_doc.Locks.{SentenceLock, remove_client_locks, get_client_write_info}
use collaborative_doc.Metadata.{
  add_metadata_entry, remove_metadata_entry, persist_update_last_accessed,
}
use collaborative_doc.Undo
use collaborative_doc.Undo.{Versions, perform_undo}
use collaborative_doc.Checkpoints
use collaborative_doc.Checkpoints.{Saved, create_checkpoint, view_checkpoint, revert_to_checkpoint}
use collaborative_doc.Clients.Streaming.{stream}
use collaborative_doc.Clients.{
  Server, Around, Line, Reply, disk, put_document, update_metadata, handle_etirw, handle_edit,
  handle_write, etirw, exit, edit, create, read, stream_, undo, delete, write, checkpoint, view,
  revert, failed, missing, conflict, created, done, no_history, exists, deleted, unknown, bye,
  empty_text, content, packets,
}

-- Whether any client writes a sentence of the file.
unfoldable pub is_file_locked : Text → List SentenceLock → Bool
is_file_locked f [] = false
is_file_locked f (l ∷ ls) =
    let rest = is_file_locked f ls in if text_eq l.filename f then true else rest

-- The document with what its checkpoints need.
abbrev pub saved_of : Text → Server → Saved
saved_of f s = record {
  document = s.documents f;
  checkpoints = s.checkpoints;
  meta = s.lists f;
  store = s.store;
}

abbrev pub put_saved : Text → Saved → Server → Server
put_saved f saved s = record (put_document f saved.document s) {
  checkpoints = saved.checkpoints;
  lists = λ g. if text_eq g f then saved.meta else s.lists g;
  store = saved.store;
}

-- A file that is there already is emptied.
unfoldable pub handle_create : Text → Around → Server → Reply × Server
handle_create f e s =
    if e.opens.file
    then (let s' = put_document f (record (s.documents f) { file = some [] }) s in
        (created, record s' { store = add_metadata_entry f (disk e s') s.store }))
    else (failed, s)

abbrev pub text_reply : Text → Reply
text_reply [] = empty_text
text_reply (c ∷ text) = content (c ∷ text)

abbrev pub touch : Text → Text → Around → Server → Server
touch f user e s = record s {
  store = persist_update_last_accessed f (some user) (disk e s) s.store;
}

unfoldable pub handle_read : Text → Text → Around → Server → Reply × Server
handle_read f user e s = elim (s.documents f).file [
  | none ↦ (missing, s)
  | some text ↦ (text_reply text, touch f user e s)
]

unfoldable pub handle_stream : Text → Text → Around → Server → Reply × Server
handle_stream f user e s = elim (s.documents f).file [
  | none ↦ (missing, s)
  | some text ↦ (packets (stream text e.controls), touch f user e s)
]

abbrev pub after_undo : Text → Around → Server → Undo.Result × Versions → Reply × Server
after_undo f e s (Undo.done, document) = (done, update_metadata f e (put_document f document s))
after_undo f e s (Undo.nothing, document) = (no_history, put_document f document s)
after_undo f e s (Undo.failed, document) = (failed, put_document f document s)

-- A command on a document that no client writes, and that is there.
abbrev pub guarded : Text → Reply × Server → Server → Reply × Server
guarded f result s =
    if is_file_locked f s.locks
    then (conflict, s)
    else elim (s.documents f).file [ none ↦ (missing, s) | some text ↦ result ]

unfoldable pub handle_undo : Text → Around → Server → Reply × Server
handle_undo f e s = guarded f (after_undo f e s (perform_undo e.opens (s.documents f))) s

abbrev pub is_done : Reply → Bool
is_done done = true
is_done reply = false

-- `MSG_UNDO` of the name server, in `handle_ns_commands`, and whether it is acknowledged; otherwise
-- nothing is sent. No lock is looked at.
unfoldable pub handle_ns_undo : Text → Around → Server → Bool × Server
handle_ns_undo f e s =
    let result = after_undo f e s (perform_undo e.opens (s.documents f)) in
    (is_done result.0, result.1)

abbrev pub checkpoint_reply : Checkpoints.Result → Reply
checkpoint_reply Checkpoints.done = done
checkpoint_reply Checkpoints.already = exists
checkpoint_reply Checkpoints.missing = failed
checkpoint_reply Checkpoints.failed = failed

unfoldable pub handle_checkpoint : Text → Text → Text → Around → Server → Reply × Server
handle_checkpoint f tag user e s =
    let result = create_checkpoint f tag user e.checkpoint_opens e.now (saved_of f s) in
    guarded f (checkpoint_reply result.0, put_saved f result.1 s) s

unfoldable pub handle_view : Text → Text → Server → Reply × Server
handle_view f tag s = elim (view_checkpoint f tag 8192 (saved_of f s)) [
  | none ↦ (missing, s)
  | some text ↦ (text_reply text, s)
]

abbrev pub revert_reply : Checkpoints.Result → Reply
revert_reply Checkpoints.done = done
revert_reply Checkpoints.missing = missing
revert_reply Checkpoints.already = failed
revert_reply Checkpoints.failed = failed

unfoldable pub handle_revert : Text → Text → Text → Around → Server → Reply × Server
handle_revert f tag user e s =
    let result = revert_to_checkpoint f tag user e.opens e.writable e.now (saved_of f s) in
    guarded f (revert_reply result.0, put_saved f result.1 s) s

-- No lock is looked at.
unfoldable pub handle_delete : Text → Around → Server → Reply × Server
handle_delete f e s = elim (s.documents f).file [
  | none ↦ (missing, s)
  | some text ↦
      if e.removable
      then (let s' = put_document f (record (s.documents f) { file = none }) s in
          (deleted, record s' { store = remove_metadata_entry f (disk e s') s.store }))
      else (missing, s)
]

abbrev pub leave : ℕ → Server → Server
leave fd s = record s { locks = remove_client_locks fd s.locks }

-- A line of a client in write mode is an edit of its sentence, or the end of the write.
abbrev pub handle_in_write_mode : ℕ → Text → ℕ → Text → Line → Around → Server → Reply × Server
handle_in_write_mode fd f n user etirw e s = handle_etirw fd f n user e s
handle_in_write_mode fd f n user (edit i new) e s = handle_edit fd f n i new e s
handle_in_write_mode fd f n user line e s = (Reply.unknown, s)

abbrev pub handle_command : ℕ → Text → Line → Around → Server → Reply × Server
handle_command fd user (create f) e s = handle_create f e s
handle_command fd user (read f) e s = handle_read f user e s
handle_command fd user (stream_ f) e s = handle_stream f user e s
handle_command fd user (write f n) e s = handle_write fd f n e s
handle_command fd user (undo f) e s = handle_undo f e s
handle_command fd user (checkpoint f tag) e s = handle_checkpoint f tag user e s
handle_command fd user (view f tag) e s = handle_view f tag s
handle_command fd user (revert f tag) e s = handle_revert f tag user e s
handle_command fd user (delete f) e s = handle_delete f e s
handle_command fd user exit e s = (bye, leave fd s)
handle_command fd user line e s = (unknown, s)

-- A line from the descriptor `fd`.
unfoldable pub handle_line : ℕ → Text → Line → Around → Server → Reply × Server
handle_line fd user line e s = elim (get_client_write_info fd s.locks) [
  | none ↦ handle_command fd user line e s
  | some current ↦ handle_in_write_mode fd current.0 current.1 user line e s
]

-- A line with the client that sends it, and what surrounds it.
pub record Event : Type 0 where
  pub fd : ℕ
  pub user : Text
  pub line : Line
  pub around : Around

-- The lines in the order in which they are handled.
unfoldable pub run : List Event → Server → Server
run [] s = s
run (v ∷ vs) s = run vs (handle_line v.fd v.user v.line v.around s).1
