-- ===== src/Lib.antt =====
-- Verification of the name server and parts of the storage server of a collaborative document
-- service written in C.
--
-- The service has a name server, storage servers and clients, which talk over TCP with a fixed
-- header and payloads that are C structs (include/protocol.h). The name server knows which file
-- is on which storage server and who may use it. It runs a thread for each connection. A client
-- logs in and sends commands; the name server answers them itself, sends the client on to a
-- storage server, or has a storage server carry them out. A storage server registers, sends the
-- list of its files, and from then on is asked over its socket. This library models the name
-- server: its tables, its message handlers, and the connections that drive them; of the storage
-- server the metadata with its file, the commands of the name server, the lines of clients with the
-- locks on sentences, the edits of a sentence and their merge into the document, backups with undo,
-- checkpoints, and the requests for access; and the loops of the transport.
--
-- Which file models which part:
--   Prelude       Shared names. Prelude/Table has the loops over bounded arrays (search, update
--                 in place, removal by the last entry), Prelude/CString the C strings, Prelude/Int
--                 the signed counts and times that are only passed on.
--   Users         src/name_server/user_manager.c: `register` is `user_manager_register`,
--                 `deregister` and `get_list` likewise.
--   Cache         src/name_server/cache.c and include/cache.h, with the names of the source.
--   Acl           The access lists in src/name_server/search.c (and the same code in
--                 src/storage_server/persistence.c).
--   Trie          The trie of src/name_server/search.c: `find_record` is `find_file_record`,
--                 `find_strict` the walk of `search_delete_file`, `write_record` the walk that
--                 creates nodes with a write of `file_info`.
--   Search        The functions of src/name_server/search.c on the trie and the cache, with
--                 their names; `purge_trie` and `purge_cache` are `recursive_purge_by_ss`.
--   Folders       The registry of folders and the folder of a file, of src/name_server/search.c:
--                 `search_add_folder`, `search_find_folder` and `search_set_file_folder`;
--                 Folders/Move has `search_move_folder`, Folders/Listing `search_get_file_list` and
--                 `search_get_files_in_folder`.
--   Registry      src/name_server/storage_manager.c: the slots of storage servers and the round
--                 robin; `clear_slot` is the locked part of `remove_storage_server`.
--   NameServer    The state of all parts and `remove_storage_server`. NameServer/Commands,
--                 NameServer/Sharing and NameServer/Moves have the handlers of
--                 src/name_server/client_handler.c and src/name_server/executor.c,
--                 NameServer/Router `route_message` and the events,
--                 NameServer/Connections the two functions that a thread runs. The other files
--                 there are proofs: the invariant and its steps, the reachable states, what the
--                 ends of connections leave behind (NameServer/Closing), and what the requests do.
--   Locks         The sentence locks of src/storage_server/main.c: `lock_step` is what a client's
--                 thread does to them, with the test and the taking of a lock as one step;
--                 Locks/Race has the two critical sections apart.
--   Strings       What the code uses of the C library on texts: `strtok_r`, `fgets`, `atol`, `sscanf`
--                 and the decimal numbers of `fprintf`.
--   Metadata      src/storage_server/persistence.c with its names: the table of files, and
--                 metadata.txt as a text that Metadata/Format writes and Metadata/Load reads.
--   Storage       `handle_ns_commands` of src/storage_server/main.c: what a storage server does with
--                 the messages of the name server (`MSG_UNDO` is `handle_ns_undo` of
--                 Clients/Commands). Storage/Agreement puts both servers together.
--   Documents     `get_sentence_info_simple` of src/storage_server/main.c.
--   Editing       The part of `client_handler_thread` there that works on texts: `insert_content` is
--                 the insertion of words into the text of a swap file, `merge` the step of `ETIRW`
--                 that puts the client's sentence into the document. Editing/Sentences and
--                 Editing/Shapes describe a document as a list of sentences, each a list of words;
--                 the other files there show what insertion and merge do to that list.
--   Clients       `client_handler_thread` by the lines of a client: `handle_etirw`, `handle_edit` and
--                 `handle_write` are the writing session, Clients/Commands has the other commands
--                 and `handle_line`, which tells a client in write mode from the others,
--                 Clients/Streaming the stream of words. Clients/Steps is the relation of the steps
--                 that a line can take, Clients/Handled shows that every handler takes one; the other
--                 files there are proofs.
--   Requests      The requests for access of src/storage_server/main.c: `request_file_access`,
--                 `approve_access_request`, `deny_access_request`, and their three commands.
--   Undo          `create_file_backup` and `perform_undo` of src/storage_server/main.c.
--   Checkpoints   `create_checkpoint`, `view_checkpoint` and `revert_to_checkpoint` there.
--   Transport     src/common/protocol.c, over a socket that is a parameter.
--   Tests         Runs on concrete inputs, among them one of each theorem below.
--
-- How the code is modelled:
--   * A name is the list of its bytes before the zero, and `strncpy` into a buffer takes a prefix.
--     Where a buffer from `malloc` or the stack is filled to its last byte, the byte behind it is
--     taken to be zero.
--   * A byte of 128 or more is a negative `char`: the walks of the trie skip or reject it.
--     The invariant is about ASCII names, because the file cache keys on all bytes of a name and
--     the trie on the ASCII ones only.
--   * -1 is `none` where it is no error code of its own. The readings of `time` are arguments,
--     in the order of the calls. File sizes and times are integers that are passed on.
--   * A null pointer of the trie is a constructor, and its array of children a function; a write
--     through a pointer rebuilds the path to it. Memory is not freed, and `malloc` succeeds but in
--     the functions that look at its result.
--   * A handler is a function from the state to a state, an answer and what was sent to storage
--     servers. What the storage server's socket does is an argument (`Link`), as are `malloc` and
--     `popen` (`Around`); so a theorem about a handler holds however they behave. Sends to the
--     client are taken to succeed: their result only ends the handler early.
--   * A handler runs as one step: a run of the name server is a sequence of handlers of all
--     connections in any order, but a thread that is interrupted between two critical sections
--     of one handler is not modelled.
--   * The loops are recursion on the structure: the array, the name, the trie or the messages
--     that arrive; the scan of the round robin counts its ten slots. The loops of the transport and
--     of `strtok` run on fuel: a unit for each byte that is left, as each round takes one at least.
--     The sort of backups has a round for each entry.
--   * A file of the storage server is the text that it holds, or `none` where there is none; whether
--     it opens is an argument. A text has no zero byte. A write that starts succeeds to the end.
--   * A socket keeps the order of the bytes, and takes and gives any part of them: these are the
--     hypotheses of Transport, `IsStream` and `Delivers`.
--
--   * A line of a client of the storage server is handled as one step, with its command and arguments
--     read. A swap file is the document of its name, as it lies in the same directory. Different names
--     are different files: the names in lines have no slash (the code does not test it, and `./f` is `f`).
--   * Where `client_handler_thread` writes behind the end of an array, what it does is undefined: the
--     insertion and the merge then give `overflow` and `none`, for a word of more than 511 bytes, a
--     sentence of more than 256 words, a result of more than 1024 words or of more than 8191 bytes;
--     the reply is `undefined`, and the state stays as it is.
--
-- Not modelled: the refresh of the metadata for a long listing, the handlers of listings and the
-- formatting of their lines (in src/name_server/search.c and client_handler.c), the sockets (src/common/socket_utils.c), the log (src/common/logger.c), the
-- start of the processes (main.c, init.c): these are formatting and system calls. Of the storage
-- server (src/storage_server/main.c) the reading of a client's command line by `sscanf`, and the lists
-- of checkpoints and requests, which are formatting too. The storage server has no case for the
-- message about a folder.
-- The client (src/client/main.c) is a command line over the protocol.
pub mod Prelude
pub mod Strings
pub mod Users
pub mod Cache
pub mod Acl
pub mod Trie
pub mod Search
pub mod Registry
pub mod NameServer
pub mod Metadata
pub mod Storage
pub mod Folders
pub mod Locks
pub mod Tests
pub mod Transport
pub mod Documents
pub mod Requests
pub mod Undo
pub mod Checkpoints
pub mod Editing
pub mod Clients
