-- ===== src/NameServer/Commands.antt =====
-- The handlers of src/name_server/client_handler.c and `handle_exec_request` of
-- src/name_server/executor.c, but those for folders and listings of files.
use collaborative_doc.Prelude.{
  ℕ, Bool, false, Option, none, some, List, [], ◌∷◌, map, if◌then◌else◌, Text, ◌==◌, strncpy,
}
use Prim.Native.String.{String}
use collaborative_doc.Acl.{perm_read, perm_write}
use collaborative_doc.Cache.{cache_invalidate}
use collaborative_doc.Registry.{StorageServerInfo, get_ss_by_index, get_ss_for_new_file}
use collaborative_doc.Search.{
  Index, Times, FileRecord, SsMetadata, Outcome, success, not_found, access_denied,
  search_find_file, search_check_permission, search_add_file, search_delete_file,
  search_get_file_details, copy_entry, copy_filename, copy_username,
}
use collaborative_doc.NameServer.{
  NameServer, Link, FileInfo, error, ack, read_redirect, locate_response, info_response, SsMessage,
  create, undo, delete, set_owner, Done, answer, msg_ack, msg_internal_metadata_resp,
  remove_server_of,
}

-- `search_find_file` on the state.
abbrev pub find : Text → Times → NameServer → Option ℕ × NameServer
find f t s =
    let (found, index) = search_find_file f t s.index in (found, record s { index = index })

-- The part that the commands share which need a server: the permission, the file, its server.
-- `continue` goes on with the slot, its entry and the state.
unfoldable pub with_server :
    Bool → String → Text → Times → NameServer → (ℕ → StorageServerInfo → NameServer → Done) → Done
with_server allowed denied f t s continue =
    if allowed
    then (let (found, s') = find f t s in
        elim found [
          | none ↦ answer s' (error "File not found.")
          | some i ↦ elim (get_ss_by_index i s'.registry) [
            | none ↦ answer s' (error "File is on an inactive server.")
            | some ss ↦ continue i ss s'
          ]
        ])
    else answer s (error denied)

-- The answer of the commands that send the client to a storage server.
abbrev pub send_redirect : ℕ → StorageServerInfo → NameServer → Done
send_redirect i ss s = answer s (read_redirect (strncpy 64 ss.ip_addr) ss.client_facing_port)

abbrev pub redirect : ℕ → String → Text → Text → Times → NameServer → Done
redirect permission denied f user t s =
    with_server (search_check_permission f user permission s.index) denied f t s send_redirect

unfoldable pub handle_read_request : Text → Text → Times → NameServer → Done
handle_read_request = redirect perm_read "Access Denied."

unfoldable pub handle_write_request : Text → Text → Times → NameServer → Done
handle_write_request = redirect perm_write "Access Denied (Write Permission Required)."

unfoldable pub handle_stream_request : Text → Text → Times → NameServer → Done
handle_stream_request = redirect perm_read "Access Denied (Read Permission Required)."

unfoldable pub handle_checkpoint_request : Text → Text → Times → NameServer → Done
handle_checkpoint_request = redirect perm_write "Access Denied (Write Permission Required)."

unfoldable pub handle_viewcheckpoint_request : Text → Text → Times → NameServer → Done
handle_viewcheckpoint_request = redirect perm_read "Access Denied (Read Permission Required)."

unfoldable pub handle_revert_request : Text → Text → Times → NameServer → Done
handle_revert_request = redirect perm_write "Access Denied (Write Permission Required)."

unfoldable pub handle_listcheckpoints_request : Text → Text → Times → NameServer → Done
handle_listcheckpoints_request = redirect perm_read "Access Denied (Read Permission Required)."

-- Nobody's permission is asked.
unfoldable pub handle_locate_file_request : Text → Times → NameServer → Done
handle_locate_file_request f t s =
    let (found, s') = find f t s in
    elim found [
      | none ↦ answer s' (error "File not found in any storage server")
      | some i ↦ elim (get_ss_by_index i s'.registry) [
        | none ↦ answer s' (error "File is on an inactive server")
        | some ss ↦ answer s' (locate_response (strncpy 64 ss.ip_addr) ss.client_facing_port)
      ]
    ]

-- The server is dropped if it cannot be reached or does not answer.
abbrev pub dropped : StorageServerInfo → NameServer → String → List (ℕ × SsMessage) → Done
dropped ss s message sent = record {
  state = remove_server_of ss.ss_socket_fd s;
  reply = error message;
  sent = sent;
}

unfoldable pub handle_create_request : Text → Text → Times → Link → NameServer → Done
handle_create_request f user t link s =
    let (existing, s1) = find f t s in
    elim existing [
      | some i ↦ answer s1 (error "File already exists.")
      | none ↦
          let (slot, registry) = get_ss_for_new_file s1.registry in
          let s2 : NameServer = record s1 { registry = registry } in
          elim slot [
            | none ↦ answer s2 (error "No active storage servers available.")
            | some i ↦ elim (get_ss_by_index i registry) [
              | none ↦ answer s2 (error "No active storage servers available.")
              | some ss ↦
                  if link.send_ok
                  then elim link.response [
                    | none ↦
                        dropped ss s2 "Storage server disconnected or failed to respond."
                          ((i, create f) ∷ [])
                    | some m ↦
                        if m == msg_ack
                        then record {
                          state = record s2 { index = search_add_file f i user s2.index };
                          reply = ack;
                          sent = (i, create f) ∷ (i, set_owner (copy_filename f) user) ∷ [];
                        }
                        else record {
                          state = s2;
                          reply = error "Storage server failed to create the file.";
                          sent = (i, create f) ∷ [];
                        }
                  ]
                  else dropped ss s2 "Failed to communicate with storage server." []
            ]
          ]
    ]

-- The record and the cache entry go first; whatever the server answers, the client has an
-- acknowledgement.
abbrev pub after_delete : Text → Link → NameServer → Outcome × Index → Done
after_delete f link s (not_found, index) =
    answer (record s { index = index }) (error "File not found.")
after_delete f link s (access_denied, index) =
    answer (record s { index = index }) (error "Access Denied (Only owner can delete).")
after_delete f link s (success i, index) =
    let s1 : NameServer = record s {
      index = record index { cache = cache_invalidate f index.cache };
    } in
    elim (get_ss_by_index i s1.registry) [
      | none ↦ answer s1 ack
      | some ss ↦
          if link.send_ok
          then record {
            state = elim link.response [ none ↦ remove_server_of ss.ss_socket_fd s1 | some m ↦ s1 ];
            reply = ack;
            sent = (i, delete f) ∷ [];
          }
          else answer (remove_server_of ss.ss_socket_fd s1) ack
    ]

unfoldable pub handle_delete_request : Text → Text → Link → NameServer → Done
handle_delete_request f user link s = after_delete f link s (search_delete_file f user s.index)

unfoldable pub handle_undo_request : Text → Text → Times → Link → NameServer → Done
handle_undo_request f user t link s =
    with_server (search_check_permission f user perm_write s.index)
      "Access Denied (Write Permission Required)." f t s
      λ i ss s'.
        if link.send_ok
        then elim link.response [
          | none ↦
              dropped ss s' "Storage server disconnected or failed to respond." ((i, undo f) ∷ [])
          | some m ↦ record {
            state = s';
            reply = if m == msg_ack then ack else error "Storage server failed to perform undo.";
            sent = (i, undo f) ∷ [];
          }
        ]
        else dropped ss s' "Failed to communicate with storage server." []

-- The counts and times come from the storage server, the rest from the record.
abbrev pub file_info : FileRecord → StorageServerInfo → SsMetadata → FileInfo
file_info r ss m = record {
  filename = copy_filename r.filename;
  owner_username = copy_username r.owner_username;
  ss_ip = strncpy 63 ss.ip_addr;
  ss_port = ss.client_facing_port;
  acl = map copy_entry r.acl;
  word_count = m.word_count;
  char_count = m.char_count;
  created = m.created;
  last_modified = m.last_modified;
  last_accessed = m.last_accessed;
  last_accessed_by = copy_username m.last_accessed_by;
}

abbrev is_response : ℕ → Option ℕ → Bool
is_response wanted none = false
is_response wanted (some m) = m == wanted

unfoldable pub handle_info_request : Text → Text → Link → NameServer → Done
handle_info_request f user link s =
    if search_check_permission f user perm_read s.index
    then elim (search_get_file_details f s.index) [
      | none ↦ answer s (error "File not found.")
      | some r ↦ elim (get_ss_by_index r.ss_index s.registry) [
        | none ↦ answer s (error "File is on an inactive server.")
        | some ss ↦
            if link.send_ok
            then (if is_response msg_internal_metadata_resp link.response
                then elim link.metadata [
                  | none ↦ dropped ss s "Failed to receive metadata payload." []
                  | some m ↦ answer s (info_response (file_info r ss m))
                ]
                else dropped ss s "Storage server failed to send metadata." [])
            else dropped ss s "Failed to communicate with storage server." []
      ]
    ]
    else answer s (error "Access Denied (Read Permission Required).")
