-- ===== src/NameServer/Sharing.antt =====
-- The handlers that change access lists, list the users, report a dead server and execute a
-- file: src/name_server/client_handler.c and src/name_server/executor.c.
use collaborative_doc.Prelude.{ℕ, Bool, Option, none, some, [], ◌∷◌, if◌then◌else◌, Text, ◌==◌}
use collaborative_doc.Acl.{perm_read}
use collaborative_doc.Users
use collaborative_doc.Registry.{get_ss_by_index, get_ss_sock_by_address}
use collaborative_doc.Search.{
  Times, search_check_permission, search_grant_permission, search_remove_permission, copy_filename,
}
use collaborative_doc.NameServer.{
  NameServer, Link, Payload, bad_size, lost, received, error, ack, silent, list_response, executed,
  SsMessage, add_access, rem_access, Done, answer, unchecked, msg_ack, msg_internal_data,
  remove_server_of,
}
use collaborative_doc.NameServer.Commands.{find, with_server, dropped}

-- `AccessControlPayload`
pub record AccessControl : Type 0 where
  pub target_username : Text
  pub permission : ℕ

-- The end of both handlers: the storage server is told, and its answer decides what the client is
-- sent. The name server has changed its record already.
abbrev pub tell_server : Text → Times → Link → NameServer → SsMessage → Done
tell_server f t link s message =
    let (found, s') = find f t s in
    elim found [
      | none ↦ answer s' (error "File is on an inactive server.")
      | some i ↦ elim (get_ss_by_index i s'.registry) [
        | none ↦ answer s' (error "File is on an inactive server.")
        | some ss ↦ record {
          state = s';
          reply =
              if unchecked link == msg_ack
              then ack
              else error "Storage server failed to update ACL.";
          sent = (i, message) ∷ [];
        }
      ]
    ]

unfoldable pub handle_add_access :
    Text → Text → Payload AccessControl → Times → Link → NameServer → Done
handle_add_access f user bad_size t link s = answer s (error "Bad payload for ADD_ACCESS.")
handle_add_access f user lost t link s = answer s silent
handle_add_access f user (received p) t link s =
    let (granted, index) = search_grant_permission f user p.target_username p.permission s.index in
    let s' : NameServer = record s { index = index } in
    if granted
    then tell_server f t link s' (add_access (copy_filename f) p.target_username p.permission)
    else answer s' (error "Access Denied (Not Owner or File Not Found).")

unfoldable pub handle_rem_access : Text → Text → Payload Text → Times → Link → NameServer → Done
handle_rem_access f user bad_size t link s = answer s (error "Bad payload for REM_ACCESS.")
handle_rem_access f user lost t link s = answer s silent
handle_rem_access f user (received target) t link s =
    let (removed, index) = search_remove_permission f user target s.index in
    let s' : NameServer = record s { index = index } in
    if removed
    then tell_server f t link s' (rem_access (copy_filename f) target)
    else answer s' (error "Access Denied (Not Owner or File Not Found).")

abbrev pub user_list_buffer_size : ℕ
user_list_buffer_size = 4096

unfoldable pub handle_list_request : NameServer → Done
handle_list_request s = answer s (list_response (Users.get_list user_list_buffer_size s.users))

-- `SSReadPayload`
pub record Address : Type 0 where
  pub ip_addr : Text
  pub port : ℕ

unfoldable pub handle_ss_dead_report : Payload Address → NameServer → Done
handle_ss_dead_report bad_size s = answer s (error "Bad payload for SS_DEAD_REPORT.")
handle_ss_dead_report lost s = answer s silent
handle_ss_dead_report (received p) s =
    answer (remove_server_of (get_ss_sock_by_address p.ip_addr p.port s.registry) s) ack

-- `alloc_ok` and `output` stand for `malloc` and for `popen` with the lines that it prints.
unfoldable pub handle_exec_request :
    Text → Text → Times → Link → Bool → (Text → Option Text) → NameServer → Done
handle_exec_request f user t link alloc_ok output s =
    with_server (search_check_permission f user perm_read s.index)
      "Access Denied (Read Permission Required)." f t s
      λ i ss s'.
        if link.send_ok
        then elim link.response [
          | none ↦ dropped ss s' "Did not receive valid INTERNAL_DATA from SS." []
          | some m ↦
              if m == msg_internal_data
              then (if alloc_ok
                  then elim link.content [
                    | none ↦ dropped ss s' "Failed to receive file content from SS." []
                    | some content ↦ elim (output content) [
                      | none ↦ answer s' (error "Failed to execute command on server.")
                      | some text ↦ answer s' (executed text)
                    ]
                  ]
                  else answer s' (error "Internal server error (malloc)."))
              else dropped ss s' "Did not receive valid INTERNAL_DATA from SS." []
        ]
        else dropped ss s' "Failed to send INTERNAL_READ to SS." []
