-- ===== src/NameServer/Router.antt =====
-- The message router: `route_message` of src/name_server/client_handler.c, and the steps of the
-- connection threads as events.
use collaborative_doc.Prelude.{ℕ, Bool, Option, Text, strncpy}
use collaborative_doc.Users
use collaborative_doc.Registry.{SsRegistration, register_storage_server}
use collaborative_doc.Search.{Times, SsFileRecord, search_rebuild_add_file}
use collaborative_doc.NameServer.{
  NameServer, Link, Payload, error, Done, answer, remove_storage_server,
}
use collaborative_doc.NameServer.Commands.{
  handle_create_request, handle_read_request, handle_delete_request, handle_write_request,
  handle_stream_request, handle_undo_request, handle_info_request, handle_checkpoint_request,
  handle_viewcheckpoint_request, handle_revert_request, handle_listcheckpoints_request,
  handle_locate_file_request,
}
use collaborative_doc.NameServer.Moves.{
  handle_create_folder_request, handle_move_file_request, handle_move_folder_request,
}
use collaborative_doc.NameServer.Sharing.{
  AccessControl, Address, handle_add_access, handle_rem_access, handle_list_request,
  handle_ss_dead_report, handle_exec_request,
}

-- A message with its payload, by `msg_type`. The messages `MSG_VIEW` and `MSG_VIEWFOLDER` are not
-- modelled.
pub data Message : Type 0 where
  create read delete write stream undo info list exec : Message
  checkpoint viewcheckpoint revert listcheckpoints locate_file create_folder unknown : Message
  add_access : Payload AccessControl → Message
  rem_access : Payload Text → Message
  move_file move_folder : Payload Text → Message
  ss_dead_report : Payload Address → Message

-- What surrounds one message: the clock, the storage server's socket, `malloc` and `popen`.
pub record Around : Type 0 where
  pub times : Times
  pub link : Link
  pub alloc_ok : Bool
  pub output : Text → Option Text

unfoldable pub route_message : Message → Text → Text → Around → NameServer → Done
route_message create f user e s = handle_create_request f user e.times e.link s
route_message read f user e s = handle_read_request f user e.times s
route_message (add_access p) f user e s = handle_add_access f user p e.times e.link s
route_message (rem_access p) f user e s = handle_rem_access f user p e.times e.link s
route_message exec f user e s = handle_exec_request f user e.times e.link e.alloc_ok e.output s
route_message delete f user e s = handle_delete_request f user e.link s
route_message write f user e s = handle_write_request f user e.times s
route_message stream f user e s = handle_stream_request f user e.times s
route_message undo f user e s = handle_undo_request f user e.times e.link s
route_message info f user e s = handle_info_request f user e.link s
route_message list f user e s = handle_list_request s
route_message (ss_dead_report p) f user e s = handle_ss_dead_report p s
route_message checkpoint f user e s = handle_checkpoint_request f user e.times s
route_message viewcheckpoint f user e s = handle_viewcheckpoint_request f user e.times s
route_message revert f user e s = handle_revert_request f user e.times s
route_message listcheckpoints f user e s = handle_listcheckpoints_request f user e.times s
route_message locate_file f user e s = handle_locate_file_request f e.times s
route_message create_folder f user e s = handle_create_folder_request f user s
route_message (move_file p) f user e s = handle_move_file_request f user p e.link s
route_message (move_folder p) f user e s = handle_move_folder_request f user p e.alloc_ok s
route_message unknown f user e s = answer s (error "Unknown command.")

-- What the name server goes through: the steps of the connection threads, one at a time. A
-- connection of a client starts and ends with `login` and `logout`.
pub data Event : Type 0 where
  login logout : Text → Event
  request : Message → Text → Text → Around → Event
  register : ℕ → Option SsRegistration → Bool → Event
  register_file : ℕ → SsFileRecord → Event
  disconnect : ℕ → Event

-- `strncpy(client_username, filename, 64); client_username[63] = 0;`
abbrev pub login_name : Text → Text
login_name = strncpy 63

unfoldable pub handle : Event → NameServer → NameServer
handle (login name) s = record s { users = Users.register (login_name name) s.users }
handle (logout name) s = record s { users = Users.deregister (login_name name) s.users }
handle (request m f user e) s = (route_message m f user e s).state
handle (register sock_fd p ack_sent) s = record s {
  registry = (register_storage_server sock_fd p ack_sent s.registry).1;
}
handle (register_file ss_index p) s = record s {
  index = search_rebuild_add_file ss_index p s.index;
}
handle (disconnect sock_fd) s = remove_storage_server sock_fd s
