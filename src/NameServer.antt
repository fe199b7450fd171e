-- ===== src/NameServer.antt =====
-- The state of the name server, and the steps that its parts share: `remove_storage_server` of
-- src/name_server/storage_manager.c with its purge, the requests and answers of
-- src/name_server/client_handler.c and executor.c, and what a storage server does on its socket.
-- A handler is one sequential run: what other threads do in between is not modelled.
pub mod Commands
pub mod Sharing
pub mod Moves
pub mod Router
pub mod Invariant
pub mod Steps
pub mod Rearranged
pub mod Reach
pub mod Redirects
pub mod Files
pub mod Connections
pub mod Closing
use collaborative_doc.Prelude.{
  ℕ, ◌+◌, ℤ, Bool, true, false, Option, none, some, List, [], ◌∷◌, if◌then◌else◌, Text, ◌==◌,
}
use Prim.Native.String.{String}
use collaborative_doc.Acl.{Acl}
use collaborative_doc.Users.{init_user_manager}
use collaborative_doc.Folders.{FolderRecord}
use collaborative_doc.Registry.{Registry, init_storage_manager, clear_slot}
use collaborative_doc.Search.{Index, FileRecord, SsMetadata, init_search_trie, search_purge_by_ss}

pub record NameServer : Type 0 where
  pub index : Index
  pub registry : Registry
  pub users : List Text
  pub folders : List FolderRecord

abbrev pub init_name_server : NameServer
init_name_server = record {
  index = init_search_trie;
  registry = init_storage_manager;
  users = init_user_manager;
  folders = [];
}

-- The files of the slot that was cleared are purged.
unfoldable pub remove_storage_server : ℕ → NameServer → NameServer
remove_storage_server sock_fd s =
    let (slot, registry) = clear_slot sock_fd s.registry in
    elim slot [
      | none ↦ record s { registry = registry }
      | some i ↦ record s { registry = registry; index = search_purge_by_ss i s.index }
    ]

-- The socket of a server as an argument: -1 matches no active server.
unfoldable pub remove_server_of : Option ℕ → NameServer → NameServer
remove_server_of none s = s
remove_server_of (some sock_fd) s = remove_storage_server sock_fd s

abbrev pub msg_ack : ℕ
msg_ack = 11

abbrev pub msg_internal_data : ℕ
msg_internal_data = 101

abbrev pub msg_internal_metadata_resp : ℕ
msg_internal_metadata_resp = 103

-- How a storage server's socket behaves during a request: whether a header can be sent, the type
-- of the header that comes back (`none` if none does), what the uninitialised header holds that
-- some handlers read in that case, and the payloads that follow.
pub record Link : Type 0 where
  pub send_ok : Bool
  pub response : Option ℕ
  pub leftover : ℕ
  pub metadata : Option SsMetadata
  pub content : Option Text

-- `ss_response.msg_type`, where the result of `recv_header` is not looked at.
abbrev pub unchecked : Link → ℕ
unchecked link = elim link.response [ none ↦ link.leftover | some m ↦ m ]

-- A payload that is announced with a wrong size, that does not arrive, or that does.
pub data Payload {ℓ} (A : Type ℓ) : Type ℓ where
  bad_size lost : Payload A
  received : A → Payload A

-- `FileInfoPayload`
pub record FileInfo : Type 0 where
  pub filename : Text
  pub owner_username : Text
  pub ss_ip : Text
  pub ss_port : ℕ
  pub acl : Acl
  pub word_count : ℤ
  pub char_count : ℤ
  pub created : ℤ
  pub last_modified : ℤ
  pub last_accessed : ℤ
  pub last_accessed_by : Text

-- What the client is sent; `silent` if the handler returns without an answer.
pub data Reply : Type 0 where
  error : String → Reply
  ack silent : Reply
  read_redirect : Text → ℕ → Reply
  locate_response : Text → ℕ → Reply
  info_response : FileInfo → Reply
  list_response : Text → Reply
  executed : Text → Reply

-- The messages to a storage server that carry a change.
pub data SsMessage : Type 0 where
  create undo delete : Text → SsMessage
  set_owner : Text → Text → SsMessage
  add_access : Text → Text → ℕ → SsMessage
  rem_access : Text → Text → SsMessage
  set_folder : Text → Text → SsMessage

-- What a handler leaves: the state, the answer, and what it sent to which slot, in order.
pub record Done : Type 0 where
  pub state : NameServer
  pub reply : Reply
  pub sent : List (ℕ × SsMessage)

abbrev pub answer : NameServer → Reply → Done
answer s r = record { state = s; reply = r; sent = [] }
