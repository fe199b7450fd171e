-- ===== src/Storage.antt =====
-- What a storage server does with a command of the name server: `handle_ns_commands` of
-- src/storage_server/main.c, one message at a time, without `MSG_UNDO`. The users' files are a
-- function from names to contents.
pub mod Agreement
use collaborative_doc.Prelude.{
  ℕ, ℤ, pos, Bool, true, false, Option, none, some, List, [], ◌∷◌, if◌then◌else◌, Text, text_eq,
  ◌==◌, strncpy,
}
use collaborative_doc.Acl.{AclEntry}
use collaborative_doc.Search.{SsMetadata, copy_username}
use collaborative_doc.NameServer.{Payload, bad_size, lost, received, SsMessage}
use collaborative_doc.Metadata.Format.{FileMeta}
use collaborative_doc.Metadata.{
  Store, Disk, add_metadata_entry, remove_metadata_entry, persist_find_file, persist_set_owner,
  persist_set_acl, persist_remove_acl,
}

pub record StorageServer : Type 0 where
  pub store : Store
  pub files : Text → Option Text

-- The commands by `msg_type`; `other` is every type without a case, `MSG_INTERNAL_SET_FOLDER`
-- among them.
pub data NsCommand : Type 0 where
  create delete get_metadata read other : NsCommand
  set_owner : Payload Text → NsCommand
  add_access : Payload AclEntry → NsCommand
  rem_access : Payload Text → NsCommand

-- What goes back to the name server; it waits for ever where there is nothing.
pub data SsReply : Type 0 where
  ack nothing : SsReply
  metadata : SsMetadata → SsReply
  content : Text → SsReply

-- What surrounds a command: whether `fopen` and `remove` succeed on the user's file, whether
-- metadata.txt opens for writing, `malloc`, and the clock.
pub record Around : Type 0 where
  pub opens : Bool
  pub writable : Bool
  pub alloc_ok : Bool
  pub now : ℤ

abbrev pub disk : (Text → Option Text) → Around → Disk
disk files e = record { read = files; writable = e.writable; now = e.now }

abbrev pub put_file : Text → Option Text → (Text → Option Text) → Text → Option Text
put_file f text files g = if text_eq g f then text else files g

-- The payload is zero where the file has no entry.
abbrev pub metadata_of : Option FileMeta → SsMetadata
metadata_of none = record {
  word_count = pos 0;
  char_count = pos 0;
  created = pos 0;
  last_modified = pos 0;
  last_accessed = pos 0;
  last_accessed_by = [];
}
metadata_of (some m) = record {
  word_count = m.word_count;
  char_count = m.size;
  created = m.created;
  last_modified = m.modified;
  last_accessed = m.last_accessed;
  last_accessed_by = copy_username m.last_accessed_by;
}

-- A file that does not open, or for which there is no memory, is sent as empty.
abbrev pub content_of : Bool → Bool → Option Text → Text
content_of true true (some text) = text
content_of opens alloc_ok file = []

unfoldable pub handle_ns_command :
    NsCommand → Text → Around → StorageServer → SsReply × StorageServer
handle_ns_command create f e s =
    if e.opens
    then (let files = put_file f (some []) s.files in
        (ack, record { store = add_metadata_entry f (disk files e) s.store; files = files }))
    else (nothing, s)
handle_ns_command delete f e s = elim (s.files f) [
  | none ↦ (nothing, s)
  | some text ↦
      if e.opens
      then (let files = put_file f none s.files in
          (ack, record { store = remove_metadata_entry f (disk files e) s.store; files = files }))
      else (nothing, s)
]
handle_ns_command get_metadata f e s = (metadata (metadata_of (persist_find_file f s.store)), s)
handle_ns_command read f e s = (content (content_of e.opens e.alloc_ok (s.files f)), s)
handle_ns_command other f e s = (nothing, s)
handle_ns_command (set_owner (received owner)) f e s =
    (nothing, record s { store = persist_set_owner f owner (disk s.files e) s.store })
handle_ns_command (set_owner bad_size) f e s = (nothing, s)
handle_ns_command (set_owner lost) f e s = (nothing, s)
handle_ns_command (add_access (received a)) f e s =
    (ack, record s { store = persist_set_acl f a.username a.permission (disk s.files e) s.store })
handle_ns_command (add_access bad_size) f e s = (nothing, s)
handle_ns_command (add_access lost) f e s = (nothing, s)
handle_ns_command (rem_access (received target)) f e s =
    (ack, record s { store = persist_remove_acl f target (disk s.files e) s.store })
handle_ns_command (rem_access bad_size) f e s = (nothing, s)
handle_ns_command (rem_access lost) f e s = (nothing, s)

-- A message of the name server that arrives whole; `none` for `MSG_UNDO`, and for
-- `MSG_INTERNAL_SET_FOLDER`, whose payload is taken for the start of the next header.
abbrev pub arrive : SsMessage → Option (NsCommand × Text)
arrive (SsMessage.create f) = some (create, f)
arrive (SsMessage.undo f) = none
arrive (SsMessage.set_folder f folder) = none
arrive (SsMessage.delete f) = some (delete, f)
arrive (SsMessage.set_owner f owner) = some (set_owner (received owner), f)
arrive (SsMessage.add_access f target permission) =
    some (add_access (received (record { username = target; permission = permission })), f)
arrive (SsMessage.rem_access f target) = some (rem_access (received target), f)

abbrev pub handle_message : SsMessage → Around → StorageServer → StorageServer
handle_message message e s = elim (arrive message) [
  | none ↦ s
  | some command ↦ (handle_ns_command command.0 command.1 e s).1
]

-- The messages to one slot are handled in their order.
abbrev pub deliver : ℕ → List (ℕ × SsMessage) → Around → StorageServer → StorageServer
deliver i [] e s = s
deliver i ((j, message) ∷ rest) e s =
    deliver i rest e (if j == i then handle_message message e s else s)
