-- ===== src/NameServer/Moves.antt =====
-- The handlers for folders of src/name_server/client_handler.c.
use collaborative_doc.Prelude.{
  ℕ, Bool, Option, none, some, List, [], ◌∷◌, if◌then◌else◌, Text, ◌==◌,
}
use collaborative_doc.Registry.{Registry, get_ss_by_index}
use collaborative_doc.Search.{success, not_found, access_denied, copy_filename}
use collaborative_doc.Folders.{search_add_folder, search_set_file_folder}
use collaborative_doc.Folders.Move.{MoveFileUpdate, search_move_folder}
use collaborative_doc.NameServer.{
  NameServer, Link, Payload, bad_size, lost, received, error, ack, silent, SsMessage, set_folder,
  Done, answer, msg_ack,
}

unfoldable pub handle_create_folder_request : Text → Text → NameServer → Done
handle_create_folder_request f user s =
    let (added, folders) = search_add_folder f user s.folders in
    answer (record s { folders = folders })
      (if added then ack else error "Folder already exists or could not be created.")

-- Whether the header that comes back is an acknowledgement.
abbrev pub acked : Option ℕ → Bool
acked none = Bool.false
acked (some m) = m == msg_ack

unfoldable pub handle_move_file_request : Text → Text → Payload Text → Link → NameServer → Done
handle_move_file_request f user bad_size link s = answer s (error "Bad payload for MOVE.")
handle_move_file_request f user lost link s = answer s silent
handle_move_file_request f user (received foldername) link s =
    let (outcome, index) = search_set_file_folder f foldername user s.index in
    let s' : NameServer = record s { index = index } in
    elim outcome as (λ x. Done) [
      | not_found ↦ answer s' (error "File not found.")
      | access_denied ↦ answer s' (error "Access Denied (Only owner can move file).\n")
      | success i ↦ elim (get_ss_by_index i s'.registry) [
        | none ↦ answer s' (error "File is on an inactive server.")
        | some ss ↦ record {
          state = s';
          reply =
              if acked link.response then ack else error "Storage server failed to update folder.";
          sent = (i, set_folder (copy_filename f) foldername) ∷ [];
        }
      ]
    ]

-- The messages to the servers of the files that moved; one that is not active is passed over.
abbrev pub notify : Registry → List MoveFileUpdate → List (ℕ × SsMessage)
notify registry [] = []
notify registry (u ∷ us) = elim (get_ss_by_index u.ss_index registry) [
  | none ↦ notify registry us
  | some ss ↦ (u.ss_index, set_folder (copy_filename u.filename) u.folder) ∷ notify registry us
]

abbrev pub max_updates : ℕ
max_updates = 4096

-- What the storage servers answer is not looked at.
unfoldable pub handle_move_folder_request : Text → Text → Payload Text → Bool → NameServer → Done
handle_move_folder_request src user bad_size alloc_ok s =
    answer s (error "Bad payload for MOVEFOLDER.")
handle_move_folder_request src user lost alloc_ok s = answer s silent
handle_move_folder_request src user (received dst) alloc_ok s =
    if alloc_ok
    then (let moved = search_move_folder src dst user max_updates s.folders s.index in
        elim moved.out_updates as (λ x. Done) [
          | none ↦ answer s (error "Folder move failed (not found or permission denied).")
          | some updates ↦ record {
            state = record s { folders = moved.folder_registry; index = moved.index };
            reply = ack;
            sent = notify s.registry updates;
          }
        ])
    else answer s (error "Internal server error.")
