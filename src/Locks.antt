-- ===== src/Locks.antt =====
-- The sentence locks of a storage server: `sentence_lock_t` and its functions in
-- src/storage_server/main.c, and the parts of `client_handler_thread` there that take and release
-- a lock. A node of the linked list is an entry of a list, the newest first.
pub mod Exclusion
pub mod Race
use collaborative_doc.Prelude.{
  ℕ, Bool, true, false, ◌&&◌, not, Option, none, some, List, [], ◌∷◌, if◌then◌else◌, Text, text_eq,
  ◌==◌,
}

pub record SentenceLock : Type 0 where
  pub filename : Text
  pub sentence_num : ℕ
  pub client_fd : ℕ

-- `strcmp(curr->filename, filename) == 0 && curr->sentence_num == sentence_num`
abbrev pub is_on : Text → ℕ → SentenceLock → Bool
is_on filename sentence_num l = text_eq l.filename filename && (l.sentence_num == sentence_num)

-- Whether another client has a lock on the sentence.
unfoldable pub is_sentence_locked : Text → ℕ → ℕ → List SentenceLock → Bool
is_sentence_locked filename sentence_num client_fd [] = false
is_sentence_locked filename sentence_num client_fd (l ∷ ls) =
    let rest = is_sentence_locked filename sentence_num client_fd ls in
    if is_on filename sentence_num l && not (l.client_fd == client_fd) then true else rest

-- Nothing is added if `malloc` fails.
unfoldable pub add_sentence_lock : Bool → Text → ℕ → ℕ → List SentenceLock → List SentenceLock
add_sentence_lock alloc_ok filename sentence_num client_fd ls =
    if alloc_ok
    then record { filename = filename; sentence_num = sentence_num; client_fd = client_fd } ∷ ls
    else ls

-- The first lock of the client on the sentence goes.
unfoldable pub remove_sentence_lock : Text → ℕ → ℕ → List SentenceLock → List SentenceLock
remove_sentence_lock filename sentence_num client_fd [] = []
remove_sentence_lock filename sentence_num client_fd (l ∷ ls) =
    let rest = remove_sentence_lock filename sentence_num client_fd ls in
    if is_on filename sentence_num l && (l.client_fd == client_fd) then ls else l ∷ rest

-- Every lock of the client goes.
unfoldable pub remove_client_locks : ℕ → List SentenceLock → List SentenceLock
remove_client_locks client_fd [] = []
remove_client_locks client_fd (l ∷ ls) =
    let rest = remove_client_locks client_fd ls in
    if l.client_fd == client_fd then rest else l ∷ rest

-- The sentence that the client writes, if it is in write mode.
unfoldable pub get_client_write_info : ℕ → List SentenceLock → Option (Text × ℕ)
get_client_write_info client_fd [] = none
get_client_write_info client_fd (l ∷ ls) =
    let rest = get_client_write_info client_fd ls in
    if l.client_fd == client_fd then some (l.filename, l.sentence_num) else rest

-- What a client's thread does to the locks: `WRITE` of a sentence that may be locked, with
-- `malloc`; `ETIRW`; and the end of the connection.
pub data LockEvent : Type 0 where
  write : Text → ℕ → ℕ → Bool → LockEvent
  finish : ℕ → LockEvent
  close : ℕ → LockEvent

-- A client in write mode has its lines read as edits, so that it cannot ask for another lock. The
-- test and the addition of a lock are one step here.
unfoldable pub lock_step : LockEvent → List SentenceLock → List SentenceLock
lock_step (write filename sentence_num client_fd alloc_ok) ls =
    elim (get_client_write_info client_fd ls) [
      | some current ↦ ls
      | none ↦
          if is_sentence_locked filename sentence_num client_fd ls
          then ls
          else add_sentence_lock alloc_ok filename sentence_num client_fd ls
    ]
lock_step (finish client_fd) ls = elim (get_client_write_info client_fd ls) [
  | none ↦ ls
  | some current ↦ remove_sentence_lock current.0 current.1 client_fd ls
]
lock_step (close client_fd) ls = remove_client_locks client_fd ls
