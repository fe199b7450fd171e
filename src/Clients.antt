-- ===== src/Clients.antt =====
-- The connection of a client with a storage server: `client_handler_thread` of
-- src/storage_server/main.c, one line of the client at a time, without the commands on requests for
-- access, which Requests.antt has, and without VIEWREQUESTS and LISTCHECKPOINTS. The documents and the
-- lists of checkpoints are functions from names; a swap file is the document of its name, as both
-- lie in one directory. Different names are different files here: the names in the lines have no
-- slash, by which `./f` is `f` as well, as the code does not test.
pub mod Streaming
pub mod Commands
pub mod Available
pub mod SwapFiles
pub mod Steps
pub mod Handled
pub mod Safety
pub mod Others
pub mod Exclusion
pub mod Writing
use collaborative_doc.Prelude.{
  ℕ, zero, suc, ◌+◌, ◌-◌, ℤ, pos, negsuc, Bool, true, false, ◌&&◌, Option, none, some, List, [],
  ◌++◌, bytes, ◌∷◌, if◌then◌else◌, Text, text_eq, length, take, get_elem?, ltb, ◌==◌, last_or,
}
use collaborative_doc.Documents.{SentenceInfo, get_sentence_info_simple, words_of, content_size}
use collaborative_doc.Editing.{
  max_sentences, ends, merge, insert_content, Update, updated, empty_file, only_first_word,
  out_of_range, overflow,
}
use collaborative_doc.Strings.Decimal.{print_int}
use collaborative_doc.Locks.{
  SentenceLock, is_sentence_locked, add_sentence_lock, remove_sentence_lock, remove_client_locks,
  get_client_write_info,
}
use collaborative_doc.Metadata.{
  Store, Disk, add_metadata_entry, remove_metadata_entry, update_metadata_entry,
  persist_update_last_accessed,
}
use collaborative_doc.Undo.{Versions, Opens, create_file_backup, perform_undo, text_of}
use collaborative_doc.Checkpoints.{
  Saved, CheckpointOpens, create_checkpoint, view_checkpoint, revert_to_checkpoint,
}
use collaborative_doc.Clients.Streaming.{Control, Packet, stream}

pub record Server : Type 0 where
  pub documents : Text → Versions
  pub checkpoints : Text → Option Text
  pub lists : Text → Option Text
  pub store : Store
  pub locks : List SentenceLock

-- What surrounds a line: which files open for writing, whether `remove` succeeds, `malloc`, the
-- clock, and what the client sends while it is streamed to.
pub record Around : Type 0 where
  pub opens : Opens
  pub checkpoint_opens : CheckpointOpens
  pub swap_opens : Bool
  pub removable : Bool
  pub writable : Bool
  pub alloc_ok : Bool
  pub now : ℤ
  pub controls : List Control

-- The lines of a client, by the commands and their arguments.
pub data Line : Type 0 where
  etirw exit invalid : Line
  edit : ℤ → Text → Line
  create read stream_ undo delete : Text → Line
  write : Text → ℤ → Line
  checkpoint view revert : Text → Text → Line

-- The replies; `undefined` stands for what the code does where it writes behind the end of an
-- array, which leaves the state here as it is.
pub data Reply : Type 0 where
  completed failed missing inserted not_positive conflict granted created undefined : Reply
  done no_history exists deleted unknown bye empty_text : Reply
  not_inserted : Update → Reply
  not_available : ℕ → Reply
  content : Text → Reply
  packets : List Packet → Reply

abbrev pub put_document : Text → Versions → Server → Server
put_document f v s = record s { documents = λ g. if text_eq g f then v else s.documents g }

-- `"%s_%d_%d.swap"`, in the directory of the documents.
unfoldable pub swap_suffix : ℕ → ℕ → Text
swap_suffix n fd = b'_' ∷ (print_int (pos n) ++ b'_' ∷ (print_int (pos fd) ++ bytes ".swap"))

abbrev pub swap_name : Text → ℕ → ℕ → Text
swap_name f n fd = f ++ swap_suffix n fd

-- The text of a swap file, or none to remove it.
abbrev pub put_swap : Text → ℕ → ℕ → Option Text → Server → Server
put_swap f n fd text s =
    put_document (swap_name f n fd) (record (s.documents (swap_name f n fd)) { file = text }) s

abbrev pub disk : Around → Server → Disk
disk e s = record { read = λ f. (s.documents f).file; writable = e.writable; now = e.now }

abbrev pub update_metadata : Text → Around → Server → Server
update_metadata f e s = record s { store = update_metadata_entry f (disk e s) s.store }

abbrev pub unlock : Text → ℕ → ℕ → Server → Server
unlock f n fd s = record s { locks = remove_sentence_lock f n fd s.locks }

-- What `fread` gets into a buffer for contents; nothing where the file does not open.
abbrev pub read_text : Option Text → Text
read_text file = take content_size (text_of file)

-- The end of a write, with the document as its backup leaves it and the merged text.
abbrev pub end_write : ℕ → Text → ℕ → Versions → Text → Around → Server → Reply × Server
end_write fd f n backed_up final e s =
    if e.opens.file
    then (
      completed,
      unlock f n fd (
          update_metadata f e
            (put_swap f n fd none (put_document f (record backed_up { file = some final }) s))),
    )
    else (failed, unlock f n fd (put_document f backed_up s))

-- `ETIRW` of the sentence `n`, with the swap file of the client.
abbrev pub merge_swap : ℕ → Text → ℕ → Text → Text → Around → Server → Reply × Server
merge_swap fd f n user swap e s =
    let backed_up = (create_file_backup f user e.opens e.now (s.documents f)).1 in
    elim (merge n (read_text backed_up.file) (take content_size swap)) [
      | none ↦ (undefined, s)
      | some final ↦ end_write fd f n backed_up final e s
    ]

unfoldable pub handle_etirw : ℕ → Text → ℕ → Text → Around → Server → Reply × Server
handle_etirw fd f n user e s = elim (s.documents (swap_name f n fd)).file [
  | none ↦ (completed, unlock f n fd s)
  | some swap ↦ merge_swap fd f n user swap e s
]

-- The swap file, or the document where there is none.
abbrev pub or_document : Option Text → Option Text → Option Text
or_document none file = file
or_document (some swap) file = some swap

abbrev pub write_swap : ℕ → Text → ℕ → Update → Around → Server → Reply × Server
write_swap fd f n (updated text) e s =
    if e.swap_opens then (inserted, put_swap f n fd (some text) s) else (failed, s)
write_swap fd f n empty_file e s = (not_inserted empty_file, s)
write_swap fd f n only_first_word e s = (not_inserted only_first_word, s)
write_swap fd f n out_of_range e s = (not_inserted out_of_range, s)
write_swap fd f n overflow e s = (undefined, s)

-- A line `<word_idx> <content>` of a client that writes the sentence `n`.
unfoldable pub handle_edit : ℕ → Text → ℕ → ℤ → Text → Around → Server → Reply × Server
handle_edit fd f n (negsuc i) new e s = (not_positive, s)
handle_edit fd f n (pos zero) new e s = (not_positive, s)
handle_edit fd f n (pos (suc i)) new e s =
    elim (or_document (s.documents (swap_name f n fd)).file (s.documents f).file) [
      | none ↦ (missing, s)
      | some text ↦ write_swap fd f n (insert_content n (suc i) new (take content_size text)) e s
    ]

abbrev pub ends_word : Option Text → Bool
ends_word none = false
ends_word (some w) = ends w

-- How many sentences `WRITE` allows where the document has some, with the last of them.
abbrev pub with_next : List Text → ℕ → SentenceInfo → ℕ
with_next words count last =
    if ltb last.end_word_idx (length words - 1)
    then count + 1
    else if ends_word (get_elem? words last.end_word_idx)
    then count + 1
    else count

-- With text but no sentence, two are allowed.
abbrev pub with_found : List Text → List SentenceInfo → ℕ
with_found words [] = 2
with_found words (s ∷ ss) = with_next words (length (s ∷ ss)) (last_or s ss)

unfoldable pub available_sentences : Text → ℕ
available_sentences file =
    if length (take content_size file) == 0
    then 1
    else with_found (words_of (take content_size file))
        (get_sentence_info_simple max_sentences (some file))

-- `WRITE` of a document that is there.
abbrev pub write_number : ℕ → Text → ℤ → Around → Text → Server → Reply × Server
write_number fd f (negsuc i) e text s = (not_positive, s)
write_number fd f (pos n) e text s =
    if n == 0
    then (not_positive, s)
    else if ltb (available_sentences text) n
    then (not_available (available_sentences text), s)
    else if is_sentence_locked f n fd s.locks
    then (conflict, s)
    else (granted, record s { locks = add_sentence_lock e.alloc_ok f n fd s.locks })

-- `WRITE <f> <n>`
unfoldable pub handle_write : ℕ → Text → ℤ → Around → Server → Reply × Server
handle_write fd f number e s = elim (s.documents f).file [
  | none ↦ (missing, s)
  | some text ↦ write_number fd f number e text s
]
