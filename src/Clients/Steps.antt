-- ===== src/Clients/Steps.antt =====
-- What a line of a client may do to a storage server, as a step from state to state, for
-- `client_handler_thread` of src/storage_server/main.c.
use collaborative_doc.Prelude.{
  ℕ, ◌≡◌, refl, Bool, true, false, Option, none, some, Text, text_eq, ◌||◌, if◌then◌else◌,
}
use collaborative_doc.Locks.{is_sentence_locked, add_sentence_lock, get_client_write_info}
use collaborative_doc.Metadata.{Store}
use collaborative_doc.Undo.{Versions}
use collaborative_doc.Clients.{
  Server, Line, put_document, put_swap, unlock, swap_name, etirw, edit, create, write, undo,
  checkpoint, revert, delete,
}
use collaborative_doc.Clients.Commands.{is_file_locked, leave}

-- What may change a document that clients write, by a line from `fd`: the end of a write of it,
-- CREATE and DELETE of it, and, if it is the swap file of the client, the lines of its write.
abbrev pub may_change : Text → ℕ → Option (Text × ℕ) → Line → Bool
may_change f fd (some current) etirw =
    text_eq f current.0 || text_eq f (swap_name current.0 current.1 fd)
may_change f fd (some current) (edit i new) = text_eq f (swap_name current.0 current.1 fd)
may_change f fd (some current) line = false
may_change f fd none (create g) = text_eq f g
may_change f fd none (delete g) = text_eq f g
may_change f fd none line = false

-- The line has the name of the document, and may change or lock it.
abbrev pub names : Text → Line → Bool
names f (create g) = text_eq f g
names f (write g n) = text_eq f g
names f (undo g) = text_eq f g
names f (checkpoint g tag) = text_eq f g
names f (revert g tag) = text_eq f g
names f (delete g) = text_eq f g
names f line = false

-- The steps of the client at `fd` with a line: nothing but the metadata changes; a swap file is
-- written; a lock is taken; a write ends without a change, with a backup only, or with the merge;
-- a document is changed that nobody writes, or one that is created or deleted; the client leaves.
pub data Step (fd : ℕ) (line : Line) (s : Server) : Server → Type 0 where
  touched : (m : Store) → Step fd line s (record s { store = m })
  swapped :
      (f : Text) (n : ℕ) (t : Text)
      → may_change (swap_name f n fd) fd (get_client_write_info fd s.locks) line ≡ true
      → Step fd line s (put_swap f n fd (some t) s)
  locked :
      (f : Text) (n : ℕ) (ok : Bool)
      → get_client_write_info fd s.locks ≡ none
      → is_sentence_locked f n fd s.locks ≡ false
      → names f line ≡ true
      → Step fd line s (record s { locks = add_sentence_lock ok f n fd s.locks })
  released :
      (f : Text) (n : ℕ)
      → get_client_write_info fd s.locks ≡ some (f, n)
      → Step fd line s (unlock f n fd s)
  backed_up :
      (f : Text) (n : ℕ) (v : Versions)
      → get_client_write_info fd s.locks ≡ some (f, n)
      → may_change f fd (get_client_write_info fd s.locks) line ≡ true
      → Step fd line s (unlock f n fd (put_document f v s))
  merged :
      (f : Text) (n : ℕ) (v : Versions) (m : Store)
      → get_client_write_info fd s.locks ≡ some (f, n)
      → may_change f fd (get_client_write_info fd s.locks) line ≡ true
      → may_change (swap_name f n fd) fd (get_client_write_info fd s.locks) line ≡ true
      → Step fd line s
          (unlock f n fd (record (put_swap f n fd none (put_document f v s)) { store = m }))
  rewritten :
      (f : Text) (v : Versions) (c l : Text → Option Text) (m : Store)
      → is_file_locked f s.locks ≡ false
      → names f line ≡ true
      → Step fd line s (record (put_document f v s) { checkpoints = c; lists = l; store = m })
  replaced :
      (f : Text) (v : Versions) (m : Store)
      → may_change f fd (get_client_write_info fd s.locks) line ≡ true
      → names f line ≡ true
      → Step fd line s (record (put_document f v s) { store = m })
  left : Step fd line s (leave fd s)

-- The branches of a test and of a file that may be there.
pub if_cases {ℓ κ} :
    {A : Type ℓ} (P : A → Type κ) (b : Bool) (x y : A)
    → (b ≡ true → P x)
    → (b ≡ false → P y)
    → P (if b then x else y)
if_cases P true x y h k = h refl
if_cases P false x y h k = k refl

pub option_cases {ℓ κ μ} :
    {A : Type ℓ} {B : Type μ} (P : A → Type κ) (o : Option B) (x : A) (k : B → A)
    → P x
    → ((b : B) → P (k b))
    → P (elim o [ none ↦ x | some b ↦ k b ])
option_cases P none x k h g = h
option_cases P (some b) x k h g = g b
