-- ===== src/Clients/Handled.antt =====
-- Every handler of `client_handler_thread` of src/storage_server/main.c takes one of the steps.
use collaborative_doc.Prelude.{
  ℕ, zero, suc, ℤ, pos, negsuc, ◌≡◌, refl, Bool, ◌||◌, text_eq, true, false, inl, inr, none, some,
  Text, text_eq_refl, Option-cases, ltb, ◌==◌, take,
}
use collaborative_doc.Locks.{is_sentence_locked, get_client_write_info}
use collaborative_doc.Documents.{content_size}
use collaborative_doc.Editing.{
  Update, updated, empty_file, only_first_word, out_of_range, overflow, insert_content, merge,
}
use collaborative_doc.Undo
use collaborative_doc.Undo.{Versions, perform_undo, create_file_backup}
use collaborative_doc.Checkpoints.{view_checkpoint}
use collaborative_doc.Clients.{
  Server, Around, Line, Reply, unlock, swap_name, end_write, read_text, undefined, handle_etirw,
  handle_edit, handle_write, write_swap, or_document, write_number, available_sentences, merge_swap,
  missing, conflict, failed, completed, not_positive, not_available, not_inserted, packets, etirw,
  exit, invalid, edit, create, read, stream_, undo, delete, write, checkpoint, view, revert,
}
use collaborative_doc.Clients.Commands.{
  is_file_locked, handle_line, handle_command, handle_in_write_mode, handle_create, handle_read,
  handle_stream, handle_undo, handle_checkpoint, handle_view, handle_revert, handle_delete, guarded,
  after_undo, saved_of, text_reply, touch,
}
use collaborative_doc.Clients.Streaming.{stream}
use collaborative_doc.Clients.Steps.{
  Step, touched, swapped, locked, released, backed_up, merged, rewritten, replaced, left,
  may_change, names, if_cases, option_cases,
}

module _ (fd : ℕ) (line : Line) (s : Server) where
  abbrev Gives : Reply × Server → Type 0
  Gives r = Step fd line s r.1

  stays : (r : Reply) → Gives (r, s)
  stays r = touched s.store

  read-Step : (f user : Text) (e : Around) → Gives (handle_read f user e s)
  unfolding handle_read
  read-Step f user e =
      option_cases Gives (s.documents f).file (missing, s) (λ t. (text_reply t, touch f user e s))
        (stays missing) (λ t. touched _)

  stream-Step : (f user : Text) (e : Around) → Gives (handle_stream f user e s)
  unfolding handle_stream
  stream-Step f user e =
      option_cases Gives (s.documents f).file (missing, s)
        (λ t. (packets (stream t e.controls), touch f user e s)) (stays missing) (λ t. touched _)

  view-Step : (f tag : Text) → Gives (handle_view f tag s)
  unfolding handle_view
  view-Step f tag =
      option_cases Gives (view_checkpoint f tag 8192 (saved_of f s)) (missing, s)
        (λ t. (text_reply t, s)) (stays missing) (λ t. stays (text_reply t))

  guarded-Step :
      (f : Text) (result : Reply × Server)
      → (is_file_locked f s.locks ≡ false → Gives result)
      → Gives (guarded f result s)
  guarded-Step f result h =
      if_cases Gives (is_file_locked f s.locks) (conflict, s)
        (elim (s.documents f).file [ none ↦ (missing, s) | some text ↦ result ])
        (λ y. stays conflict)
        (λ n.
          option_cases Gives (s.documents f).file (missing, s) (λ t. result) (stays missing)
            (λ t. h n))

  after_undo-Step :
      (f : Text) (e : Around) (r : Undo.Result × Versions)
      → names f line ≡ true
      → is_file_locked f s.locks ≡ false
      → Gives (after_undo f e s r)
  after_undo-Step f e (Undo.done, v) k h = rewritten f v s.checkpoints s.lists _ h k
  after_undo-Step f e (Undo.nothing, v) k h = rewritten f v s.checkpoints s.lists s.store h k
  after_undo-Step f e (Undo.failed, v) k h = rewritten f v s.checkpoints s.lists s.store h k

  create-Step :
      (f : Text) (e : Around)
      → may_change f fd (get_client_write_info fd s.locks) line ≡ true
      → names f line ≡ true
      → Gives (handle_create f e s)
  unfolding handle_create
  create-Step f e h k =
      if_cases Gives e.opens.file _ _ (λ y. replaced f _ _ h k) (λ n. stays failed)

  delete-Step :
      (f : Text) (e : Around)
      → may_change f fd (get_client_write_info fd s.locks) line ≡ true
      → names f line ≡ true
      → Gives (handle_delete f e s)
  unfolding handle_delete
  delete-Step f e h k = elim (Option-cases (s.documents f).file) [
    | inl lacking ↦ rw (lacking, Gives, handle_delete) (stays missing)
    | inr found ↦
        rw (found.1, Gives, handle_delete)
          (if_cases Gives e.removable _ _ (λ y. replaced f _ _ h k) (λ n. stays missing))
  ]

  write_number-Step :
      (f : Text) (number : ℤ) (e : Around) (text : Text)
      → get_client_write_info fd s.locks ≡ none
      → names f line ≡ true
      → Gives (write_number fd f number e text s)
  write_number-Step f (negsuc i) e text h k = stays not_positive
  write_number-Step f (pos n) e text h k =
      if_cases Gives (n == 0) _ _ (λ a. stays not_positive)
        (λ a.
          if_cases Gives (ltb (available_sentences text) n) _ _
            (λ b. stays (not_available (available_sentences text)))
            (λ b.
              if_cases Gives (is_sentence_locked f n fd s.locks) _ _ (λ c. stays conflict)
                (λ c. locked f n e.alloc_ok h c k)))

  write-Step :
      (f : Text) (number : ℤ) (e : Around)
      → get_client_write_info fd s.locks ≡ none
      → names f line ≡ true
      → Gives (handle_write fd f number e s)
  unfolding handle_write
  write-Step f number e h k =
      option_cases Gives (s.documents f).file (missing, s) (λ t. write_number fd f number e t s)
        (stays missing) (λ t. write_number-Step f number e t h k)

  write_swap-Step :
      (f : Text) (n : ℕ) (u : Update) (e : Around)
      → may_change (swap_name f n fd) fd (get_client_write_info fd s.locks) line ≡ true
      → Gives (write_swap fd f n u e s)
  write_swap-Step f n (updated t) e h =
      if_cases Gives e.swap_opens _ _ (λ y. swapped f n t h) (λ n'. stays failed)
  write_swap-Step f n overflow e h = stays undefined
  write_swap-Step f n empty_file e h = stays (not_inserted empty_file)
  write_swap-Step f n only_first_word e h = stays (not_inserted only_first_word)
  write_swap-Step f n out_of_range e h = stays (not_inserted out_of_range)

  edit-Step :
      (f : Text) (n : ℕ) (i : ℤ) (new : Text) (e : Around)
      → may_change (swap_name f n fd) fd (get_client_write_info fd s.locks) line ≡ true
      → Gives (handle_edit fd f n i new e s)
  unfolding handle_edit
  edit-Step f n (negsuc i) new e h = stays not_positive
  edit-Step f n (pos zero) new e h = stays not_positive
  edit-Step f n (pos (suc i)) new e h =
      option_cases Gives (or_document (s.documents (swap_name f n fd)).file (s.documents f).file)
        (missing, s)
        (λ t. write_swap fd f n (insert_content n (suc i) new (take content_size t)) e s)
        (stays missing)
        (λ t. write_swap-Step f n (insert_content n (suc i) new (take content_size t)) e h)

  etirw-Step :
      (f : Text) (n : ℕ) (user : Text) (e : Around)
      → get_client_write_info fd s.locks ≡ some (f, n)
      → may_change f fd (get_client_write_info fd s.locks) line ≡ true
      → may_change (swap_name f n fd) fd (get_client_write_info fd s.locks) line ≡ true
      → Gives (handle_etirw fd f n user e s)
  unfolding handle_etirw
  etirw-Step f n user e k h h' =
      option_cases Gives (s.documents (swap_name f n fd)).file (completed, unlock f n fd s)
        (λ swap. merge_swap fd f n user swap e s) (released f n k)
        (λ swap.
          let backed = (create_file_backup f user e.opens e.now (s.documents f)).1 in
          option_cases Gives (merge n (read_text backed.file) (take content_size swap))
            (undefined, s) (λ final. end_write fd f n backed final e s) (stays undefined)
            (λ final.
              if_cases Gives e.opens.file _ _ (λ y. merged f n _ _ k h h')
                (λ n'. backed_up f n _ k h)))

handle_command-Step :
    (fd : ℕ) (user : Text) (line : Line) (e : Around) (s : Server)
    → get_client_write_info fd s.locks ≡ none
    → Step fd line s (handle_command fd user line e s).1
unfolding handle_undo handle_checkpoint handle_revert
handle_command-Step fd user (create f) e s h =
    create-Step fd (create f) s f e (rw h (text_eq_refl f)) (text_eq_refl f)
handle_command-Step fd user (read f) e s h = read-Step fd (read f) s f user e
handle_command-Step fd user (stream_ f) e s h = stream-Step fd (stream_ f) s f user e
handle_command-Step fd user (write f n) e s h = write-Step fd (write f n) s f n e h (text_eq_refl f)
handle_command-Step fd user (undo f) e s h =
    guarded-Step fd (undo f) s f _
      (after_undo-Step fd (undo f) s f e (perform_undo e.opens (s.documents f)) (text_eq_refl f))
handle_command-Step fd user (checkpoint f tag) e s h =
    guarded-Step fd (checkpoint f tag) s f _ (λ n. rewritten f _ _ _ _ n (text_eq_refl f))
handle_command-Step fd user (view f tag) e s h = view-Step fd (view f tag) s f tag
handle_command-Step fd user (revert f tag) e s h =
    guarded-Step fd (revert f tag) s f _ (λ n. rewritten f _ _ _ _ n (text_eq_refl f))
handle_command-Step fd user (delete f) e s h =
    delete-Step fd (delete f) s f e (rw h (text_eq_refl f)) (text_eq_refl f)
handle_command-Step fd user exit e s h = left
handle_command-Step fd user etirw e s h = touched s.store
handle_command-Step fd user invalid e s h = touched s.store
handle_command-Step fd user (edit i new) e s h = touched s.store

or_true : (b : Bool) → (b || true) ≡ true
or_true true = refl
or_true false = refl

in_write_mode-Step :
    (fd : ℕ) (f : Text) (n : ℕ) (user : Text) (line : Line) (e : Around) (s : Server)
    → get_client_write_info fd s.locks ≡ some (f, n)
    → Step fd line s (handle_in_write_mode fd f n user line e s).1
in_write_mode-Step fd f n user etirw e s h =
    etirw-Step fd etirw s f n user e h (rw (h, text_eq_refl f) refl)
      (rw (h, text_eq_refl (swap_name f n fd)) (or_true (text_eq (swap_name f n fd) f)))
in_write_mode-Step fd f n user (edit i new) e s h =
    edit-Step fd (edit i new) s f n i new e (rw h (text_eq_refl (swap_name f n fd)))
in_write_mode-Step fd f n user (create g) e s h = touched s.store
in_write_mode-Step fd f n user (read g) e s h = touched s.store
in_write_mode-Step fd f n user (stream_ g) e s h = touched s.store
in_write_mode-Step fd f n user (write g m) e s h = touched s.store
in_write_mode-Step fd f n user (undo g) e s h = touched s.store
in_write_mode-Step fd f n user (checkpoint g tag) e s h = touched s.store
in_write_mode-Step fd f n user (view g tag) e s h = touched s.store
in_write_mode-Step fd f n user (revert g tag) e s h = touched s.store
in_write_mode-Step fd f n user (delete g) e s h = touched s.store
in_write_mode-Step fd f n user exit e s h = touched s.store
in_write_mode-Step fd f n user invalid e s h = touched s.store

-- Every line is one of the steps.
pub handle_line-Step :
    (fd : ℕ) (user : Text) (line : Line) (e : Around) (s : Server)
    → Step fd line s (handle_line fd user line e s).1
unfolding handle_line
handle_line-Step fd user line e s = elim (Option-cases (get_client_write_info fd s.locks)) [
  | inl lacking ↦ rw (lacking, handle_line) (handle_command-Step fd user line e s lacking)
  | inr found ↦
      rw (found.1, handle_line) (in_write_mode-Step fd found.0.0 found.0.1 user line e s found.1)
]
