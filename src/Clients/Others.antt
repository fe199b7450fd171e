-- ===== src/Clients/Others.antt =====
-- What the lines of one client leave alone of another: its swap files and its lock, in
-- `client_handler_thread` of src/storage_server/main.c.
use collaborative_doc.Prelude.{
  ℕ, ◌≡◌, ◌≢◌, ◌∙◌, refl, sym, Bool, true, false, inl, inr, some, List, [], ◌∷◌, Text, text_eq,
  text_eq_refl, if◌then◌else◌, Bool-cases, ◌==◌, ==_iff, arith, All,
}
use collaborative_doc.Locks.{
  SentenceLock, get_client_write_info, add_sentence_lock, remove_sentence_lock, remove_client_locks,
}
use collaborative_doc.Clients.{Server, Line, put_document, swap_name}
use collaborative_doc.Clients.Handled.{handle_line-Step}
use collaborative_doc.Clients.Safety.{differ, put_document-other}
use collaborative_doc.Clients.SwapFiles.{swap_name-ne}
use collaborative_doc.Clients.Steps.{
  Step, names, touched, swapped, locked, released, backed_up, merged, rewritten, replaced, left,
}
use collaborative_doc.Clients.Commands.{is_file_locked, handle_line, Event, run}

-- The client has the same swap file, which no client locks, and writes the same sentence.
abbrev pub Keeps : Text → ℕ → Server → Server → Type 0
Keeps swap fd s s' =
    ((s'.documents swap).file ≡ (s.documents swap).file)
    × (get_client_write_info fd s'.locks ≡ get_client_write_info fd s.locks)
    × (is_file_locked swap s'.locks ≡ false)

-- The document of a client in write mode is locked.
locked-get_client_write_info :
    (g : Text) (m fd : ℕ) (ls : List SentenceLock)
    → get_client_write_info fd ls ≡ some (g, m)
    → is_file_locked g ls ≡ true
unfolding get_client_write_info is_file_locked
locked-get_client_write_info g m fd [] h = absurd (cc h)
locked-get_client_write_info g m fd (l ∷ ls) h = elim (Bool-cases (l.client_fd == fd)) [
  | inl y ↦ let same : l.filename ≡ g = cc (rw y at h) in rw (same, text_eq_refl g) refl
  | inr n ↦
      let below = locked-get_client_write_info g m fd ls (rw n at h) in
      rw below (if_both (text_eq l.filename g))
]
  where
    if_both : (b : Bool) → (if b then true else true) ≡ true
    if_both true = refl
    if_both false = refl

module _ (swap : Text) where
  free-remove_sentence_lock :
      (f : Text) (n fd : ℕ) (ls : List SentenceLock)
      → is_file_locked swap ls ≡ false
      → is_file_locked swap (remove_sentence_lock f n fd ls) ≡ false
  unfolding is_file_locked remove_sentence_lock
  free-remove_sentence_lock f n fd [] h = refl
  free-remove_sentence_lock f n fd (l ∷ ls) h =
      ground (arith, free-remove_sentence_lock f n fd ls, h)

  free-remove_client_locks :
      (fd : ℕ) (ls : List SentenceLock)
      → is_file_locked swap ls ≡ false
      → is_file_locked swap (remove_client_locks fd ls) ≡ false
  unfolding is_file_locked remove_client_locks
  free-remove_client_locks fd [] h = refl
  free-remove_client_locks fd (l ∷ ls) h = ground (arith, free-remove_client_locks fd ls, h)

  free-add_sentence_lock :
      (ok : Bool) (f : Text) (n fd : ℕ) (ls : List SentenceLock)
      → text_eq f swap ≡ false
      → is_file_locked swap ls ≡ false
      → is_file_locked swap (add_sentence_lock ok f n fd ls) ≡ false
  unfolding is_file_locked add_sentence_lock
  free-add_sentence_lock true f n fd ls e h = rw (e, h) refl
  free-add_sentence_lock false f n fd ls e h = h

module _ (fd other : ℕ) (ne : fd ≢ other) where
  differs : (other == fd) ≡ false
  differs = elim (Bool-cases (other == fd)) [
    | inl y ↦ absurd (ne (sym ((==_iff other fd).0 y)))
    | inr n ↦ n
  ]

  differs' : (fd == other) ≡ false
  differs' = elim (Bool-cases (fd == other)) [
    | inl y ↦ absurd (ne ((==_iff fd other).0 y))
    | inr n ↦ n
  ]

  info-remove_sentence_lock :
      (f : Text) (n : ℕ) (ls : List SentenceLock)
      → get_client_write_info fd (remove_sentence_lock f n other ls) ≡ get_client_write_info fd ls
  unfolding get_client_write_info remove_sentence_lock
  info-remove_sentence_lock f n [] = refl
  info-remove_sentence_lock f n (l ∷ ls) = ground (
    arith,
    info-remove_sentence_lock f n ls,
    differs,
    ==_iff l.client_fd other,
    ==_iff l.client_fd fd,
  )

  info-remove_client_locks :
      (ls : List SentenceLock)
      → get_client_write_info fd (remove_client_locks other ls) ≡ get_client_write_info fd ls
  unfolding get_client_write_info remove_client_locks
  info-remove_client_locks [] = refl
  info-remove_client_locks (l ∷ ls) =
      ground (
        arith,
        info-remove_client_locks ls,
        differs,
        ==_iff l.client_fd other,
        ==_iff l.client_fd fd,
      )

  info-add_sentence_lock :
      (ok : Bool) (f : Text) (n : ℕ) (ls : List SentenceLock)
      → get_client_write_info fd (add_sentence_lock ok f n other ls) ≡ get_client_write_info fd ls
  unfolding get_client_write_info add_sentence_lock
  info-add_sentence_lock true f n ls = rw differs refl
  info-add_sentence_lock false f n ls = refl

  module _ (f : Text) (n : ℕ) (line : Line) (s : Server) where
    abbrev swap : Text
    swap = swap_name f n fd

    -- A document that the other client writes is not the swap file.
    not_written :
        (g : Text) (m : ℕ)
        → is_file_locked swap s.locks ≡ false
        → get_client_write_info other s.locks ≡ some (g, m)
        → text_eq swap g ≡ false
    not_written g m h i =
        (differ (λ t. is_file_locked t s.locks) swap g h
          (locked-get_client_write_info g m other s.locks i)).0

    step-Keeps :
        (s' : Server)
        → is_file_locked swap s.locks ≡ false
        → names swap line ≡ false
        → Step other line s s'
        → Keeps swap fd s s'
    step-Keeps _ h k (touched m) = (refl, refl, h)
    step-Keeps _ h k (swapped g m t c) = (
      put_document-other swap (swap_name g m other) _ s (swap_name-ne f g n m fd other ne),
      refl,
      h,
    )
    step-Keeps _ h k (locked g m ok i u w) = (
      refl,
      info-add_sentence_lock ok g m s.locks,
      free-add_sentence_lock swap ok g m other s.locks (differ (λ t. names t line) swap g k w).1 h,
    )
    step-Keeps _ h k (released g m i) = (
      refl,
      info-remove_sentence_lock g m s.locks,
      free-remove_sentence_lock swap g m other s.locks h,
    )
    step-Keeps _ h k (backed_up g m v i c) = (
      put_document-other swap g v s (not_written g m h i),
      info-remove_sentence_lock g m s.locks,
      free-remove_sentence_lock swap g m other s.locks h,
    )
    step-Keeps _ h k (merged g m v z i c c') = (
      put_document-other swap (swap_name g m other) _ (put_document g v s)
            (swap_name-ne f g n m fd other ne)
          ∙ put_document-other swap g v s (not_written g m h i),
      info-remove_sentence_lock g m s.locks,
      free-remove_sentence_lock swap g m other s.locks h,
    )
    step-Keeps _ h k (rewritten g v c l m u w) =
        (put_document-other swap g v s (differ (λ t. names t line) swap g k w).0, refl, h)
    step-Keeps _ h k (replaced g v m c w) =
        (put_document-other swap g v s (differ (λ t. names t line) swap g k w).0, refl, h)
    step-Keeps _ h k left =
        (refl, info-remove_client_locks s.locks, free-remove_client_locks swap other s.locks h)

-- Lines of other clients that do not name the swap file of a client change neither it nor the
-- sentence that the client writes.
pub run-others :
    (fd : ℕ) (f : Text) (n : ℕ) (events : List Event) (s : Server)
    → is_file_locked (swap_name f n fd) s.locks ≡ false
    → All (λ v. (fd ≢ v.fd) × (names (swap_name f n fd) v.line ≡ false)) events
    → Keeps (swap_name f n fd) fd s (run events s)
unfolding run
run-others fd f n [] s free h = (refl, refl, free)
run-others fd f n (v ∷ vs) s free h =
    let (a, b, c) =
      step-Keeps fd v.fd h.0.0 f n v.line s (handle_line v.fd v.user v.line v.around s).1 free h.0.1
        (handle_line-Step v.fd v.user v.line v.around s) in
    let (a', b', c') = run-others fd f n vs (handle_line v.fd v.user v.line v.around s).1 c h.1 in
    (a' ∙ a, b' ∙ b, c')
