-- ===== src/Clients/Exclusion.antt =====
-- The locks behind any lines of clients, in `client_handler_thread` of src/storage_server/main.c.
use collaborative_doc.Prelude.{ℕ, ◌≡◌, Bool, true, false, none, List, [], ◌∷◌, Text}
use collaborative_doc.Locks.{
  SentenceLock, is_sentence_locked, add_sentence_lock, get_client_write_info,
}
use collaborative_doc.Locks.Exclusion.{
  IsExclusive, added-IsExclusive, removed-IsExclusive, closed-IsExclusive,
}
use collaborative_doc.Clients.{Server, Line}
use collaborative_doc.Clients.Commands.{handle_line, Event, run}
use collaborative_doc.Clients.Handled.{handle_line-Step}
use collaborative_doc.Clients.Steps.{
  Step, touched, swapped, locked, released, backed_up, merged, rewritten, replaced, left,
}

add_sentence_lock-IsExclusive :
    (ok : Bool) (f : Text) (n fd : ℕ) (ls : List SentenceLock)
    → get_client_write_info fd ls ≡ none
    → is_sentence_locked f n fd ls ≡ false
    → IsExclusive ls
    → IsExclusive (add_sentence_lock ok f n fd ls)
unfolding add_sentence_lock
add_sentence_lock-IsExclusive true f n fd ls idle free v = added-IsExclusive f n fd ls idle free v
add_sentence_lock-IsExclusive false f n fd ls idle free v = v

step-IsExclusive :
    (fd : ℕ) (line : Line) (s s' : Server)
    → Step fd line s s'
    → IsExclusive s.locks
    → IsExclusive s'.locks
step-IsExclusive fd line s _ (touched m) v = v
step-IsExclusive fd line s _ (swapped f n t h) v = v
step-IsExclusive fd line s _ (locked f n ok idle free k) v =
    add_sentence_lock-IsExclusive ok f n fd s.locks idle free v
step-IsExclusive fd line s _ (released f n i) v = removed-IsExclusive f n fd s.locks v
step-IsExclusive fd line s _ (backed_up f n d i c) v = removed-IsExclusive f n fd s.locks v
step-IsExclusive fd line s _ (merged f n d m i c h) v = removed-IsExclusive f n fd s.locks v
step-IsExclusive fd line s _ (rewritten f d c l m u k) v = v
step-IsExclusive fd line s _ (replaced f d m c k) v = v
step-IsExclusive fd line s _ left v = closed-IsExclusive fd s.locks v

-- If no sentence has locks of two clients and no client has two locks, this holds after any lines
-- of any clients, each handled as one step.
pub run-IsExclusive :
    (events : List Event) (s : Server) → IsExclusive s.locks → IsExclusive (run events s).locks
unfolding run
run-IsExclusive [] s v = v
run-IsExclusive (e ∷ es) s v =
    let s' = (handle_line e.fd e.user e.line e.around s).1 in
    run-IsExclusive es s'
      (step-IsExclusive e.fd e.line s s' (handle_line-Step e.fd e.user e.line e.around s) v)
