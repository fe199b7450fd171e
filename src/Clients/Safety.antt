-- ===== src/Clients/Safety.antt =====
-- What the lines of clients leave alone on a storage server: `client_handler_thread` of
-- src/storage_server/main.c.
use collaborative_doc.Prelude.{
  ap, some, ℕ, ◌≡◌, ◌∙◌, refl, sym, subst, Bool, true, false, Text, text_eq, text_eq_sound,
}
use collaborative_doc.Locks.{get_client_write_info}
use collaborative_doc.Undo.{Versions, perform_undo}
use collaborative_doc.Clients.{Server, Around, Line, Reply, put_document, swap_name}
use collaborative_doc.Clients.Commands.{
  is_file_locked, handle_line, handle_ns_undo, handle_undo, after_undo, guarded,
}
use collaborative_doc.Clients.Handled.{handle_line-Step}
use collaborative_doc.Clients.Steps.{
  Step, touched, swapped, locked, released, backed_up, merged, rewritten, replaced, left,
  may_change,
}

pub put_document-other :
    (f g : Text) (v : Versions) (s : Server)
    → text_eq f g ≡ false
    → ((put_document g v s).documents f).file ≡ (s.documents f).file
put_document-other f g v s h = rw h refl

true_ne_false : (b : Bool) → b ≡ true → b ≡ false → ⊥
true_ne_false b h k = absurd (cc (sym h ∙ k))

-- Two names that a test tells apart are different.
pub differ :
    (test : Text → Bool) (f g : Text)
    → test f ≡ false
    → test g ≡ true
    → (text_eq f g ≡ false) × (text_eq g f ≡ false)
differ test f g h k =
    (apart (text_eq f g) (text_eq_sound f g), apart (text_eq g f) (λ e. sym (text_eq_sound g f e)))
  where
    apart : (b : Bool) → (b ≡ true → f ≡ g) → b ≡ false
    apart true same =
        absurd (true_ne_false (test f) (subst (λ t. test t ≡ true) (sym (same refl)) k) h)
    apart false same = refl

guarded-free :
    (f : Text) (result : Reply × Server) (s : Server) (text : Text)
    → is_file_locked f s.locks ≡ false
    → (s.documents f).file ≡ some text
    → guarded f result s ≡ result
guarded-free f result s text h k = rw (h, k) refl

-- Another document may change where the line may not change this one.
may_differ :
    (f : Text) (fd : ℕ) (line : Line) (s : Server) (g : Text)
    → may_change f fd (get_client_write_info fd s.locks) line ≡ false
    → may_change g fd (get_client_write_info fd s.locks) line ≡ true
    → text_eq f g ≡ false
may_differ f fd line s g h k =
    (differ (λ t. may_change t fd (get_client_write_info fd s.locks) line) f g h k).0

step-kept :
    (f : Text) (fd : ℕ) (line : Line) (s s' : Server)
    → Step fd line s s'
    → is_file_locked f s.locks ≡ true
    → may_change f fd (get_client_write_info fd s.locks) line ≡ false
    → (s'.documents f).file ≡ (s.documents f).file
step-kept f fd line s _ (touched m) h k = refl
step-kept f fd line s _ (swapped g n t c) h k =
    put_document-other f (swap_name g n fd) _ s (may_differ f fd line s (swap_name g n fd) k c)
step-kept f fd line s _ (locked g n ok i u w) h k = refl
step-kept f fd line s _ (released g n i) h k = refl
step-kept f fd line s _ (backed_up g n v i c) h k =
    put_document-other f g v s (may_differ f fd line s g k c)
step-kept f fd line s _ (merged g n v m i c c') h k =
    put_document-other f (swap_name g n fd) _ (put_document g v s)
      (may_differ f fd line s (swap_name g n fd) k c')
    ∙ put_document-other f g v s (may_differ f fd line s g k c)
step-kept f fd line s _ (rewritten g v c l m u w) h k =
    put_document-other f g v s (differ (λ t. is_file_locked t s.locks) g f u h).1
step-kept f fd line s _ (replaced g v m c w) h k =
    put_document-other f g v s (may_differ f fd line s g k c)
step-kept f fd line s _ left h k = refl

-- While some client has a lock on a document, no line of any client changes its text, but the end
-- of a write of this document, CREATE and DELETE of it, and, where its name is that of the swap
-- file of a client, the edits of that client and the end of its write; different names are
-- different files.
pub handle_line-kept :
    (f : Text) (fd : ℕ) (user : Text) (line : Line) (e : Around) (s : Server)
    → is_file_locked f s.locks ≡ true
    → may_change f fd (get_client_write_info fd s.locks) line ≡ false
    → ((handle_line fd user line e s).1.documents f).file ≡ (s.documents f).file
handle_line-kept f fd user line e s h k =
    step-kept f fd line s (handle_line fd user line e s).1 (handle_line-Step fd user line e s) h k

-- An undo through the name server does what the client's own does where that is not refused.
handle_ns_undo-handle_undo :
    (f text : Text) (e : Around) (s : Server)
    → is_file_locked f s.locks ≡ false
    → (s.documents f).file ≡ some text
    → (handle_ns_undo f e s).1 ≡ (handle_undo f e s).1
unfolding handle_ns_undo handle_undo
handle_ns_undo-handle_undo f text e s h k = sym (
    ap (λ r. r.1)
      (guarded-free f (after_undo f e s (perform_undo e.opens (s.documents f))) s text h k))
