-- ===== src/Users/Sessions.antt =====
-- A run of logins and logouts, as the connection threads make them one at a time.
use collaborative_doc.Prelude.{
  ℕ, ◌≤◌, ◌≡◌, refl, List, [], ◌∷◌, arith, if◌then◌else◌, Text, text_eq, length, All,
}
use collaborative_doc.Users.{max_active_users, register, deregister, init_user_manager}
use collaborative_doc.Users.Laws.{
  IsValid, listed, register-IsValid, deregister-IsValid, listed-register, listed-deregister,
  length-register, deregister-fits, init-IsValid,
}

-- A connection registers its name when it starts and takes it off when it ends.
pub data Event : Type 0 where
  login logout : Text → Event

abbrev pub name : Event → Text
name (login u) = u
name (logout u) = u

abbrev pub handle : List Text → Event → List Text
handle users (login u) = register u users
handle users (logout u) = deregister u users

-- The latest event comes first.
abbrev pub run : List Event → List Text
run [] = init_user_manager
run (e ∷ earlier) = handle (run earlier) e

-- 1 if the latest event about `u` is a login, and 0 otherwise.
abbrev pub present : Text → List Event → ℕ
present u [] = 0
present u (login v ∷ earlier) = if text_eq v u then 1 else present u earlier
present u (logout v ∷ earlier) = if text_eq v u then 0 else present u earlier

run-IsValid :
    (events : List Event)
    → All (λ e. length (name e) ≤ 63) events
    → IsValid (run events) × (length (run events) ≤ length events)
run-IsValid [] h = (init-IsValid, omega arith)
run-IsValid (login u ∷ earlier) h =
    let (v, l) = run-IsValid earlier h.1 in
    (register-IsValid u (run earlier) h.0 v, omega (arith, length-register u (run earlier) h.0))
run-IsValid (logout u ∷ earlier) h =
    let (v, l) = run-IsValid earlier h.1 in
    (deregister-IsValid u (run earlier) v, omega (arith, (deregister-fits u (run earlier) v).0))

-- After any run of at most 50 logins and logouts of names of at most 63 bytes, a name is listed
-- (once) exactly if the latest event about it is a login.
pub listed-run :
    (w : Text) (events : List Event)
    → All (λ e. length (name e) ≤ 63) events
    → length events ≤ max_active_users
    → listed w (run events) ≡ present w events
listed-run w [] h k = refl
listed-run w (login u ∷ earlier) h k =
    let (v, l) = run-IsValid earlier h.1 in
    ground (
      arith,
      listed-register u w (run earlier) h.0 (omega arith) v,
      listed-run w earlier h.1 (omega arith),
    )
listed-run w (logout u ∷ earlier) h k =
    let (v, l) = run-IsValid earlier h.1 in
    ground (arith, listed-deregister u w (run earlier) v, listed-run w earlier h.1 (omega arith))
