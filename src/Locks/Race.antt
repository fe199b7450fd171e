-- ===== src/Locks/Race.antt =====
-- Two threads that ask for the same sentence, step by step: `client_handler_thread` tests the
-- lock and takes it in two critical sections of `lock_mutex`.
use collaborative_doc.Prelude.{
  ℕ, ◌≡◌, ◌≢◌, Bool, true, false, List, [], ◌∷◌, arith, Text, text_eq_refl, ◌==◌, ==_iff,
  if◌then◌else◌,
}
use collaborative_doc.Locks.{SentenceLock, is_sentence_locked, add_sentence_lock}
use collaborative_doc.Locks.Exclusion.{held}

-- The locks, and the clients that have passed the test and not yet taken the lock.
pub record Threads : Type 0 where
  pub locks : List SentenceLock
  pub passed : List ℕ

-- One critical section of a thread that asks for the sentence.
pub data Section : Type 0 where
  test take : ℕ → Section

abbrev remove_first : ℕ → List ℕ → List ℕ
remove_first c [] = []
remove_first c (d ∷ ds) = let rest = remove_first c ds in if d == c then ds else d ∷ rest

abbrev is_in : ℕ → List ℕ → Bool
is_in c [] = false
is_in c (d ∷ ds) = if d == c then true else is_in c ds

unfoldable pub enter : Text → ℕ → Section → Threads → Threads
enter f n (test c) s =
    if is_sentence_locked f n c s.locks then s else record s { passed = c ∷ s.passed }
enter f n (take c) s =
    if is_in c s.passed
    then record { locks = add_sentence_lock true f n c s.locks; passed = remove_first c s.passed }
    else s

-- From no locks at all, two different clients that are both tested before either takes the lock
-- both have the lock: the sentence has two writers.
pub two_writers :
    (f : Text) (n c d : ℕ)
    → c ≢ d
    → (held f n c
          (enter f n (take d) (
            enter f n
              (take c)
              (enter f n (test d) (enter f n (test c) (record { locks = []; passed = [] }))))).locks
        ≡ 1)
      × (held f n d
            (enter f n (take d) (
              enter f n (take c) (
                enter f n
                  (test d)
                  (enter f n (test c) (record { locks = []; passed = [] }))))).locks
          ≡ 1)
unfolding enter is_sentence_locked add_sentence_lock
two_writers f n c d ne = (
  ground (arith, ne, text_eq_refl f, ==_iff n n, ==_iff c c, ==_iff d d, ==_iff c d, ==_iff d c),
  ground (arith, ne, text_eq_refl f, ==_iff n n, ==_iff c c, ==_iff d d, ==_iff c d, ==_iff d c),
)
