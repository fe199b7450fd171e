-- ===== src/Locks/Exclusion.antt =====
-- Mutual exclusion of the writers of a sentence.
use collaborative_doc.Prelude.{
  ℕ, ◌+◌, ◌≤◌, ◌≡◌, ◌≢◌, refl, Bool, false, ◌&&◌, none, some, inl, inr, List, [], ◌∷◌,
  if◌then◌else◌, arith, Text, text_eq_sound, text_eq_refl, ◌==◌, ==_iff, Bool-cases, Option-cases,
  count,
}
use collaborative_doc.Search.Coherence.{some_eq}
use collaborative_doc.Locks.{
  SentenceLock, is_on, is_sentence_locked, add_sentence_lock, remove_sentence_lock,
  remove_client_locks, get_client_write_info, LockEvent, write, finish, close, lock_step,
}

-- The locks of a client, and its locks on one sentence.
abbrev pub is_by : ℕ → SentenceLock → Bool
is_by c l = l.client_fd == c

abbrev pub has : Text → ℕ → ℕ → SentenceLock → Bool
has f n c l = is_on f n l && (l.client_fd == c)

abbrev pub held : Text → ℕ → ℕ → List SentenceLock → ℕ
held f n c = count (has f n c)

-- No sentence has locks of two clients, and no client has two locks.
pub record IsExclusive (ls : List SentenceLock) : Type 0 where
  pub sentence : (f : Text) (n c d : ℕ) → c ≢ d → held f n c ls + held f n d ls ≤ 1
  pub client : (c : ℕ) → count (is_by c) ls ≤ 1

-- A sentence on which nobody else has a lock.
held-is_sentence_locked :
    (f : Text) (n c d : ℕ) (ls : List SentenceLock)
    → is_sentence_locked f n c ls ≡ false
    → c ≢ d
    → held f n d ls ≡ 0
unfolding is_sentence_locked
held-is_sentence_locked f n c d [] h ne = refl
held-is_sentence_locked f n c d (l ∷ ls) h ne =
    ground (arith, held-is_sentence_locked f n c d ls, ==_iff l.client_fd c, ==_iff l.client_fd d)

count-get_client_write_info :
    (c : ℕ) (ls : List SentenceLock) → get_client_write_info c ls ≡ none → count (is_by c) ls ≡ 0
unfolding get_client_write_info
count-get_client_write_info c [] h = refl
count-get_client_write_info c (l ∷ ls) h = ground (arith, h, count-get_client_write_info c ls)

held-le : (f : Text) (n c : ℕ) (ls : List SentenceLock) → held f n c ls ≤ count (is_by c) ls
held-le f n c [] = omega arith
held-le f n c (l ∷ ls) = ground (arith, held-le f n c ls)

held-remove_sentence_lock :
    (f g : Text) (n m c d : ℕ) (ls : List SentenceLock)
    → held f n c (remove_sentence_lock g m d ls) ≤ held f n c ls
unfolding remove_sentence_lock
held-remove_sentence_lock f g n m c d [] = omega arith
held-remove_sentence_lock f g n m c d (l ∷ ls) =
    ground (arith, held-remove_sentence_lock f g n m c d ls)

count-remove_sentence_lock :
    (g : Text) (m c d : ℕ) (ls : List SentenceLock)
    → count (is_by c) (remove_sentence_lock g m d ls) ≤ count (is_by c) ls
unfolding remove_sentence_lock
count-remove_sentence_lock g m c d [] = omega arith
count-remove_sentence_lock g m c d (l ∷ ls) = ground (arith, count-remove_sentence_lock g m c d ls)

held-remove_client_locks :
    (f : Text) (n c d : ℕ) (ls : List SentenceLock)
    → held f n c (remove_client_locks d ls) ≡ (if c == d then 0 else held f n c ls)
unfolding remove_client_locks
held-remove_client_locks f n c d [] = ground arith
held-remove_client_locks f n c d (l ∷ ls) = ground (
  arith,
  held-remove_client_locks f n c d ls,
  ==_iff l.client_fd c,
  ==_iff l.client_fd d,
  ==_iff c d,
)

count-remove_client_locks :
    (c d : ℕ) (ls : List SentenceLock)
    → count (is_by c) (remove_client_locks d ls) ≡ (if c == d then 0 else count (is_by c) ls)
unfolding remove_client_locks
count-remove_client_locks c d [] = ground arith
count-remove_client_locks c d (l ∷ ls) = ground (
  arith,
  count-remove_client_locks c d ls,
  ==_iff l.client_fd c,
  ==_iff l.client_fd d,
  ==_iff c d,
)

pub added-IsExclusive :
    (f : Text) (n c : ℕ) (ls : List SentenceLock)
    → get_client_write_info c ls ≡ none
    → is_sentence_locked f n c ls ≡ false
    → IsExclusive ls
    → IsExclusive (record { filename = f; sentence_num = n; client_fd = c } ∷ ls)
added-IsExclusive f n c ls idle free v =
    let new : SentenceLock = record { filename = f; sentence_num = n; client_fd = c } in
    let own = count-get_client_write_info c ls idle in
    record {
      client = λ d. ground (arith, own, v.client d, ==_iff c d);
      sentence = λ g m d e ne. ground (
        arith,
        v.sentence g m d e ne,
        ne,
        ==_iff c d,
        ==_iff c e,
        ==_iff n m,
        text_eq_sound f g,
        held-le g m d ls,
        held-le g m e ls,
        held-is_sentence_locked f n c d ls free,
        held-is_sentence_locked f n c e ls free,
      );
    }

pub removed-IsExclusive :
    (f : Text) (n c : ℕ) (ls : List SentenceLock)
    → IsExclusive ls
    → IsExclusive (remove_sentence_lock f n c ls)
removed-IsExclusive f n c ls v = record {
  client = λ d. omega (arith, v.client d, count-remove_sentence_lock f n d c ls);
  sentence = λ g m d e ne. omega (
    arith,
    v.sentence g m d e ne,
    held-remove_sentence_lock g f m n d c ls,
    held-remove_sentence_lock g f m n e c ls,
  );
}

pub closed-IsExclusive :
    (c : ℕ) (ls : List SentenceLock) → IsExclusive ls → IsExclusive (remove_client_locks c ls)
closed-IsExclusive c ls v = record {
  client = λ d. ground (arith, v.client d, count-remove_client_locks d c ls);
  sentence = λ g m d e ne. ground (
    arith,
    v.sentence g m d e ne,
    held-remove_client_locks g m d c ls,
    held-remove_client_locks g m e c ls,
  );
}

granted-IsExclusive :
    (f : Text) (n c : ℕ) (alloc_ok : Bool) (ls : List SentenceLock)
    → get_client_write_info c ls ≡ none
    → IsExclusive ls
    → IsExclusive (if is_sentence_locked f n c ls then ls else add_sentence_lock alloc_ok f n c ls)
unfolding add_sentence_lock
granted-IsExclusive f n c alloc_ok ls idle v = elim (Bool-cases (is_sentence_locked f n c ls)) [
  | inl y ↦ rw y v
  | inr free ↦ rw free (elim (Bool-cases alloc_ok) [
    | inl y ↦ rw y (added-IsExclusive f n c ls idle free v)
    | inr z ↦ rw z v
  ])
]

lock_step-IsExclusive :
    (e : LockEvent) (ls : List SentenceLock) → IsExclusive ls → IsExclusive (lock_step e ls)
unfolding lock_step add_sentence_lock
lock_step-IsExclusive (write f n c alloc_ok) ls v =
    elim (Option-cases (get_client_write_info c ls)) [
      | inr (x, e) ↦ rw (e, lock_step) v
      | inl idle ↦ rw (idle, lock_step) (granted-IsExclusive f n c alloc_ok ls idle v)
    ]
lock_step-IsExclusive (finish c) ls v = elim (Option-cases (get_client_write_info c ls)) [
  | inl n ↦ rw (n, lock_step) v
  | inr (x, e) ↦ rw (e, lock_step) (removed-IsExclusive x.0 x.1 c ls v)
]
lock_step-IsExclusive (close c) ls v = closed-IsExclusive c ls v

-- The locks after a run, the latest event first.
abbrev pub locks_after : List LockEvent → List SentenceLock
locks_after [] = []
locks_after (e ∷ earlier) = lock_step e (locks_after earlier)

-- After any run of write requests, ends of writes and ends of connections, where the test and the
-- taking of a lock are one step, no sentence has locks of two clients, and no client has two
-- locks.
pub locks_after-IsExclusive : (events : List LockEvent) → IsExclusive (locks_after events)
locks_after-IsExclusive [] = record {
  client = λ c. omega arith;
  sentence = λ f n c d ne. omega arith;
}
locks_after-IsExclusive (e ∷ earlier) =
    lock_step-IsExclusive e (locks_after earlier) (locks_after-IsExclusive earlier)

-- A client in write mode has the lock that `get_client_write_info` names, and removing it takes
-- one lock of the client.
count-finished :
    (c : ℕ) (x : Text × ℕ) (ls : List SentenceLock)
    → get_client_write_info c ls ≡ some x
    → count (is_by c) ls ≡ count (is_by c) (remove_sentence_lock x.0 x.1 c ls) + 1
unfolding get_client_write_info remove_sentence_lock
count-finished c x [] h = absurd (cc h)
count-finished c x (l ∷ ls) h = elim (Bool-cases (l.client_fd == c)) [
  | inl y ↦
      let same : some (l.filename, l.sentence_num) ≡ some x = ground (arith, h, y) in
      let k = some_eq same in
      rw (← k, y, text_eq_refl l.filename, (==_iff l.sentence_num l.sentence_num).1 refl)
        (omega arith)
  | inr n ↦ ground (arith, n, count-finished c x ls, h)
]

-- After any such run, a client that ends its write or its connection has no lock left.
count-lock_step :
    (c : ℕ) (events : List LockEvent)
    → (count (is_by c) (lock_step (finish c) (locks_after events)) ≡ 0)
      × (count (is_by c) (lock_step (close c) (locks_after events)) ≡ 0)
unfolding lock_step
count-lock_step c events =
    let ls = locks_after events in
    let v = locks_after-IsExclusive events in
    (
      elim (Option-cases (get_client_write_info c ls)) [
        | inl n ↦
            let step : lock_step (finish c) ls ≡ ls = rw (n, lock_step) in
            rw step (count-get_client_write_info c ls n)
        | inr (x, e) ↦
            let step : lock_step (finish c) ls ≡ remove_sentence_lock x.0 x.1 c ls =
              rw (e, lock_step) in
            rw step (omega (arith, v.client c, count-finished c x ls e))
      ],
      ground (arith, count-remove_client_locks c c ls),
    )
