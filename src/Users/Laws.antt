-- ===== src/Users/Laws.antt =====
-- The invariant of the list of active users, and what a login and a logout do to it.
use collaborative_doc.Prelude.{
  ℕ, ◌+◌, ◌≤◌, ◌<◌, ◌≡◌, true, some, inl, inr, List, [], ◌∷◌, ◌++◌, arith, leb, if◌then◌else◌, Text,
  text_eq, text_eq_iff, length, All, count, find_index, find_index-some, find_index-none,
  swap_remove, count-append, count-swap_remove, length-swap_remove, Option-cases, Bool-cases,
  take_of_length-le, ◌↔◌, All-weaken, All-swap_remove, get_elem?, text_eq_sound, All-append,
  length-append, ltb, ◌||◌, find_index-none_iff_count,
}
use collaborative_doc.Users.{
  max_active_users, is_user, store_name, register, deregister, init_user_manager,
}

-- How often a name is listed.
abbrev pub listed : Text → List Text → ℕ
listed u = count (is_user u)

pub record IsValid (users : List Text) : Type 0 where
  pub bounded : length users ≤ max_active_users
  pub short : All (λ u. length u ≤ 63) users
  pub distinct : (u : Text) → listed u users ≤ 1

stored : (users : List Text) → All (λ u. length u ≤ 63) users → All (λ u. store_name u ≡ u) users
stored = All-weaken (λ u h. take_of_length-le 63 u h)

pub is_user_iff : (u v : Text) → (is_user u v ≡ true) ↔ (v ≡ u)
is_user_iff u v = text_eq_iff v u

pub init-IsValid : IsValid init_user_manager
init-IsValid = record { bounded = omega arith; short = tt; distinct = λ u. omega arith }

-- A registration by what is listed, with the scan gone.
register-eq :
    (u : Text) (users : List Text)
    → length u ≤ 63
    → register u users ≡ (
        if leb max_active_users (length users) || ltb 0 (listed u users)
        then users
        else users ++ u ∷ [])
unfolding register
register-eq u users h =
    ground (arith, take_of_length-le 63 u h, find_index-none_iff_count (is_user u) users)

pub length-register :
    (u : Text) (users : List Text) → length u ≤ 63 → length (register u users) ≤ length users + 1
length-register u users h =
    rw (register-eq u users h) (ground (arith, length-append users (u ∷ [])))

-- Registering keeps the invariant.
pub register-IsValid :
    (u : Text) (users : List Text) → length u ≤ 63 → IsValid users → IsValid (register u users)
register-IsValid u users h v = elim (Bool-cases (leb 50 (length users) || ltb 0 (listed u users))) [
  | inl e ↦ rw (register-eq u users h, e) v
  | inr e ↦
      rw (register-eq u users h, e)
        (record {
          bounded = rw (length-append users (u ∷ [])) (ground arith);
          short = All-append (λ u. length u ≤ 63) users (u ∷ []) v.short (h, tt);
          distinct = λ w.
              rw (count-append (is_user w) users (u ∷ []))
                (ground (arith, v.distinct w, is_user_iff w u));
        })
]

-- Who is listed after a registration that had room.
pub listed-register :
    (u w : Text) (users : List Text)
    → length u ≤ 63
    → length users < max_active_users
    → IsValid users
    → listed w (register u users) ≡ (if text_eq u w then 1 else listed w users)
listed-register u w users h room v = rw (register-eq u users h) (
    ground (
      arith,
      v.distinct w,
      is_user_iff w u,
      text_eq_iff u w,
      count-append (is_user w) users (u ∷ []),
    ))

-- A logout by what is listed: without the name nothing changes.
deregister_absent : (u : Text) (users : List Text) → listed u users ≡ 0 → deregister u users ≡ users
unfolding deregister
deregister_absent u users h = rw ((find_index-none_iff_count (is_user u) users).1 h, deregister)

deregister_at :
    (u : Text) (users : List Text)
    → 0 < listed u users
    → (i : ℕ) × (deregister u users ≡ swap_remove store_name users i)
      × (i < length users)
      × (get_elem? users i ≡ some u)
unfolding deregister
deregister_at u users h = elim (Option-cases (find_index (is_user u) users)) [
  | inl e ↦ absurd (omega (arith, find_index-none (is_user u) users e))
  | inr (i, e) ↦
      let (l, (x, g, p)) = find_index-some (is_user u) users i e in
      (i, rw (e, deregister), l, rw (← text_eq_sound x u p) g)
]

-- After a logout the name is gone and every other name is listed as before.
pub listed-deregister :
    (u w : Text) (users : List Text)
    → IsValid users
    → listed w (deregister u users) ≡ (if text_eq u w then 0 else listed w users)
listed-deregister u w users v = elim (Bool-cases (ltb 0 (listed u users))) [
  | inl e ↦
      let (i, d, l, g) = deregister_at u users (ground arith) in
      rw d (
        ground (
          arith,
          v.distinct w,
          is_user_iff w u,
          text_eq_iff u w,
          count-swap_remove (is_user w) store_name users i u g l (stored users v.short),
        ))
  | inr e ↦ rw (deregister_absent u users (ground arith)) (ground (arith, text_eq_iff u w))
]

pub deregister-fits :
    (u : Text) (users : List Text)
    → IsValid users
    → (length (deregister u users) ≤ length users) × All (λ a. length a ≤ 63) (deregister u users)
deregister-fits u users v = elim (Bool-cases (ltb 0 (listed u users))) [
  | inl e ↦
      let (i, d, l, g) = deregister_at u users (ground arith) in
      let kept =
        All-swap_remove (λ a. length a ≤ 63) store_name users i v.short (stored users v.short) in
      rw d (omega (arith, length-swap_remove store_name users i), kept)
  | inr e ↦ rw (deregister_absent u users (ground arith)) (omega arith, v.short)
]

-- A logout keeps the invariant.
pub deregister-IsValid :
    (u : Text) (users : List Text) → IsValid users → IsValid (deregister u users)
deregister-IsValid u users v =
    let (fits, short) = deregister-fits u users v in
    record {
      bounded = omega (arith, v.bounded);
      short = short;
      distinct = λ w. ground (arith, listed-deregister u w users v, v.distinct w);
    }
