-- ===== src/Acl/Laws.antt =====
-- What a grant and a removal do to the rights of every user.
use collaborative_doc.Prelude.{
  ℕ, ◌≤◌, ◌<◌, ◌≡◌, refl, true, false, some, inl, inr, [], ◌∷◌, ◌++◌, arith, leb, ltb,
  if◌then◌else◌, Text, text_eq, text_eq_iff, take_of_length-le, length, All, find_index,
  find_index-some, find_index-none, find_index-none_iff_count, modify-eq-set, set, length-set,
  get_elem?, swap_remove, count, count-set, count-append, count-swap_remove, length-swap_remove,
  length-append, count-le_rest, count-at, count-le, Option-cases, ◌⊎◌, get_elem?-lt,
}
use collaborative_doc.Acl.{
  Acl, AclEntry, is_of, grants, acl_allows, acl_grant, acl_remove, max_acl_entries,
}

pub record IsValid (acl : Acl) : Type 0 where
  pub bounded : length acl ≤ max_acl_entries
  pub unique : (user : Text) → count (is_of user) acl ≤ 1

pub empty-IsValid : IsValid []
empty-IsValid = record { bounded = omega arith; unique = λ user. omega arith }

pub allows-count :
    (u : Text) (p : ℕ) (acl : Acl) → acl_allows u p acl ≡ ltb 0 (count (grants u p) acl)
unfolding acl_allows
allows-count u p acl = ground (arith, find_index-none_iff_count (grants u p) acl)

grants-is_of : (u : Text) (p : ℕ) (e : AclEntry) → grants u p e ≡ true → is_of u e ≡ true
grants-is_of u p e h = ground arith

all_same : (acl : Acl) → All (λ (e : AclEntry). e ≡ e) acl
all_same [] = tt
all_same (e ∷ acl) = (refl, all_same acl)

-- The two ways in which a grant can succeed.
grant-cases :
    (target : Text) (p : ℕ) (acl acl' : Acl)
    → length target ≤ 63
    → acl_grant target p acl ≡ some acl'
    → ((i : ℕ) × (e : AclEntry) × (get_elem? acl i ≡ some e)
        × (is_of target e ≡ true)
        × (acl' ≡ set acl i (record e { permission = p })))
      ⊎ ((acl' ≡ acl ++ record { username = target; permission = p } ∷ [])
          × (count (is_of target) acl ≡ 0)
          × (length acl < max_acl_entries))
unfolding acl_grant
grant-cases target p acl acl' short h = elim (Option-cases (find_index (is_of target) acl)) [
  | inl n ↦ inr (
    ground (arith, take_of_length-le 63 target short),
    find_index-none (is_of target) acl n,
    ground arith,
  )
  | inr (i, n) ↦
      let (l, (e, g, m)) = find_index-some (is_of target) acl i n in
      let f = λ (x : AclEntry). record x { permission = p } in
      inl (i, e, g, m, ground (arith, modify-eq-set acl i f e g))
]

module _ (target : Text) (p : ℕ) (acl acl' : Acl) (short : length target ≤ 63) (valid : IsValid acl)
    (granted : acl_grant target p acl ≡ some acl') where
  -- After a grant the target has exactly the rights up to the granted one, and every other user
  -- has the rights of before.
  pub acl_allows-acl_grant :
      (u : Text) (q : ℕ)
      → acl_allows u q acl' ≡ (if text_eq target u then leb q p else acl_allows u q acl)
  acl_allows-acl_grant u q = elim (grant-cases target p acl acl' short granted) [
    | inl (i, e, g, m, s) ↦
        let e' = record e { permission = p } in
        rw (s, allows-count u q (set acl i e'), allows-count u q acl)
          (ground (
            arith,
            m,
            valid.unique u,
            text_eq_iff target u,
            text_eq_iff e.username u,
            text_eq_iff e.username target,
            count-set (grants u q) acl i e' e g,
            count-at (grants u q) acl i e g,
            count-le_rest (grants u q) (is_of u) (grants-is_of u q) acl i e g,
          ))
    | inr (s, z, l) ↦
        let new : AclEntry = record { username = target; permission = p } in
        rw
          (
            s,
            allows-count u q (acl ++ new ∷ []),
            allows-count u q acl,
            count-append (grants u q) acl (new ∷ []),
          )
          (ground (
            arith,
            z,
            text_eq_iff target u,
            count-le (grants u q) (is_of u) (grants-is_of u q) acl,
          ))
  ]

  pub grant-IsValid : IsValid acl'
  grant-IsValid = elim (grant-cases target p acl acl' short granted) [
    | inl (i, e, g, m, s) ↦
        let e' = record e { permission = p } in
        rw s (record {
          bounded = omega (arith, length-set acl i e', valid.bounded);
          unique = λ u. omega (arith, valid.unique u, count-set (is_of u) acl i e' e g);
        })
    | inr (s, z, l) ↦
        let new : AclEntry = record { username = target; permission = p } in
        rw s (record {
          bounded = omega (arith, length-append acl (new ∷ []));
          unique = λ u.
              rw (count-append (is_of u) acl (new ∷ []))
                (ground (arith, z, valid.unique u, text_eq_iff target u));
        })
  ]

remove-cases :
    (target : Text) (acl : Acl)
    → ((acl_remove target acl ≡ acl) × (count (is_of target) acl ≡ 0))
      ⊎ ((i : ℕ) × (e : AclEntry) × (get_elem? acl i ≡ some e)
          × (is_of target e ≡ true)
          × (acl_remove target acl ≡ swap_remove (λ x. x) acl i))
unfolding acl_remove
remove-cases target acl = elim (Option-cases (find_index (is_of target) acl)) [
  | inl n ↦ inl (rw (n, acl_remove), find_index-none (is_of target) acl n)
  | inr (i, n) ↦
      let (l, (e, g, m)) = find_index-some (is_of target) acl i n in
      inr (i, e, g, m, rw (n, acl_remove))
]

module _ (target : Text) (acl : Acl) (valid : IsValid acl) where
  -- After a removal the target has no right left, and every other user has the rights of before.
  pub acl_allows-acl_remove :
      (u : Text) (q : ℕ)
      → acl_allows u q (acl_remove target acl)
        ≡ (if text_eq target u then false else acl_allows u q acl)
  acl_allows-acl_remove u q = elim (remove-cases target acl) [
    | inl (s, z) ↦
        rw (s, allows-count u q acl)
          (ground (
            arith,
            z,
            text_eq_iff target u,
            count-le (grants u q) (is_of u) (grants-is_of u q) acl,
          ))
    | inr (i, e, g, m, s) ↦
        rw (s, allows-count u q (swap_remove (λ x. x) acl i), allows-count u q acl)
          (ground (
            arith,
            m,
            valid.unique u,
            text_eq_iff target u,
            text_eq_iff e.username u,
            text_eq_iff e.username target,
            count-swap_remove (grants u q) (λ x. x) acl i e g (get_elem?-lt acl i e g)
                (all_same acl),
            count-le_rest (grants u q) (is_of u) (grants-is_of u q) acl i e g,
          ))
  ]

  pub remove-IsValid : IsValid (acl_remove target acl)
  remove-IsValid = elim (remove-cases target acl) [
    | inl (s, z) ↦ rw s valid
    | inr (i, e, g, m, s) ↦ rw s (record {
      bounded = omega (arith, length-swap_remove (λ x. x) acl i, valid.bounded);
      unique = λ u. omega (
        arith,
        valid.unique u,
        count-swap_remove (is_of u) (λ x. x) acl i e g (get_elem?-lt acl i e g) (all_same acl),
      );
    })
  ]
