-- ===== src/Prelude/Table.antt =====
-- Bounded tables as the C code keeps them: a linear scan for the first match, an update in place,
-- and a removal that moves the last entry into the hole.
use Prim.Native.Nat.{ℕ, zero, suc, ◌+◌, ◌-◌, ◌≤◌, ◌<◌}
use mathlib.Core.Path.{◌≡◌, refl, ap}
use mathlib.Core.Bool.{Bool, true, false}
use mathlib.Core.List.{List, [], ◌∷◌, ◌++◌}
use mathlib.Core.Logic.{◌↔◌, inl, inr}
use mathlib.Core.Option.{Option, none, some}
use native.Mathlib.Omega.{arith}
use collaborative_doc.Prelude.Tests.{if◌then◌else◌, Bool-cases}
use collaborative_doc.Prelude.Lists.{length, get_elem?, set, length-set}

abbrev pub one_if : Bool → ℕ
one_if true = 1
one_if false = 0

module _ {ℓ} {A : Type ℓ} where
  -- A predicate on every entry.
  abbrev pub All {κ} : (A → Type κ) → List A → Type κ
  All P [] = Unit
  All P (x ∷ xs) = P x × All P xs

  -- `for (i = 0; i < n; i++) if (p(xs[i])) { found = i; break; }`
  unfoldable pub find_index : (A → Bool) → List A → Option ℕ
  find_index p [] = none
  find_index p (x ∷ xs) =
      if p x then some 0 else elim (find_index p xs) [ none ↦ none | some i ↦ some (suc i) ]

  -- A write to one entry in place.
  abbrev pub modify : List A → ℕ → (A → A) → List A
  modify [] i f = []
  modify (x ∷ xs) zero f = f x ∷ xs
  modify (x ∷ xs) (suc i) f = x ∷ modify xs i f

  -- How many entries pass a test.
  abbrev pub count : (A → Bool) → List A → ℕ
  count p [] = 0
  count p (x ∷ xs) = one_if (p x) + count p xs

  -- The last entry; `d` where there is none.
  abbrev pub last_or : A → List A → A
  last_or d [] = d
  last_or d (x ∷ xs) = last_or x xs

  -- The entries before the last one.
  abbrev pub but_last : List A → List A
  but_last [] = []
  but_last (x ∷ []) = []
  but_last (x ∷ y ∷ xs) = x ∷ but_last (y ∷ xs)

  -- `xs[i] = copy(xs[n - 1]); n--;`
  unfoldable pub swap_remove : (A → A) → List A → ℕ → List A
  swap_remove copy [] i = []
  swap_remove copy (x ∷ xs) i = but_last (set (x ∷ xs) i (copy (last_or x xs)))

module _ {ℓ} {A : Type ℓ} (p : A → Bool) where
  pub find_index-some :
      (xs : List A) (i : ℕ)
      → find_index p xs ≡ some i
      → (i < length xs) × ((x : A) × (get_elem? xs i ≡ some x) × (p x ≡ true))
  unfolding find_index
  find_index-some [] i h = ground arith
  find_index-some (x ∷ xs) zero h = elim (Bool-cases (p x)) [
    | inl e ↦ (omega arith, (x, refl, e))
    | inr e ↦ absurd (ground (arith, h))
  ]
  find_index-some (x ∷ xs) (suc i) h =
      let r = find_index-some xs i (ground arith) in (omega (arith, r.0), r.1)

  pub find_index-none : (xs : List A) → find_index p xs ≡ none → count p xs ≡ 0
  unfolding find_index
  find_index-none [] h = refl
  find_index-none (x ∷ xs) h = ground (arith, find_index-none xs)

  pub find_index-none_of_count : (xs : List A) → count p xs ≡ 0 → find_index p xs ≡ none
  unfolding find_index
  find_index-none_of_count [] h = refl
  find_index-none_of_count (x ∷ xs) h = ground (arith, find_index-none_of_count xs)

  pub find_index-none_iff_count : (xs : List A) → (find_index p xs ≡ none) ↔ (count p xs ≡ 0)
  find_index-none_iff_count xs = (find_index-none xs, find_index-none_of_count xs)

  pub count-append : (xs ys : List A) → count p (xs ++ ys) ≡ count p xs + count p ys
  count-append [] ys = omega arith
  count-append (x ∷ xs) ys = omega (arith, count-append xs ys)

  pub count-le-length : (xs : List A) → count p xs ≤ length xs
  count-le-length [] = omega arith
  count-le-length (x ∷ xs) = ground (arith, count-le-length xs)

  pub count-set :
      (xs : List A) (i : ℕ) (v x : A)
      → get_elem? xs i ≡ some x
      → count p (set xs i v) + one_if (p x) ≡ count p xs + one_if (p v)
  count-set [] i v x h = ground arith
  count-set (y ∷ xs) zero v x h = ground arith
  count-set (y ∷ xs) (suc i) v x h = omega (arith, count-set xs i v x h)

  count-but_last :
      (x : A) (xs : List A)
      → count p (but_last (x ∷ xs)) + one_if (p (last_or x xs)) ≡ count p (x ∷ xs)
  count-but_last x [] = omega arith
  count-but_last x (y ∷ xs) = omega (arith, count-but_last y xs)

module _ {ℓ} {A : Type ℓ} where
  last_or-set :
      (d x : A) (xs : List A) (i : ℕ)
      → i < length (x ∷ xs)
      → last_or d (set (x ∷ xs) i (last_or x xs)) ≡ last_or x xs
  last_or-set d x [] zero h = refl
  last_or-set d x [] (suc i) h = absurd (omega arith)
  last_or-set d x (y ∷ xs) zero h = refl
  last_or-set d x (y ∷ xs) (suc i) h = last_or-set x y xs i (omega arith)

  All-last_or {κ} : (P : A → Type κ) (d : A) (xs : List A) → All P (d ∷ xs) → P (last_or d xs)
  All-last_or P d [] h = h.0
  All-last_or P d (x ∷ xs) h = All-last_or P x xs h.1

  length-but_last : (x : A) (xs : List A) → length (but_last (x ∷ xs)) ≡ length xs
  length-but_last x [] = refl
  length-but_last x (y ∷ xs) = ap suc (length-but_last y xs)

  set-nonempty :
      (x : A) (xs : List A) (i : ℕ) (v : A)
      → (y : A) × (ys : List A) × (set (x ∷ xs) i v ≡ y ∷ ys) × (length ys ≡ length xs)
  set-nonempty x xs zero v = (v, xs, refl, refl)
  set-nonempty x xs (suc i) v = (x, set xs i v, refl, length-set xs i v)

  pub length-swap_remove :
      (copy : A → A) (xs : List A) (i : ℕ) → length (swap_remove copy xs i) ≡ length xs - 1
  unfolding swap_remove
  length-swap_remove copy [] i = omega arith
  length-swap_remove copy (x ∷ xs) i =
      let (y, ys, e, l) = set-nonempty x xs i (copy (last_or x xs)) in
      rw (e, length-but_last y ys, l) (omega arith)

  -- A removal takes away exactly the entry that was found, whatever is counted.
  pub count-swap_remove :
      (p : A → Bool) (copy : A → A) (xs : List A) (i : ℕ) (x : A)
      → get_elem? xs i ≡ some x
      → i < length xs
      → All (λ a. copy a ≡ a) xs
      → count p (swap_remove copy xs i) + one_if (p x) ≡ count p xs
  unfolding swap_remove
  count-swap_remove p copy [] i x h l fixed = absurd (omega arith)
  count-swap_remove p copy (a ∷ xs) i x h l fixed =
      let e : copy (last_or a xs) ≡ last_or a xs = All-last_or (λ a. copy a ≡ a) a xs fixed in
      let (y, ys, s, _) = set-nonempty a xs i (last_or a xs) in
      let k : last_or y ys ≡ last_or a xs = rw s at (last_or-set a a xs i l) in
      let m : count p (y ∷ ys) + one_if (p x) ≡ count p (a ∷ xs) + one_if (p (last_or a xs)) =
        rw s at (count-set p (a ∷ xs) i (last_or a xs) x h) in
      rw (e, s) (omega (arith, m, rw k at (count-but_last p y ys)))

module _ {ℓ κ} {A : Type ℓ} (P : A → Type κ) where
  pub All-append : (xs ys : List A) → All P xs → All P ys → All P (xs ++ ys)
  All-append [] ys h k = k
  All-append (x ∷ xs) ys h k = (h.0, All-append xs ys h.1 k)

  pub All-set : (xs : List A) (i : ℕ) (v : A) → All P xs → P v → All P (set xs i v)
  All-set [] i v h k = h
  All-set (x ∷ xs) zero v h k = (k, h.1)
  All-set (x ∷ xs) (suc i) v h k = (h.0, All-set xs i v h.1 k)

  All-but_last : (xs : List A) → All P xs → All P (but_last xs)
  All-but_last [] h = h
  All-but_last (x ∷ []) h = tt
  All-but_last (x ∷ y ∷ xs) h = (h.0, All-but_last (y ∷ xs) h.1)

  pub All-swap_remove :
      (copy : A → A) (xs : List A) (i : ℕ)
      → All P xs
      → All (λ a. copy a ≡ a) xs
      → All P (swap_remove copy xs i)
  unfolding swap_remove
  All-swap_remove copy [] i h fixed = h
  All-swap_remove copy (a ∷ xs) i h fixed = rw (All-last_or (λ a. copy a ≡ a) a xs fixed) (
      All-but_last (set (a ∷ xs) i (last_or a xs))
        (All-set (a ∷ xs) i (last_or a xs) h (All-last_or P a xs h)))

pub All-weaken {ℓ κ μ} :
    {A : Type ℓ} {P : A → Type κ} {Q : A → Type μ}
    → ((x : A) → P x → Q x)
    → (xs : List A) → All P xs
    → All Q xs
All-weaken f [] h = tt
All-weaken f (x ∷ xs) h = (f x h.0, All-weaken f xs h.1)

module _ {ℓ} {A : Type ℓ} where
  pub modify-eq-set :
      (xs : List A) (i : ℕ) (f : A → A) (x : A)
      → get_elem? xs i ≡ some x
      → modify xs i f ≡ set xs i (f x)
  modify-eq-set [] i f x h = refl
  modify-eq-set (y ∷ xs) zero f x h = ground (arith, h)
  modify-eq-set (y ∷ xs) (suc i) f x h = ap (◌∷◌ y) (modify-eq-set xs i f x h)

  pub get_elem?-lt : (xs : List A) (i : ℕ) (x : A) → get_elem? xs i ≡ some x → i < length xs
  get_elem?-lt [] i x h = absurd (ground arith)
  get_elem?-lt (y ∷ xs) zero x h = omega arith
  get_elem?-lt (y ∷ xs) (suc i) x h = omega (arith, get_elem?-lt xs i x h)

  pub get_elem?-of_lt : (xs : List A) (i : ℕ) → i < length xs → (x : A) × (get_elem? xs i ≡ some x)
  get_elem?-of_lt [] i h = absurd (omega arith)
  get_elem?-of_lt (x ∷ xs) zero h = (x, refl)
  get_elem?-of_lt (x ∷ xs) (suc i) h = get_elem?-of_lt xs i (omega arith)

module _ {ℓ} {A : Type ℓ} (p q : A → Bool) (sub : (a : A) → p a ≡ true → q a ≡ true) where
  pub count-le : (xs : List A) → count p xs ≤ count q xs
  count-le [] = omega arith
  count-le (x ∷ xs) = ground (arith, count-le xs, sub x)

  -- Of the entries beside the one at `i`, no more pass the stronger test.
  pub count-le_rest :
      (xs : List A) (i : ℕ) (x : A)
      → get_elem? xs i ≡ some x
      → count p xs + one_if (q x) ≤ count q xs + one_if (p x)
  count-le_rest [] i x h = absurd (ground arith)
  count-le_rest (y ∷ xs) zero x h =
      let e : y ≡ x = ground (arith, h) in rw e (omega (arith, count-le xs))
  count-le_rest (y ∷ xs) (suc i) x h = ground (arith, count-le_rest xs i x h, sub y)

pub count-at {ℓ} :
    {A : Type ℓ} (p : A → Bool) (xs : List A) (i : ℕ) (x : A)
    → get_elem? xs i ≡ some x
    → one_if (p x) ≤ count p xs
count-at p [] i x h = absurd (ground arith)
count-at p (y ∷ xs) zero x h = ground (arith, h)
count-at p (y ∷ xs) (suc i) x h = omega (arith, count-at p xs i x h)
