-- ===== src/Undo/Newest.antt =====
-- An undo takes the newest backup that is not used.
use collaborative_doc.Prelude.{
  ℕ, zero, suc, ◌≤◌, ◌≡◌, refl, sym, ap, subst, ℤ, pos, negsuc, true, false, some, inl, inr, List,
  [], ◌∷◌, if◌then◌else◌, length, take, arith, All, Text, All-weaken, Bool-cases, Option-cases,
  find_index, get_elem?, find_index-some,
}
use collaborative_doc.Strings.Lines.{raw_lines}
use collaborative_doc.Undo.{
  Backup, Versions, Opens, done, less, pass, sort_rounds, is_unused, read_backups, max_backups,
  line_size, backups_of, restore, perform_undo, content_size,
}

less_trans_not : (x y z : ℤ) → less x y ≡ false → less y z ≡ false → less x z ≡ false
less_trans_not (pos x) (pos y) (pos z) h k = ground (arith, h, k)
less_trans_not (pos x) (pos y) (negsuc z) h k = refl
less_trans_not (pos x) (negsuc y) (pos z) h k = absurd (cc k)
less_trans_not (pos x) (negsuc y) (negsuc z) h k = refl
less_trans_not (negsuc x) (pos y) z h k = absurd (cc h)
less_trans_not (negsuc x) (negsuc y) (pos z) h k = absurd (cc k)
less_trans_not (negsuc x) (negsuc y) (negsuc z) h k = ground (arith, h, k)

less_asym : (x y : ℤ) → less x y ≡ true → less y x ≡ false
less_asym (pos x) (pos y) h = ground (arith, h)
less_asym (pos x) (negsuc y) h = absurd (cc h)
less_asym (negsuc x) (pos y) h = refl
less_asym (negsuc x) (negsuc y) h = ground (arith, h)

less_irrefl : (x : ℤ) → less x x ≡ false
less_irrefl (pos x) = ground arith
less_irrefl (negsuc x) = ground arith

-- `b` is not older than `x`.
abbrev pub NotOlder : Backup → Backup → Type 0
NotOlder b x = less b.timestamp x.timestamp ≡ false

-- A property of all entries goes through a pass.
pass-All :
    (P : Backup → Type 0) (b : Backup) (xs : List Backup)
    → P b
    → All P xs
    → P (pass b xs).0 × All P (pass b xs).1
unfolding pass
pass-All P b [] h k = (h, tt)
pass-All P b (x ∷ xs) h k = elim (Bool-cases (less b.timestamp x.timestamp)) [
  | inl y ↦ let (a, r) = pass-All P x xs k.0 k.1 in rw y (a, (h, r))
  | inr n ↦ let (a, r) = pass-All P b xs h k.1 in rw n (a, (k.0, r))
]

-- A pass brings the newest entry to the front.
pass-NotOlder :
    (b : Backup) (xs : List Backup)
    → NotOlder (pass b xs).0 b × All (NotOlder (pass b xs).0) (pass b xs).1
unfolding pass
pass-NotOlder b [] = (less_irrefl b.timestamp, tt)
pass-NotOlder b (x ∷ xs) = elim (Bool-cases (less b.timestamp x.timestamp)) [
  | inl y ↦
      let (h, k) = pass-NotOlder x xs in
      let t =
        less_trans_not (pass x xs).0.timestamp x.timestamp b.timestamp h
          (less_asym b.timestamp x.timestamp y) in
      let e : pass b (x ∷ xs) ≡ ((pass x xs).0, b ∷ (pass x xs).1) = rw y refl in
      subst (λ p. NotOlder p.0 b × All (NotOlder p.0) p.1) (sym e) (t, (t, k))
  | inr n ↦
      let (h, k) = pass-NotOlder b xs in
      let e : pass b (x ∷ xs) ≡ ((pass b xs).0, x ∷ (pass b xs).1) = rw n refl in
      subst (λ p. NotOlder p.0 b × All (NotOlder p.0) p.1) (sym e)
        (h, (less_trans_not (pass b xs).0.timestamp b.timestamp x.timestamp h n, k))
]

-- A pass drops no entry.
pass-All_inv :
    (P : Backup → Type 0) (b : Backup) (xs : List Backup)
    → P (pass b xs).0
    → All P (pass b xs).1
    → P b × All P xs
unfolding pass
pass-All_inv P b [] h k = (h, tt)
pass-All_inv P b (x ∷ xs) h k = elim (Bool-cases (less b.timestamp x.timestamp)) [
  | inl y ↦
      let k' : P b × All P (pass x xs).1 = rw y at k in
      let (a, r) = pass-All_inv P x xs (rw y at h) k'.1 in (k'.0, (a, r))
  | inr n ↦
      let k' : P x × All P (pass b xs).1 = rw n at k in
      let (a, r) = pass-All_inv P b xs (rw n at h) k'.1 in (a, (k'.0, r))
]

length-pass : (b : Backup) (xs : List Backup) → length (pass b xs).1 ≡ length xs
unfolding pass
length-pass b [] = refl
length-pass b (x ∷ xs) = ap suc (length-pass (if less b.timestamp x.timestamp then x else b) xs)

sort_rounds-All :
    (P : Backup → Type 0) (fuel : ℕ) (bs : List Backup) → All P bs → All P (sort_rounds fuel bs)
unfolding sort_rounds
sort_rounds-All P zero bs h = h
sort_rounds-All P (suc fuel) [] h = tt
sort_rounds-All P (suc fuel) (b ∷ bs) h =
    let (a, r) = pass-All P b bs h.0 h.1 in (a, sort_rounds-All P fuel (pass b bs).1 r)

sort_rounds-All_inv :
    (P : Backup → Type 0) (fuel : ℕ) (bs : List Backup) → All P (sort_rounds fuel bs) → All P bs
unfolding sort_rounds
sort_rounds-All_inv P zero bs h = h
sort_rounds-All_inv P (suc fuel) [] h = tt
sort_rounds-All_inv P (suc fuel) (b ∷ bs) h =
    pass-All_inv P b bs h.0 (sort_rounds-All_inv P fuel (pass b bs).1 h.1)

-- Each entry is not older than those behind it.
abbrev pub IsSorted : List Backup → Type 0
IsSorted [] = Unit
IsSorted (b ∷ bs) = All (NotOlder b) bs × IsSorted bs

pub sort_rounds-IsSorted :
    (fuel : ℕ) (bs : List Backup) → length bs ≤ fuel → IsSorted (sort_rounds fuel bs)
unfolding sort_rounds
sort_rounds-IsSorted zero [] h = tt
sort_rounds-IsSorted zero (b ∷ bs) h = absurd (omega arith)
sort_rounds-IsSorted (suc fuel) [] h = tt
sort_rounds-IsSorted (suc fuel) (b ∷ bs) h =
    let (_, k) = pass-NotOlder b bs in
    (
      sort_rounds-All (NotOlder (pass b bs).0) fuel (pass b bs).1 k,
      sort_rounds-IsSorted fuel (pass b bs).1 (omega (arith, length-pass b bs)),
    )

-- The first unused entry of a sorted list is not older than any unused one.
first_unused :
    (bs : List Backup) (i : ℕ) (b : Backup)
    → IsSorted bs
    → find_index is_unused bs ≡ some i
    → get_elem? bs i ≡ some b
    → All (λ x. is_unused x ≡ true → NotOlder b x) bs
unfolding find_index
first_unused [] i b h k g = tt
first_unused (x ∷ xs) zero b h k g =
    let same : x ≡ b = cc g in
    (rw (sym same) (λ u. less_irrefl x.timestamp), All-weaken (λ y n u. rw (sym same) n) xs h.0)
first_unused (x ∷ xs) (suc i) b h k g = elim (Bool-cases (is_unused x)) [
  | inl y ↦ absurd (ground (arith, k, y))
  | inr n ↦ (λ u. absurd (cc (u, n)), first_unused xs i b h.1 (ground (arith, k, n)) g)
]

restored :
    (opens : Opens) (bs : List Backup) (i : ℕ) (b : Backup) (s : Versions)
    → (restore opens bs i b s).0 ≡ done
    → (content : Text) × (s.versions b.backup_name ≡ some content)
      × ((restore opens bs i b s).1.file ≡ some (take content_size content))
unfolding restore
restored opens bs i b s h = elim (Option-cases (s.versions b.backup_name)) [
  | inl n ↦ absurd (cc (rw (n, restore) at h))
  | inr (content, e) ↦ elim (Bool-cases opens.file) [
    | inr n ↦ absurd (cc (rw (e, restore, n) at h))
    | inl y ↦ (content, e, rw (e, restore, y) refl)
  ]
]

-- An undo that succeeds on a document with a history restores the content of an entry that is not
-- used, of the versions that the history names, and no unused entry among the first 1000 is
-- newer.
pub perform_undo-newest :
    (opens : Opens) (s : Versions) (text : Text)
    → s.history ≡ some text
    → (perform_undo opens s).0 ≡ done
    → (i : ℕ) × (b : Backup) × (content : Text) × (get_elem? (backups_of text) i ≡ some b)
      × (is_unused b ≡ true)
      × (s.versions b.backup_name ≡ some content)
      × ((perform_undo opens s).1.file ≡ some (take content_size content))
      × All
          (λ x. is_unused x ≡ true → NotOlder b x)
          (read_backups max_backups (raw_lines line_size text))
unfolding perform_undo
perform_undo-newest opens s text e h =
    elim (Option-cases (find_index is_unused (backups_of text))) [
      | inl n ↦ absurd (cc (rw (e, perform_undo, n) at h))
      | inr (i, k) ↦
          let read = read_backups max_backups (raw_lines line_size text) in
          let (_, (b, g, u)) = find_index-some is_unused (backups_of text) i k in
          let h' : (restore opens (backups_of text) i b s).0 ≡ done =
            rw (e, perform_undo, k, g) at h in
          let (content, v, w) = restored opens (backups_of text) i b s h' in
          (
            i,
            b,
            content,
            g,
            u,
            v,
            rw (e, perform_undo, k, g) w,
            sort_rounds-All_inv (λ x. is_unused x ≡ true → NotOlder b x) (length read) read
                (first_unused (backups_of text) i b
                  (sort_rounds-IsSorted (length read) read (omega arith)) k g),
          )
    ]
