-- ===== src/Users/Listing.antt =====
-- The text that `user_manager_get_list` writes.
use collaborative_doc.Prelude.{
  ℕ, ◌+◌, ◌*◌, ◌≤◌, ◌<◌, ◌≡◌, sym, false, inl, inr, List, [], ◌∷◌, ◌++◌, arith, leb, Text, length,
  All, length-append, Bool-cases, append_assoc, append-nil,
}
use collaborative_doc.Users.{list_from, get_list}
use collaborative_doc.Users.Laws.{IsValid}

-- A line for each name.
abbrev pub lines : List Text → Text
lines [] = []
lines (u ∷ us) = u ++ b'\n' ∷ lines us

length-lines :
    (users : List Text) → All (λ u. length u ≤ 63) users → length (lines users) ≤ length users * 64
length-lines [] h = omega arith
length-lines (u ∷ us) h = omega (arith, length-lines us h.1, length-append u (b'\n' ∷ lines us))

list_from-lt :
    (size : ℕ) (out : Text) (users : List Text)
    → length out < size
    → length (list_from size out users) < size
unfolding list_from
list_from-lt size out [] h = h
list_from-lt size out (u ∷ us) h = elim (Bool-cases (leb size (length out + (length u + 1)))) [
  | inl e ↦ rw e h
  | inr e ↦
      let e' : length out + (length u + 1) < size = ground arith in
      rw e (
        list_from-lt size (out ++ (u ++ b'\n' ∷ [])) us
          (omega (arith, e', length-append out (u ++ b'\n' ∷ []), length-append u (b'\n' ∷ []))))
]

list_from-all :
    (size : ℕ) (out : Text) (users : List Text)
    → length out + length (lines users) < size
    → list_from size out users ≡ out ++ lines users
unfolding list_from
list_from-all size out [] h = sym (append-nil out)
list_from-all size out (u ∷ us) h =
    let out' = out ++ (u ++ b'\n' ∷ []) in
    let n = length-append u (b'\n' ∷ lines us) in
    let n' : length out' ≡ length out + (length u + 1) =
      omega (arith, length-append out (u ++ b'\n' ∷ []), length-append u (b'\n' ∷ [])) in
    let test : leb size (length out + (length u + 1)) ≡ false = ground (arith, n) in
    rw (test, list_from-all size out' us (omega (arith, n, n'))) (simp append_assoc)

-- The offset that is returned stays inside a buffer that is not empty, whatever is listed.
get_list-lt : (size : ℕ) (users : List Text) → 0 < size → length (get_list size users) < size
unfolding get_list
get_list-lt size users h = list_from-lt size [] users h

-- The buffer of 4096 bytes is large enough for every valid list of users: each user has a line,
-- in the order of the list.
get_list-lines : (users : List Text) → IsValid users → get_list 4096 users ≡ lines users
unfolding get_list
get_list-lines users v =
    list_from-all 4096 [] users (omega (arith, length-lines users v.short, v.bounded))
