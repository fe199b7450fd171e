-- ===== src/Search/Access.antt =====
-- Who may do what after a grant or a removal, and who may make one.
use collaborative_doc.Prelude.{
  ℕ, ◌≡◌, ◌≤◌, ◌∙◌, refl, sym, Bool, true, ◌||◌, ◌&&◌, some, inl, inr, arith, leb, if◌then◌else◌,
  Text, text_eq, text_eq_sound, Option-cases, Bool-cases, length,
}
use collaborative_doc.Acl
use collaborative_doc.Acl.Laws
use collaborative_doc.Trie.{find_record, write_record}
use collaborative_doc.Trie.Lookup.{key, find_record-write_record, find_record-key}
use collaborative_doc.Search.{
  FileRecord, Index, search_grant_permission, search_remove_permission, search_check_permission,
}

-- The right of a user by the record alone.
abbrev pub may : Text → ℕ → FileRecord → Bool
may u q r = text_eq r.owner_username u || Acl.acl_allows u q r.acl

check-written :
    (f g u : Text) (q : ℕ) (r : FileRecord) (s : Index)
    → search_check_permission g u q (record s { root = write_record f (some r) s.root })
      ≡ (if text_eq (key f) (key g) then may u q r else search_check_permission g u q s)
unfolding search_check_permission
check-written f g u q r s =
    rw (search_check_permission, find_record-write_record f g (some r) s.root)
      (elim (Bool-cases (text_eq (key f) (key g))) [ inl y ↦ rw y refl | inr n ↦ rw n refl ])

check-found :
    (f g u : Text) (q : ℕ) (r : FileRecord) (s : Index)
    → find_record f s.root ≡ some r
    → text_eq (key f) (key g) ≡ true
    → search_check_permission g u q s ≡ may u q r
unfolding search_check_permission
check-found f g u q r s e k =
    let same : find_record g s.root ≡ some r =
      find_record-key g s.root
      ∙ (rw (← text_eq_sound (key f) (key g) k))
      ∙ sym (find_record-key f s.root)
      ∙ e in
    rw (same, search_check_permission)

-- A grant that succeeds, on a file with a valid access list and to a name of at most 63 bytes,
-- was made by the owner and leaves the other files alone; on the file, the target has exactly the
-- rights up to the granted one, unless it is the owner, and everybody else has the rights of
-- before.
pub search_check_permission-search_grant_permission :
    (f owner target g u : Text) (p q : ℕ) (s : Index) (r : FileRecord)
    → find_record f s.root ≡ some r
    → Laws.IsValid r.acl
    → length target ≤ 63
    → (search_grant_permission f owner target p s).0 ≡ true
    → (r.owner_username ≡ owner)
      × (search_check_permission g u q (search_grant_permission f owner target p s).1 ≡ (
          if text_eq (key f) (key g) && text_eq target u
          then text_eq owner u || leb q p
          else search_check_permission g u q s))
unfolding search_grant_permission
search_check_permission-search_grant_permission f owner target g u p q s r e v short h =
    elim (Bool-cases (text_eq r.owner_username owner)) [
      | inr n ↦ absurd (ground (arith, h, e, n))
      | inl y ↦ elim (Option-cases (Acl.acl_grant target p r.acl)) [
        | inl n ↦ absurd (ground (arith, h, e, y, n))
        | inr (acl, k) ↦ (
          text_eq_sound r.owner_username owner y,
          rw (e, search_grant_permission, y, k)
              (rw (check-written f g u q (record r { acl = acl }) s) (
                ground (
                  arith,
                  check-found f g u q r s e,
                  Laws.acl_allows-acl_grant target p r.acl acl short v k u q,
                  text_eq_sound r.owner_username owner y,
                ))),
        )
      ]
    ]

-- A removal that succeeds, on a file with a valid access list, was made by the owner and leaves
-- the other files alone; on the file, the target has no right left, unless it is the owner, and
-- everybody else has the rights of before.
pub search_check_permission-search_remove_permission :
    (f owner target g u : Text) (q : ℕ) (s : Index) (r : FileRecord)
    → find_record f s.root ≡ some r
    → Laws.IsValid r.acl
    → (search_remove_permission f owner target s).0 ≡ true
    → (r.owner_username ≡ owner)
      × (search_check_permission g u q (search_remove_permission f owner target s).1 ≡ (
          if text_eq (key f) (key g) && text_eq target u
          then text_eq owner u
          else search_check_permission g u q s))
unfolding search_remove_permission
search_check_permission-search_remove_permission f owner target g u q s r e v h =
    elim (Bool-cases (text_eq r.owner_username owner)) [
      | inr n ↦ absurd (ground (arith, h, e, n))
      | inl y ↦ (
        text_eq_sound r.owner_username owner y,
        rw (e, search_remove_permission, y)
            (rw (check-written f g u q (record r { acl = Acl.acl_remove target r.acl }) s) (
              ground (
                arith,
                check-found f g u q r s e,
                Laws.acl_allows-acl_remove target r.acl v u q,
                text_eq_sound r.owner_username owner y,
              ))),
      )
    ]
