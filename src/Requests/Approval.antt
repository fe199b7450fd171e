-- ===== src/Requests/Approval.antt =====
-- What an approved request gives.
use collaborative_doc.Prelude.{
  ℕ, ◌≤◌, ◌≡◌, ◌≢◌, ◌∙◌, refl, sym, Bool, true, false, Option, some, inl, inr, Text, text_eq,
  text_eq_refl, text_eq_sound, length, leb, bytes, if◌then◌else◌, Bool-cases, ℤ, arith,
}
use collaborative_doc.Acl.{Acl, acl_allows, acl_grant}
use collaborative_doc.Acl.Laws as AclLaws
use collaborative_doc.Metadata.{Store, Disk, persist_find_file, persist_set_acl}
use collaborative_doc.Metadata.Format.{FileMeta}
use collaborative_doc.Metadata.Access.{set_acl-found}
use collaborative_doc.Requests.{
  success, done, has_access, check_file_owner, is_permission, perm_flag, approve_access_request,
  approve_request, request_access, allowed, rewrite_requests, is_pending_for,
}

not_same : (a b c : Text) → a ≡ b → c ≢ b → text_eq a c ≡ false
not_same a b c e n = elim (Bool-cases (text_eq a c)) [
  | inl y ↦ absurd (n (sym (text_eq_sound a c y) ∙ e))
  | inr z ↦ z
]

-- An approval that succeeds changes the metadata as `persist_set_acl` does.
approved :
    (f username requester permission : Text) (file : Option Text) (opens : Bool) (d : Disk)
    (s : Store)
    → (approve_request f username requester permission file opens d s).0 ≡ done success
    → (is_permission permission ≡ true)
      × (check_file_owner f username s ≡ true)
      × ((approve_request f username requester permission file opens d s).1.1
          ≡ persist_set_acl f requester (perm_flag permission) d s)
unfolding approve_request approve_access_request
approved f username requester permission file opens d s h =
    elim (Bool-cases (is_permission permission)) [
      | inr n ↦ absurd (cc (rw n at h))
      | inl y ↦ elim (Bool-cases (check_file_owner f username s)) [
        | inr n ↦ absurd (cc (rw (y, n) at h))
        | inl z ↦
            let same : (rewrite_requests (is_pending_for requester permission) (bytes "APPROVED")
                  file opens).0
                ≡ success =
              cc (rw (y, z) at h) in
            (y, z, rw (y, z, same, approve_access_request) refl)
      ]
    ]

-- An APPROVEREQUEST that succeeds, for a requester who is not the user and has a name of at most
-- 63 bytes, on a file with a valid access list that has room, was made by the owner; the list
-- then gives the requester exactly the rights up to the approved one and everybody else the
-- rights of before; a new REQUESTACCESS of the requester for the same permission, on a file that
-- exists, is answered that access is there.
pub request_access-approve_request :
    (f username requester permission : Text) (file : Option Text) (opens : Bool) (d : Disk)
    (s : Store) (m : FileMeta) (acl : Acl)
    → persist_find_file f s ≡ some m
    → AclLaws.IsValid m.acl
    → length requester ≤ 63
    → acl_grant requester (perm_flag permission) m.acl ≡ some acl
    → requester ≢ username
    → (approve_request f username requester permission file opens d s).0 ≡ done success
    → (m.owner_username ≡ username)
      × (persist_find_file f (approve_request f username requester permission file opens d s).1.1
          ≡ some (record m { acl = acl }))
      × ((u : Text) (q : ℕ)
          → acl_allows u q acl
            ≡ (if text_eq requester u then leb q (perm_flag permission) else acl_allows u q m.acl))
      × ((file' : Option Text) (appends : Bool) (now : ℤ)
          → (request_access f requester permission file' true appends now
              (approve_request f username requester permission file opens d s).1.1).0
            ≡ has_access)
unfolding request_access
request_access-approve_request f username requester permission file opens d s m acl e v short g
      other h =
    let (valid, owner, same) = approved f username requester permission file opens d s h in
    let p = perm_flag permission in
    let found = set_acl-found f requester p d s m acl e g in
    let owned : text_eq m.owner_username username ≡ true = rw (e, check_file_owner) at owner in
    let rights = AclLaws.acl_allows-acl_grant requester p m.acl acl short v g in
    let has : acl_allows requester p acl ≡ true =
      rights requester p ∙ (rw (text_eq_refl requester) (ground arith)) in
    (
      text_eq_sound m.owner_username username owned,
      rw same found,
      rights,
      λ file' appends now.
          let no : text_eq m.owner_username requester ≡ false =
            not_same m.owner_username username requester
              (text_eq_sound m.owner_username username owned) other in
          let s' = persist_set_acl f requester p d s in
          let not_own : check_file_owner f requester s' ≡ false = rw (found, check_file_owner) no in
          let has' : allowed f requester permission s' ≡ true = rw (found, allowed) has in
          rw (same, valid, not_own, has') refl,
    )
