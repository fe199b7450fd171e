-- ===== src/Search/Placement.antt =====
-- Records and the servers that they name, for the steps of the file index.
use collaborative_doc.Prelude.{
  ℕ, ◌≡◌, ◌∙◌, sym, subst, Bool, true, false, Option, none, some, inl, inr, arith, leb, ◌==◌,
  if◌then◌else◌, Text, text_eq, Option-cases, Bool-cases,
}
use collaborative_doc.Acl
use collaborative_doc.Trie.{Trie, find_record, find_strict, write_record}
use collaborative_doc.Trie.Lookup.{key, find_record-write_record}
use collaborative_doc.Search.Purge.{find_record-purge_trie}
use collaborative_doc.Search.Coherence.{some_eq}
use collaborative_doc.Search.Cached.{kept-some}
use collaborative_doc.Search.{
  FileRecord, SsFileRecord, Index, new_record, rebuilt_record, search_add_file,
  search_grant_permission, search_remove_permission, search_delete_file, search_purge_by_ss,
  search_rebuild_add_file,
}

-- Every record is on a server that passes the test `up`.
abbrev pub Placed : (ℕ → Bool) → Trie FileRecord → Type 0
Placed up root = (q : Text) (r : FileRecord) → find_record q root ≡ some r → up r.ss_index ≡ true

module _ (up : ℕ → Bool) where
  pub write-Placed :
      (f : Text) (new : Option FileRecord) (root : Trie FileRecord)
      → Placed up root
      → ((r : FileRecord) → new ≡ some r → up r.ss_index ≡ true)
      → Placed up (write_record f new root)
  write-Placed f new root h k q r e = elim (Bool-cases (text_eq (key f) (key q))) [
    | inl y ↦ k r (rw (find_record-write_record f q new root, y) at e)
    | inr n ↦ h q r (rw (find_record-write_record f q new root, n) at e)
  ]

  pub written-Placed :
      (f : Text) (r : FileRecord) (root : Trie FileRecord)
      → Placed up root
      → up r.ss_index ≡ true
      → Placed up (write_record f (some r) root)
  written-Placed f r root h k =
      write-Placed f (some r) root h
        (λ x e. subst (λ (y : FileRecord). up y.ss_index ≡ true) (some_eq e) k)

  pub add-Placed :
      (f : Text) (i : ℕ) (owner : Text) (s : Index)
      → up i ≡ true
      → Placed up s.root
      → Placed up (search_add_file f i owner s).root
  unfolding search_add_file
  add-Placed f i owner s u h = elim (Option-cases (find_record f s.root)) [
    | inl n ↦ rw (n, search_add_file) (written-Placed f (new_record f i owner) s.root h u)
    | inr (r, e) ↦ rw (e, search_add_file) h
  ]

  pub grant-Placed :
      (f owner target : Text) (p : ℕ) (s : Index)
      → Placed up s.root
      → Placed up (search_grant_permission f owner target p s).1.root
  unfolding search_grant_permission
  grant-Placed f owner target p s h = elim (Option-cases (find_record f s.root)) [
    | inl n ↦ rw (n, search_grant_permission) h
    | inr (r, e) ↦ elim (Bool-cases (text_eq r.owner_username owner)) [
      | inr n ↦ rw (e, search_grant_permission, n) h
      | inl y ↦ elim (Option-cases (Acl.acl_grant target p r.acl)) [
        | inl n ↦ rw (e, search_grant_permission, y, n) h
        | inr (acl, g) ↦
            rw (e, search_grant_permission, y, g)
              (written-Placed f (record r { acl = acl }) s.root h (h f r e))
      ]
    ]
  ]

  pub remove-Placed :
      (f owner target : Text) (s : Index)
      → Placed up s.root
      → Placed up (search_remove_permission f owner target s).1.root
  unfolding search_remove_permission
  remove-Placed f owner target s h = elim (Option-cases (find_record f s.root)) [
    | inl n ↦ rw (n, search_remove_permission) h
    | inr (r, e) ↦ elim (Bool-cases (text_eq r.owner_username owner)) [
      | inr n ↦ rw (e, search_remove_permission, n) h
      | inl y ↦
          rw (e, search_remove_permission, y)
            (written-Placed f (record r { acl = Acl.acl_remove target r.acl }) s.root h (h f r e))
    ]
  ]

  pub delete-Placed :
      (f user : Text) (s : Index)
      → Placed up s.root
      → Placed up (search_delete_file f user s).1.root
  unfolding search_delete_file
  delete-Placed f user s h = elim (Option-cases (find_strict f s.root)) [
    | inl n ↦ rw (n, search_delete_file) h
    | inr (r, e) ↦ elim (Bool-cases (text_eq r.owner_username user)) [
      | inr n ↦ rw (e, search_delete_file, n) h
      | inl y ↦ rw (e, search_delete_file, y) (write-Placed f none s.root h (λ x k. absurd (cc k)))
    ]
  ]

  pub rebuild-Placed :
      (i : ℕ) (p : SsFileRecord) (s : Index)
      → up i ≡ true
      → Placed up s.root
      → Placed up (search_rebuild_add_file i p s).root
  unfolding search_rebuild_add_file
  rebuild-Placed i p s u h =
      let new = written-Placed p.filename (rebuilt_record i p) s.root h u in
      elim (Option-cases (find_record p.filename s.root)) [
        | inl n ↦ rw (n, search_rebuild_add_file) new
        | inr (r, e) ↦ elim (Bool-cases (r.ss_index == i)) [
          | inr n ↦ rw (e, search_rebuild_add_file, n) h
          | inl y ↦ rw (e, search_rebuild_add_file, y) new
        ]
      ]

  -- After a purge no record names the dead server.
  pub purge-Placed :
      (dead : ℕ) (s : Index)
      → leb 10 dead ≡ false
      → Placed up s.root
      → Placed (λ j. if dead == j then false else up j) (search_purge_by_ss dead s).root
  unfolding search_purge_by_ss
  purge-Placed dead s l h q r e =
      let k =
        kept-some dead (find_record q s.root) r
          (sym (find_record-purge_trie dead q s.root) ∙ (rw l at e)) in
      ground (arith, h q r k.0, k.1)
