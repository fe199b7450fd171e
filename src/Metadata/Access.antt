-- ===== src/Metadata/Access.antt =====
-- The access list of an entry behind `persist_set_acl` and `persist_remove_acl`.
use collaborative_doc.Prelude.{
  ℕ, ◌≡◌, ◌∙◌, refl, some, inl, inr, List, Text, text_eq_refl, Option-cases, find_index,
}
use collaborative_doc.Acl.{AclEntry, acl_grant, acl_remove, is_of}
use collaborative_doc.Metadata.Format.{FileMeta}
use collaborative_doc.Metadata.{Store, Disk, persist_find_file, persist_set_acl, persist_remove_acl}
use collaborative_doc.Metadata.Table.{persist_find_file-update_entry}

pub set_acl-found :
    (f target : Text) (p : ℕ) (d : Disk) (s : Store) (m : FileMeta) (acl : List AclEntry)
    → persist_find_file f s ≡ some m
    → acl_grant target p m.acl ≡ some acl
    → persist_find_file f (persist_set_acl f target p d s) ≡ some (record m { acl = acl })
unfolding persist_set_acl
set_acl-found f target p d s m acl e g =
    rw (e, persist_set_acl, g)
      (persist_find_file-update_entry f f (λ x. record x { acl = acl }) d s (λ x. refl)
        ∙ (rw (text_eq_refl f, e) refl))

pub remove_acl-found :
    (f target : Text) (d : Disk) (s : Store) (m : FileMeta)
    → persist_find_file f s ≡ some m
    → persist_find_file f (persist_remove_acl f target d s)
      ≡ some (record m { acl = acl_remove target m.acl })
unfolding persist_remove_acl acl_remove
remove_acl-found f target d s m e = elim (Option-cases (find_index (is_of target) m.acl)) [
  | inl n ↦
      let same : acl_remove target m.acl ≡ m.acl = rw (n, acl_remove) refl in
      rw (e, persist_remove_acl, n, same) e
  | inr (i, k) ↦
      rw (e, persist_remove_acl, k)
        (persist_find_file-update_entry f f (λ x. record x { acl = acl_remove target m.acl }) d s
            (λ x. refl)
          ∙ (rw (text_eq_refl f, e) refl))
]
