-- ===== src/Storage/Agreement.antt =====
-- The access list and the owner of a file on the name server and on its storage server.
use collaborative_doc.Prelude.{
  ℕ, ◌≤◌, ◌≡◌, ◌∙◌, ◌⊎◌, refl, sym, ap, subst, true, false, some, inl, inr, List, [], ◌∷◌, ◌==◌,
  ==_iff, Text, text_eq, text_eq_refl, length, Option-cases, Bool-cases, take_of_length-le,
}
use collaborative_doc.Acl.{AclEntry, acl_grant, acl_remove}
use collaborative_doc.Metadata.Format.{FileMeta}
use collaborative_doc.Metadata.{persist_find_file}
use collaborative_doc.Metadata.Access.{set_acl-found, remove_acl-found}
use collaborative_doc.Search.{
  FileRecord, Index, Times, search_find_file, search_grant_permission, search_remove_permission,
  copy_filename,
}
use collaborative_doc.Trie.{find_record, write_record}
use collaborative_doc.Trie.Lookup.{key, find_record-write_record}
use collaborative_doc.NameServer.{NameServer, Link, received, SsMessage, add_access, rem_access}
use collaborative_doc.NameServer.Sharing.{
  AccessControl, handle_add_access, handle_rem_access, tell_server,
}
use collaborative_doc.NameServer.Invariant.{IsValid}
use collaborative_doc.NameServer.Steps.{granted-IsValid, revoked-IsValid}
use collaborative_doc.NameServer.Redirects.{active-server, located-some}
use collaborative_doc.Search.Cached.{search_find_file-located, root-search_find_file}
use collaborative_doc.Search.Coherence.{IsName}
use collaborative_doc.Storage.{
  StorageServer, Around, deliver, handle_message, handle_ns_command, disk,
}

-- The two servers know the same access list and owner of a file that both know.
pub record Agree (f : Text) (s : NameServer) (ss : StorageServer) : Type 0 where
  pub known : FileRecord
  pub stored : FileMeta
  pub found : find_record f s.index.root ≡ some known
  pub kept : persist_find_file f ss.store ≡ some stored
  pub owner : known.owner_username ≡ stored.owner_username
  pub acl : known.acl ≡ stored.acl

-- What the name server sends behind a change that it made.
tell_server-sent :
    (f : Text) (t : Times) (link : Link) (s : NameServer) (r : FileRecord) (m : SsMessage)
    → IsValid s
    → find_record f s.index.root ≡ some r
    → ((tell_server f t link s m).sent ≡ (r.ss_index, m) ∷ [])
      × ((tell_server f t link s m).state.index.root ≡ s.index.root)
tell_server-sent f t link s r m v e =
    let (ss, g) = active-server r.ss_index s.registry v.sized (v.placed f r e) in
    let found : (search_find_file f t s.index).0 ≡ some r.ss_index =
      search_find_file-located f t s.index v.index ∙ located-some f s.index.root r e in
    (
      rw (tell_server, found, g) refl,
      rw (tell_server, found, g) (root-search_find_file f t s.index),
    )

-- A grant changes nothing, or it writes the list that `acl_grant` gives.
grant-cases :
    (f owner target : Text) (p : ℕ) (s : Index) (r : FileRecord)
    → find_record f s.root ≡ some r
    → (search_grant_permission f owner target p s ≡ (false, s))
      ⊎ ((acl : List AclEntry) × (acl_grant target p r.acl ≡ some acl)
          × (search_grant_permission f owner target p s
              ≡ (true, record s { root = write_record f (some (record r { acl = acl })) s.root })))
unfolding search_grant_permission
grant-cases f owner target p s r e = elim (Bool-cases (text_eq r.owner_username owner)) [
  | inr n ↦ inl (rw (e, search_grant_permission, n) refl)
  | inl y ↦ elim (Option-cases (acl_grant target p r.acl)) [
    | inl n ↦ inl (rw (e, search_grant_permission, y, n) refl)
    | inr (acl, k) ↦ inr (acl, k, rw (e, search_grant_permission, y, k) refl)
  ]
]

remove-cases :
    (f owner target : Text) (s : Index) (r : FileRecord)
    → find_record f s.root ≡ some r
    → (search_remove_permission f owner target s ≡ (false, s))
      ⊎ (search_remove_permission f owner target s ≡ (
        true,
        record s {
          root = write_record f (some (record r { acl = acl_remove target r.acl })) s.root;
        },
      ))
unfolding search_remove_permission
remove-cases f owner target s r e = elim (Bool-cases (text_eq r.owner_username owner)) [
  | inr n ↦ inl (rw (e, search_remove_permission, n) refl)
  | inl y ↦ inr (rw (e, search_remove_permission, y) refl)
]

written :
    (f : Text) (r : FileRecord) (s : Index)
    → find_record f (write_record f (some r) s.root) ≡ some r
written f r s = find_record-write_record f f (some r) s.root ∙ (rw (text_eq_refl (key f)) refl)

-- Both sides agree behind a change of the name server's record that the storage server repeats.
agreed :
    (f : Text) (t : Times) (link : Link) (s : NameServer) (r : FileRecord) (m : SsMessage)
    (e : Around) (ss : StorageServer) (stored : FileMeta)
    → IsValid s
    → find_record f s.index.root ≡ some r
    → persist_find_file f (handle_message m e ss).store ≡ some stored
    → r.owner_username ≡ stored.owner_username
    → r.acl ≡ stored.acl
    → Agree f
        (tell_server f t link s m).state
        (deliver r.ss_index (tell_server f t link s m).sent e ss)
agreed f t link s r m e ss stored v k h owner acl =
    let (sent, same) = tell_server-sent f t link s r m v k in
    let self : (r.ss_index == r.ss_index) ≡ true = (==_iff r.ss_index r.ss_index).1 refl in
    record {
      known = r;
      stored = stored;
      found = ap (find_record f) same ∙ k;
      kept = rw (sent, self) h;
      owner = owner;
      acl = acl;
    }

-- The name server in a valid state and the storage server of a file, which agree on its owner and
-- its access list, agree on them after a request to grant access, whoever makes it and however it
-- is answered, if the names fit their buffers, the file name is ASCII, and the storage server
-- handles what it is sent.
pub handle_add_access-Agree :
    (f user : Text) (p : AccessControl) (t : Times) (link : Link) (e : Around) (s : NameServer)
    (ss : StorageServer) (a : Agree f s ss)
    → IsName f
    → length p.target_username ≤ 63
    → IsValid s
    → Agree f
        (handle_add_access f user (received p) t link s).state
        (deliver a.known.ss_index (handle_add_access f user (received p) t link s).sent e ss)
unfolding handle_add_access handle_ns_command
handle_add_access-Agree f user p t link e s ss a name short v =
    elim (grant-cases f user p.target_username p.permission s.index a.known a.found) [
      | inl k ↦ rw k a
      | inr (acl, g, k) ↦
          let target = p.target_username in
          let copied : copy_filename f ≡ f = take_of_length-le 255 f name.short in
          let v' =
            subst (λ x. IsValid (record s { index = x.1 })) k
              (granted-IsValid f user name target p.permission s short v) in
          let set =
            set_acl-found f target p.permission (disk ss.files e) ss.store a.stored acl a.kept
              (ap (acl_grant target p.permission) (sym a.acl) ∙ g) in
          rw (k, copied)
            (agreed f t link _ (record a.known { acl = acl }) (add_access f target p.permission) e
              ss _ v' (written f (record a.known { acl = acl }) s.index) set a.owner refl)
    ]

-- The same for a request to take access away.
pub handle_rem_access-Agree :
    (f user target : Text) (t : Times) (link : Link) (e : Around) (s : NameServer)
    (ss : StorageServer) (a : Agree f s ss)
    → IsName f
    → IsValid s
    → Agree f
        (handle_rem_access f user (received target) t link s).state
        (deliver a.known.ss_index (handle_rem_access f user (received target) t link s).sent e ss)
unfolding handle_rem_access handle_ns_command
handle_rem_access-Agree f user target t link e s ss a name v =
    elim (remove-cases f user target s.index a.known a.found) [
      | inl k ↦ rw k a
      | inr k ↦
          let acl = acl_remove target a.known.acl in
          let copied : copy_filename f ≡ f = take_of_length-le 255 f name.short in
          let v' =
            subst (λ x. IsValid (record s { index = x.1 })) k
              (revoked-IsValid f user name target s v) in
          let set = remove_acl-found f target (disk ss.files e) ss.store a.stored a.kept in
          rw (k, copied)
            (agreed f t link _ (record a.known { acl = acl }) (rem_access f target) e ss _ v'
              (written f (record a.known { acl = acl }) s.index) set a.owner
              (ap (acl_remove target) a.acl))
    ]
