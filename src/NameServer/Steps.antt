-- ===== src/NameServer/Steps.antt =====
-- The invariant of the name server and each handler of src/name_server/client_handler.c and
-- src/name_server/executor.c.
use collaborative_doc.Prelude.{
  ℕ, ◌≤◌, ◌≡◌, ◌∙◌, Bool, Option, none, some, inl, inr, ◌==◌, Text, text_eq, Option-cases,
  Bool-cases, length,
}
use collaborative_doc.Registry.{StorageServerInfo, active_at, get_ss_by_index, get_ss_for_new_file}
use collaborative_doc.Registry.Slots.{server_at-active}
use collaborative_doc.Registry.RoundRobin.{get_ss_for_new_file_keeps}
use collaborative_doc.Cache.{cache_invalidate}
use collaborative_doc.Search.{
  Index, Times, success, search_check_permission, search_grant_permission, search_remove_permission,
  search_delete_file, search_add_file, search_get_file_details,
}
use collaborative_doc.Search.Coherence
use collaborative_doc.Search.Coherence.{IsName}
use collaborative_doc.Search.Cached.{removed-IsValid}
use collaborative_doc.Search.Placement
use collaborative_doc.Search.Records.{delete-cases}
use collaborative_doc.Trie.{write_record}
use collaborative_doc.NameServer.{NameServer, SsMessage, Link, received, remove_server_of, msg_ack}
use collaborative_doc.NameServer.Commands.{
  find, handle_create_request, handle_delete_request, handle_undo_request, handle_info_request,
  handle_locate_file_request,
}
use collaborative_doc.NameServer.Sharing.{
  AccessControl, handle_add_access, handle_rem_access, handle_exec_request, tell_server,
}
use collaborative_doc.NameServer.Invariant.{
  IsValid, Good, if-Good, option-Good, with_server-Good, find-IsValid, done-Good, dropped-Good,
  remove_server_of-IsValid,
}

answered-IsValid :
    (response : Option ℕ) (ss : StorageServerInfo) (s : NameServer)
    → IsValid s
    → IsValid (elim response [ none ↦ remove_server_of ss.ss_socket_fd s | some m ↦ s ])
answered-IsValid none ss s v = remove_server_of-IsValid ss.ss_socket_fd s v
answered-IsValid (some m) ss s v = v

module _ (f user : Text) (name : IsName f) where
  new_file-IsValid :
      (s : NameServer)
      → IsValid s
      → IsValid (record s { registry = (get_ss_for_new_file s.registry).1 })
  new_file-IsValid s v =
      let (same, range) = get_ss_for_new_file_keeps s.registry v.next in
      record {
        index = v.index;
        placed = rw same v.placed;
        sized = rw same v.sized;
        next = range;
        users = v.users;
      }

  created-IsValid :
      (i : ℕ) (ss : StorageServerInfo) (s : NameServer)
      → IsValid s
      → get_ss_by_index i s.registry ≡ some ss
      → IsValid (record s { index = search_add_file f i user s.index })
  created-IsValid i ss s v e = record {
    index = Coherence.search_add_file-IsValid f i user s.index name v.index;
    placed =
        Placement.add-Placed (λ j. active_at j s.registry.servers) f i user s.index
          (server_at-active i s.registry ss e).0 v.placed;
    sized = v.sized;
    next = v.next;
    users = v.users;
  }

  pub create-Good :
      (t : Times) (link : Link) (s : NameServer)
      → IsValid s
      → Good (handle_create_request f user t link s)
  unfolding handle_create_request
  create-Good t link s v =
      let s1 = (find f t s).1 in
      let v1 = find-IsValid f t s name v in
      let s2 : NameServer = record s1 { registry = (get_ss_for_new_file s1.registry).1 } in
      let v2 = new_file-IsValid s1 v1 in
      let made = λ (i : ℕ) (ss : StorageServerInfo) (g : get_ss_by_index i s2.registry ≡ some ss).
        created-IsValid i ss s2 v2 g in
      elim (Option-cases (find f t s).0) [
        | inr (i, e) ↦ rw (e, handle_create_request) (done-Good s1 _ _ v1)
        | inl e ↦
            rw (e, handle_create_request)
              (option-Good (get_ss_for_new_file s1.registry).0 _ _ (done-Good s2 _ _ v2) (λ i c.
                option-Good (get_ss_by_index i s2.registry) _ _ (done-Good s2 _ _ v2) (λ ss g.
                  if-Good link.send_ok _ _
                    (option-Good link.response _ _ (dropped-Good ss s2 _ _ v2) (λ m q.
                      if-Good (m == msg_ack) _ _ (done-Good _ _ _ (made i ss g))
                        (done-Good s2 _ _ v2)))
                    (dropped-Good ss s2 _ _ v2))))
      ]

  pub delete-Good :
      (link : Link) (s : NameServer) → IsValid s → Good (handle_delete_request f user link s)
  unfolding handle_delete_request
  delete-Good link s v = elim (delete-cases f user s.index) [
    | inl (e, _) ↦ rw e (done-Good s _ _ v)
    | inr (r, _, e) ↦ elim (Bool-cases (text_eq r.owner_username user)) [
      | inr n ↦ rw (e, n) (done-Good s _ _ v)
      | inl y ↦
          let index' : Index = record {
            root = write_record f none s.index.root;
            cache = cache_invalidate f s.index.cache;
          } in
          let s1 : NameServer = record s { index = index' } in
          let v1 : IsValid s1 = record {
            index = removed-IsValid f s.index name v.index;
            placed = Placement.write-Placed _ f none s.index.root v.placed (λ x k. absurd (cc k));
            sized = v.sized;
            next = v.next;
            users = v.users;
          } in
          let gone : search_delete_file f user s.index
              ≡ (success r.ss_index, record (s.index) { root = index'.root }) =
            e ∙ (rw y) in
          rw gone (
            option-Good (get_ss_by_index r.ss_index s.registry) _ _ (done-Good s1 _ _ v1) (λ ss g.
              if-Good link.send_ok _ _ (done-Good _ _ _ (answered-IsValid link.response ss s1 v1))
                (done-Good _ _ _ (remove_server_of-IsValid ss.ss_socket_fd s1 v1))))
    ]
  ]

  pub undo-Good :
      (t : Times) (link : Link) (s : NameServer)
      → IsValid s
      → Good (handle_undo_request f user t link s)
  unfolding handle_undo_request
  undo-Good t link s v = with_server-Good _ _ f t s _ name v (λ i ss s' v'.
      if-Good link.send_ok _ _
        (option-Good link.response _ _ (dropped-Good ss s' _ _ v') (λ m e. done-Good s' _ _ v'))
        (dropped-Good ss s' _ _ v'))

  pub exec-Good :
      (t : Times) (link : Link) (alloc_ok : Bool) (output : Text → Option Text) (s : NameServer)
      → IsValid s
      → Good (handle_exec_request f user t link alloc_ok output s)
  unfolding handle_exec_request
  exec-Good t link alloc_ok output s v = with_server-Good _ _ f t s _ name v (λ i ss s' v'.
      if-Good link.send_ok _ _
        (option-Good link.response _ _ (dropped-Good ss s' _ _ v') (λ m e.
          if-Good (m == 101) _ _
            (if-Good alloc_ok _ _
              (option-Good link.content _ _ (dropped-Good ss s' _ _ v') (λ c e.
                option-Good (output c) _ _ (done-Good s' _ _ v') (λ o e. done-Good s' _ _ v')))
              (done-Good s' _ _ v'))
            (dropped-Good ss s' _ _ v')))
        (dropped-Good ss s' _ _ v'))

  pub info-Good :
      (link : Link) (s : NameServer) → IsValid s → Good (handle_info_request f user link s)
  unfolding handle_info_request
  info-Good link s v =
      if-Good (search_check_permission f user 1 s.index) _ _
        (option-Good (search_get_file_details f s.index) _ _ (done-Good s _ _ v) (λ r e.
          option-Good (get_ss_by_index r.ss_index s.registry) _ _ (done-Good s _ _ v) (λ ss e.
            if-Good link.send_ok _ _
              (if-Good _ _ _
                (option-Good link.metadata _ _ (dropped-Good ss s _ _ v) (λ m e. done-Good s _ _ v))
                (dropped-Good ss s _ _ v))
              (dropped-Good ss s _ _ v))))
        (done-Good s _ _ v)

  pub locate-Good :
      (t : Times) (s : NameServer) → IsValid s → Good (handle_locate_file_request f t s)
  unfolding handle_locate_file_request
  locate-Good t s v =
      let s' = (find f t s).1 in
      let v' = find-IsValid f t s name v in
      option-Good (find f t s).0 _ _ (done-Good s' _ _ v') (λ i e.
        option-Good (get_ss_by_index i s'.registry) _ _ (done-Good s' _ _ v')
          (λ ss e'. done-Good s' _ _ v'))

  -- The end of both changes of an access list.
  tell-Good :
      (t : Times) (link : Link) (s : NameServer) (m : SsMessage)
      → IsValid s
      → Good (tell_server f t link s m)
  tell-Good t link s m v =
      let s' = (find f t s).1 in
      let v' = find-IsValid f t s name v in
      option-Good (find f t s).0 _ _ (done-Good s' _ _ v') (λ i e.
        option-Good (get_ss_by_index i s'.registry) _ _ (done-Good s' _ _ v')
          (λ ss e'. done-Good s' _ _ v'))

  -- The states behind a grant and a removal.
  pub granted-IsValid :
      (target : Text) (p : ℕ) (s : NameServer)
      → length target ≤ 63
      → IsValid s
      → IsValid (record s { index = (search_grant_permission f user target p s.index).1 })
  granted-IsValid target p s short v = record {
    index = Coherence.search_grant_permission-IsValid f user target p s.index name short v.index;
    placed = Placement.grant-Placed _ f user target p s.index v.placed;
    sized = v.sized;
    next = v.next;
    users = v.users;
  }

  pub revoked-IsValid :
      (target : Text) (s : NameServer)
      → IsValid s
      → IsValid (record s { index = (search_remove_permission f user target s.index).1 })
  revoked-IsValid target s v = record {
    index = Coherence.search_remove_permission-IsValid f user target s.index name v.index;
    placed = Placement.remove-Placed _ f user target s.index v.placed;
    sized = v.sized;
    next = v.next;
    users = v.users;
  }

  pub add_access-Good :
      (p : AccessControl) (t : Times) (link : Link) (s : NameServer)
      → length p.target_username ≤ 63
      → IsValid s
      → Good (handle_add_access f user (received p) t link s)
  unfolding handle_add_access
  add_access-Good p t link s short v =
      let v' = granted-IsValid p.target_username p.permission s short v in
      if-Good _ _ _ (tell-Good t link _ _ v') (done-Good _ _ _ v')

  pub rem_access-Good :
      (target : Text) (t : Times) (link : Link) (s : NameServer)
      → IsValid s
      → Good (handle_rem_access f user (received target) t link s)
  unfolding handle_rem_access
  rem_access-Good target t link s v =
      let v' = revoked-IsValid target s v in
      if-Good _ _ _ (tell-Good t link _ _ v') (done-Good _ _ _ v')
