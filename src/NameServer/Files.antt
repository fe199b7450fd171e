-- ===== src/NameServer/Files.antt =====
-- What a request to create and a request to delete do to the files.
use collaborative_doc.Prelude.{
  ℕ, ◌≡◌, ◌∙◌, ◌⊎◌, ◌≢◌, refl, sym, Bool, true, false, Option, none, some, inl, inr, arith, leb,
  ◌==◌, if◌then◌else◌, Text, text_eq, text_eq_refl, Option-cases, Bool-cases,
}
use collaborative_doc.Registry.{StorageServerInfo, active_at, get_ss_by_index, get_ss_for_new_file}
use collaborative_doc.Registry.Slots.{clear_slot-cases, server_at-active}
use collaborative_doc.Registry.RoundRobin.{get_ss_for_new_file_keeps}
use collaborative_doc.Cache.{cache_invalidate}
use collaborative_doc.Search.{
  Index, FileRecord, Times, success, access_denied, search_delete_file, search_purge_by_ss,
  search_add_file, new_record,
}
use collaborative_doc.Search.Cached.{search_find_file-located, located, root-search_find_file}
use collaborative_doc.Search.Purge.{find_record-purge_trie}
use collaborative_doc.Search.Records.{delete-cases}
use collaborative_doc.Search.Coherence.{some_eq}
use collaborative_doc.Trie.{find_record, find_strict, write_record}
use collaborative_doc.Trie.Lookup.{key, is_ascii, find_record-write_record, find_strict_lem}
use collaborative_doc.NameServer.{
  NameServer, Done, error, ack, Link, remove_storage_server, remove_server_of, msg_ack,
}
use collaborative_doc.NameServer.Commands.{
  find, after_delete, handle_delete_request, handle_create_request,
}
use collaborative_doc.NameServer.Invariant.{IsValid}

-- Losing a server brings no file back.
removed-none :
    (f : Text) (sock : ℕ) (s : NameServer)
    → find_record f s.index.root ≡ none
    → find_record f (remove_storage_server sock s).index.root ≡ none
unfolding remove_storage_server search_purge_by_ss
removed-none f sock s n = elim (clear_slot-cases sock s.registry) [
  | inl e ↦ rw (e, remove_storage_server) n
  | inr (i, ss, g, a, e) ↦
      rw (e, remove_storage_server)
        (elim (Bool-cases (leb 10 i)) [
          | inl y ↦ rw y n
          | inr z ↦ rw (z, find_record-purge_trie i f s.index.root, n) refl
        ])
]

lost-none :
    (f : Text) (sock : Option ℕ) (s : NameServer)
    → find_record f s.index.root ≡ none
    → find_record f (remove_server_of sock s).index.root ≡ none
unfolding remove_server_of
lost-none f none s n = n
lost-none f (some sock) s n = removed-none f sock s n

-- The end of a deletion that goes ahead.
record Gone (f : Text) (d : Done) : Type 0 where
  absent : find_record f d.state.index.root ≡ none
  acked : d.reply ≡ ack

if-Gone : (f : Text) (b : Bool) (x y : Done) → Gone f x → Gone f y → Gone f (if b then x else y)
if-Gone f true x y g h = g
if-Gone f false x y g h = h

answered-none :
    (f : Text) (response : Option ℕ) (ss : StorageServerInfo) (s : NameServer)
    → find_record f s.index.root ≡ none
    → find_record f
        (elim response as (λ x. NameServer) [
          | none ↦ remove_server_of ss.ss_socket_fd s
          | some m ↦ s
        ]).index.root
      ≡ none
answered-none f none ss s n = lost-none f ss.ss_socket_fd s n
answered-none f (some m) ss s n = n

after_delete-Gone :
    (f : Text) (link : Link) (s : NameServer) (i : ℕ) (index : Index)
    → find_record f index.root ≡ none
    → Gone f (after_delete f link s (success i, index))
after_delete-Gone f link s i index n =
    let s1 : NameServer = record s {
      index = record index { cache = cache_invalidate f index.cache };
    } in
    elim (Option-cases (get_ss_by_index i s.registry)) [
      | inl e ↦ rw (e, after_delete) (record { absent = n; acked = refl })
      | inr (ss, e) ↦
          rw (e, after_delete)
            (if-Gone f link.send_ok _ _
              (record { absent = answered-none f link.response ss s1 n; acked = refl })
              (record { absent = lost-none f ss.ss_socket_fd s1 n; acked = refl }))
    ]

-- A request to delete a file with an ASCII name that has a record: the owner's is acknowledged,
-- and the file is gone however its storage server behaves; anybody else's changes nothing and is
-- refused.
pub handle_delete_request_owner :
    (f user : Text) (link : Link) (s : NameServer) (r : FileRecord)
    → is_ascii f ≡ true
    → find_record f s.index.root ≡ some r
    → ((text_eq r.owner_username user ≡ true)
        × (find_record f (handle_delete_request f user link s).state.index.root ≡ none)
        × ((handle_delete_request f user link s).reply ≡ ack))
      ⊎ ((text_eq r.owner_username user ≡ false)
          × ((handle_delete_request f user link s).state ≡ s)
          × ((handle_delete_request f user link s).reply
              ≡ error "Access Denied (Only owner can delete)."))
unfolding handle_delete_request
handle_delete_request_owner f user link s r a e =
    let strict : find_strict f s.index.root ≡ some r =
      find_strict_lem f s.index.root ∙ (rw (a, e) refl) in
    let gone : find_record f (write_record f none s.index.root) ≡ none =
      find_record-write_record f f none s.index.root ∙ (rw (text_eq_refl (key f)) refl) in
    elim (delete-cases f user s.index) [
      | inl (_, n) ↦ absurd (cc (n, strict))
      | inr (x, g, h) ↦
          let same : x ≡ r = some_eq (sym g ∙ strict) in
          let d : search_delete_file f user s.index ≡ (
              if text_eq r.owner_username user
              then (
                success r.ss_index,
                record (s.index) { root = write_record f none s.index.root },
              )
              else (access_denied, s.index)) =
            h ∙ (rw same refl) in
          elim (Bool-cases (text_eq r.owner_username user)) [
            | inr n ↦ inr (n, rw (d, n) refl, rw (d, n) refl)
            | inl y ↦
                let all =
                  after_delete-Gone f link s r.ss_index
                    (record (s.index) { root = write_record f none s.index.root }) gone in
                inl (y, rw (d, y) all.absent, rw (d, y) all.acked)
          ]
    ]

-- What an acknowledged creation means.
record Created (f user : Text) (s : NameServer) (d : Done) : Type 0 where
  made :
      d.reply ≡ ack
      → (find_record f s.index.root ≡ none)
        × ((i : ℕ) × (active_at i s.registry.servers ≡ true)
            × (find_record f d.state.index.root ≡ some (new_record f i user)))

module _ (f user : Text) (s : NameServer) where
  refused : (d : Done) → d.reply ≢ ack → Created f user s d
  refused d n = record { made = λ h. absurd (n h) }

  if-Created :
      (b : Bool) (x y : Done)
      → Created f user s x
      → Created f user s y
      → Created f user s (if b then x else y)
  if-Created true x y g h = g
  if-Created false x y g h = h

  option-Created {ℓ} :
      {A : Type ℓ} (o : Option A) (x : Done) (k : A → Done)
      → Created f user s x
      → ((a : A) → o ≡ some a → Created f user s (k a))
      → Created f user s (elim o [ none ↦ x | some a ↦ k a ])
  option-Created none x k g h = g
  option-Created (some a) x k g h = h a refl

added-record :
    (f user : Text) (i : ℕ) (s : Index)
    → find_record f s.root ≡ none
    → find_record f (search_add_file f i user s).root ≡ some (new_record f i user)
unfolding search_add_file
added-record f user i s n =
    rw (n, search_add_file)
      (find_record-write_record f f (some (new_record f i user)) s.root
        ∙ (rw (text_eq_refl (key f)) refl))

unlocated : (f : Text) (s : Index) → located f s.root ≡ none → find_record f s.root ≡ none
unlocated f s h = ground (arith, h)

create-Created :
    (f user : Text) (t : Times) (link : Link) (s : NameServer)
    → IsValid s
    → Created f user s (handle_create_request f user t link s)
unfolding handle_create_request
create-Created f user t link s v =
    let s1 = (find f t s).1 in
    let servers = get_ss_for_new_file s1.registry in
    let kept = (get_ss_for_new_file_keeps s.registry v.next).0 in
    elim (Option-cases (find f t s).0) [
      | inr (i, e) ↦ rw (e, handle_create_request) (refused f user s _ (λ h. cc h))
      | inl e ↦
          let absent =
            unlocated f s.index (sym (search_find_file-located f t s.index v.index) ∙ e) in
          let absent1 : find_record f s1.index.root ≡ none =
            rw (root-search_find_file f t s.index, absent) refl in
          rw (e, handle_create_request)
            (option-Created f user s servers.0 _ _ (refused f user s _ (λ h. cc h)) (λ i c.
              option-Created f user s (get_ss_by_index i servers.1) _ _
                (refused f user s _ (λ h. cc h))
                (λ ss g.
                  if-Created f user s link.send_ok _ _
                    (option-Created f user s link.response _ _ (refused f user s _ (λ h. cc h))
                      (λ m q.
                        if-Created f user s (m == msg_ack) _ _
                          (record {
                            made = λ h. (
                              absent,
                              (
                                i,
                                rw (← kept) (server_at-active i servers.1 ss g).0,
                                added-record f user i s1.index absent1,
                              ),
                            );
                          })
                          (refused f user s _ (λ h. cc h))))
                    (refused f user s _ (λ h. cc h)))))
    ]

-- In a valid state, a request to create a file that is acknowledged: the file did not exist, and
-- now has the record of a new file, of the user, on a server that is active.
pub handle_create_request-new_record :
    (f user : Text) (t : Times) (link : Link) (s : NameServer)
    → IsValid s
    → (handle_create_request f user t link s).reply ≡ ack
    → (find_record f s.index.root ≡ none)
      × ((i : ℕ) × (active_at i s.registry.servers ≡ true)
          × (find_record f (handle_create_request f user t link s).state.index.root
              ≡ some (new_record f i user)))
handle_create_request-new_record f user t link s v h = (create-Created f user t link s v).made h
