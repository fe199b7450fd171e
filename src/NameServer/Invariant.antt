-- ===== src/NameServer/Invariant.antt =====
-- The invariant of the name server, with the steps that the handlers share.
use collaborative_doc.Prelude.{
  ℕ, ◌<◌, ◌≡◌, ◌∙◌, refl, Bool, true, false, Option, none, some, inl, inr, List, arith,
  if◌then◌else◌, Text, length, length-set, set, get_elem?-lt,
}
use Prim.Native.String.{String}
use collaborative_doc.Users.Laws
use collaborative_doc.Registry.{StorageServerInfo, active_at, get_ss_by_index}
use collaborative_doc.Registry.Slots.{clear_slot-cases, active_at-set, cleared}
use collaborative_doc.Search.{FileRecord, Times, max_storage_servers}
use collaborative_doc.Search.Coherence
use collaborative_doc.Search.Coherence.{IsName}
use collaborative_doc.Search.Cached.{
  search_find_file-IsValid, search_purge_by_ss-IsValid, root-search_find_file, init-IsValid,
}
use collaborative_doc.Search.Placement.{Placed, purge-Placed}
use collaborative_doc.Trie.Lookup.{find_record-create_node}
use collaborative_doc.NameServer.{
  NameServer, Done, Reply, SsMessage, init_name_server, remove_storage_server, remove_server_of,
}
use collaborative_doc.NameServer.Commands.{find, with_server, dropped}

-- The file index is coherent, every file is on an active server, the registry has its ten slots
-- and the list of users is valid.
pub record IsValid (s : NameServer) : Type 0 where
  pub index : Coherence.IsValid s.index
  pub placed : Placed (λ i. active_at i s.registry.servers) s.index.root
  pub sized : length s.registry.servers ≡ max_storage_servers
  pub next : s.registry.next_ss_index < max_storage_servers
  pub users : Laws.IsValid s.users

pub init_name_server-IsValid : IsValid init_name_server
init_name_server-IsValid = record {
  index = init-IsValid;
  placed = λ q r e. absurd (cc (e, find_record-create_node {A = FileRecord} q));
  sized = refl;
  next = omega arith;
  users = Laws.init-IsValid;
}

-- Losing a server keeps the invariant: its files are purged with it.
pub remove_storage_server-IsValid :
    (sock : ℕ) (s : NameServer) → IsValid s → IsValid (remove_storage_server sock s)
unfolding remove_storage_server
remove_storage_server-IsValid sock s v = elim (clear_slot-cases sock s.registry) [
  | inl e ↦ rw (e, remove_storage_server, e) v
  | inr (i, ss, g, a, e) ↦
      let l = get_elem?-lt s.registry.servers i ss g in
      let after = set s.registry.servers i (cleared ss) in
      let up = λ (j : ℕ). active_at j s.registry.servers in
      let purged = purge-Placed up i s.index (ground (arith, v.sized)) v.placed in
      rw (e, remove_storage_server, e)
        (record {
          index = search_purge_by_ss-IsValid i s.index v.index;
          placed = λ q r f.
              rw (active_at-set i r.ss_index (cleared ss) s.registry.servers l) (purged q r f);
          sized = length-set s.registry.servers i (cleared ss) ∙ v.sized;
          next = v.next;
          users = v.users;
        })
]

pub remove_server_of-IsValid :
    (sock : Option ℕ) (s : NameServer) → IsValid s → IsValid (remove_server_of sock s)
unfolding remove_server_of
remove_server_of-IsValid none s v = v
remove_server_of-IsValid (some sock) s v = remove_storage_server-IsValid sock s v

pub find-IsValid :
    (f : Text) (t : Times) (s : NameServer) → IsName f → IsValid s → IsValid (find f t s).1
find-IsValid f t s name v = record {
  index = search_find_file-IsValid f t s.index name v.index;
  placed = λ q r e. v.placed q r (rw (root-search_find_file f t s.index) at e);
  sized = v.sized;
  next = v.next;
  users = v.users;
}

-- The results of a handler that keep the invariant, branch by branch.
pub record Good (d : Done) : Type 0 where
  pub kept : IsValid d.state

pub done-Good :
    (s : NameServer) (r : Reply) (sent : List (ℕ × SsMessage))
    → IsValid s
    → Good (record { state = s; reply = r; sent = sent })
done-Good s r sent v = record { kept = v }

pub dropped-Good :
    (ss : StorageServerInfo) (s : NameServer) (m : String) (sent : List (ℕ × SsMessage))
    → IsValid s
    → Good (dropped ss s m sent)
dropped-Good ss s m sent v = record { kept = remove_server_of-IsValid ss.ss_socket_fd s v }

pub if-Good : (b : Bool) (x y : Done) → Good x → Good y → Good (if b then x else y)
if-Good true x y g h = g
if-Good false x y g h = h

pub option-Good {ℓ} :
    {A : Type ℓ} (o : Option A) (x : Done) (f : A → Done)
    → Good x
    → ((a : A) → o ≡ some a → Good (f a))
    → Good (elim o [ none ↦ x | some a ↦ f a ])
option-Good none x f g h = g
option-Good (some a) x f g h = h a refl

pub with_server-Good :
    (allowed : Bool) (denied : String) (f : Text) (t : Times) (s : NameServer)
    (continue : ℕ → StorageServerInfo → NameServer → Done)
    → IsName f
    → IsValid s
    → ((i : ℕ) (ss : StorageServerInfo) (s' : NameServer) → IsValid s' → Good (continue i ss s'))
    → Good (with_server allowed denied f t s continue)
unfolding with_server
with_server-Good false denied f t s continue name v k = done-Good s _ _ v
with_server-Good true denied f t s continue name v k =
    let v' = find-IsValid f t s name v in
    let s' = (find f t s).1 in
    option-Good (find f t s).0 _ _ (done-Good s' _ _ v') (λ i e.
      option-Good (get_ss_by_index i s'.registry) _ _ (done-Good s' _ _ v') (λ ss e'. k i ss s' v'))
