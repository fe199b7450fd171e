-- ===== src/Tests/Tables.antt =====
-- Runs of the tables: users, the file cache, access lists and the registry of servers.
use collaborative_doc.Prelude.{
  ℕ, ◌≡◌, ◌≤◌, refl, true, false, some, List, [], ◌∷◌, text_eq, leb, if◌then◌else◌, find_index,
  get_elem?, set, All, arith,
}
use collaborative_doc.Users
use collaborative_doc.Users.{get_list}
use collaborative_doc.Users.Laws
use collaborative_doc.Users.Laws.{listed}
use collaborative_doc.Users.Sessions.{Event, login, logout, run, present, listed-run}
use collaborative_doc.Cache.{Cache, CacheEntry, new_entry, cache_add, init_cache}
use collaborative_doc.Cache.View
use collaborative_doc.Cache.View.{cached, slot, cached-cache_add, cached-cache_invalidate}
use collaborative_doc.Cache.Lru.{cache_add_lru}
use collaborative_doc.Acl.{Acl, acl_grant, acl_remove, acl_allows}
use collaborative_doc.Acl.Laws as AclLaws
use collaborative_doc.Acl.Laws.{acl_allows-acl_grant, acl_allows-acl_remove}
use collaborative_doc.Registry.{
  Registry, is_slot_free, active_at, get_ss_for_new_file, init_storage_manager,
}
use collaborative_doc.Registry.RoundRobin.{picks, IsChosen, picks_fair}
use collaborative_doc.Tests.Sample.{doc, alice, bob, one_server}
use collaborative_doc.Tests.Server.{program}

-- Two sessions of one user, of which one ends.
abbrev sessions : List Event
sessions = logout alice ∷ login alice ∷ login bob ∷ login alice ∷ []

listed-run_example : listed alice (run sessions) ≡ present alice sessions
listed-run_example =
    listed-run alice sessions (omega arith, (omega arith, (omega arith, (omega arith, tt))))
      (omega arith)

two-IsValid : Laws.IsValid (Users.register bob (Users.register alice []))
two-IsValid =
    Laws.register-IsValid bob (Users.register alice []) (omega arith)
      (Laws.register-IsValid alice [] (omega arith) Laws.init-IsValid)

-- Two entries in use, the second the older one.
abbrev entries : Cache
entries = new_entry doc 0 5 ∷ new_entry alice 1 2 ∷ []

cache_add_lru_example :
    (i : ℕ) × (victim : CacheEntry) × (get_elem? entries i ≡ some victim)
    × All (λ e. victim.last_used_time ≤ e.last_used_time) entries
    × (cache_add bob 3 6 7 entries ≡ set entries i (new_entry bob 3 7))
cache_add_lru_example =
    cache_add_lru bob 3 6 7 entries (omega arith) (refl, (refl, tt))
      (omega arith, (omega arith, tt))

added-IsValid : View.IsValid (cache_add doc 0 6 7 init_cache)
added-IsValid =
    View.cache_add-IsValid doc 0 6 7 init_cache View.init-IsValid (omega arith)
      (View.cached-init doc)

abbrev reads : Acl
reads = record { username = bob; permission = 1 } ∷ []

bob-granted : acl_grant bob 1 [] ≡ some reads
unfolding program acl_grant
bob-granted = refl

acl_allows-acl_grant_example :
    acl_allows bob 2 reads ≡ (if text_eq bob bob then leb 2 1 else acl_allows bob 2 [])
acl_allows-acl_grant_example =
    acl_allows-acl_grant bob 1 [] reads (omega arith) AclLaws.empty-IsValid bob-granted bob 2

reads-IsValid : AclLaws.IsValid reads
reads-IsValid = AclLaws.grant-IsValid bob 1 [] reads (omega arith) AclLaws.empty-IsValid bob-granted

acl_allows-acl_remove_example :
    acl_allows bob 1 (acl_remove bob reads)
    ≡ (if text_eq bob bob then false else acl_allows bob 1 reads)
acl_allows-acl_remove_example = acl_allows-acl_remove bob reads reads-IsValid bob 1

free : find_index is_slot_free init_storage_manager.servers ≡ some 0
unfolding program
free = refl

-- One server, and the next choice starts behind it.
abbrev one : Registry
one = record (one_server.registry) { next_ss_index = 4 }

server_is_up : active_at 0 one.servers ≡ true
unfolding program
server_is_up = refl

picks_fair_example : IsChosen 0 (picks 10 one)
picks_fair_example = picks_fair one 0 (omega arith) (omega arith) server_is_up

chosen_is_0 : (get_ss_for_new_file one).0 ≡ some 0
unfolding program
chosen_is_0 = refl
