-- ===== src/Search/Cached.antt =====
-- The operations of the file index that read or write the cache.
use collaborative_doc.Prelude.{
  ℕ, ◌≡◌, ◌∙◌, sym, true, Option, none, some, ◌≢◌, subst, inl, inr, arith, leb, ◌==◌, ==_iff, Text,
  text_eq, text_eq_refl, text_eq_sound, Option-cases, Bool-cases, ◌⊎◌,
}
use collaborative_doc.Cache.{Cache, cache_invalidate, cache_lookup, cache_add}
use collaborative_doc.Cache.View
use collaborative_doc.Cache.View.{
  cached, cached-cache_invalidate, cached-cache_lookup, cached-cache_add, cache_lookup-cached,
}
use collaborative_doc.Trie.{Trie, find_record, find_strict, write_record}
use collaborative_doc.Trie.Lookup.{is_ascii, key_of_ascii, find_record-create_node}
use collaborative_doc.Search.Purge.{find_record-purge_trie, purge_cache-Shrinks, cached-purge_cache}
use collaborative_doc.Search.{
  FileRecord, Index, Times, success, init_search_trie, search_find_file, search_delete_file,
  search_purge_by_ss, kept, purge_trie, purge_cache,
}
use collaborative_doc.Search.Coherence.{IsValid, IsName, Backed, write-IsValid}

pub kept-some :
    (dead : ℕ) (o : Option FileRecord) (r : FileRecord)
    → kept dead o ≡ some r
    → (o ≡ some r) × (r.ss_index ≢ dead)
kept-some dead none r h = absurd (ground (arith, h))
kept-some dead (some x) r h = ground (arith, h)

pub init-IsValid : IsValid init_search_trie
init-IsValid = record {
  cache = View.init-IsValid;
  coherent = λ q i e. absurd (cc (e, View.cached-init q));
  ascii = λ q i e. absurd (cc (e, View.cached-init q));
  named = λ q r e. absurd (cc (e, find_record-create_node {A = FileRecord} q));
  acls = λ q r e. absurd (cc (e, find_record-create_node {A = FileRecord} q));
}

-- The index that a lookup in the trie alone would give.
abbrev pub located : Text → Trie FileRecord → Option ℕ
located f root = elim (find_record f root) [ none ↦ none | some r ↦ some r.ss_index ]

-- The cache is transparent: in a valid state `search_find_file` answers what the trie says.
pub search_find_file-located :
    (f : Text) (t : Times) (s : Index) → IsValid s → (search_find_file f t s).0 ≡ located f s.root
unfolding search_find_file
search_find_file-located f t s v = elim (Option-cases (cached f s.cache)) [
  | inl n ↦
      let miss : (cache_lookup f t.at_hit s.cache).0 ≡ none =
        cache_lookup-cached f t.at_hit s.cache ∙ n in
      ground (arith, miss)
  | inr (i, y) ↦
      let hit : (cache_lookup f t.at_hit s.cache).0 ≡ some i =
        cache_lookup-cached f t.at_hit s.cache ∙ y in
      let (r, e, k) = v.coherent f i y in ground (arith, hit, e, k)
]

pub root-search_find_file :
    (f : Text) (t : Times) (s : Index) → (search_find_file f t s).1.root ≡ s.root
unfolding search_find_file
root-search_find_file f t s = ground arith

touched-IsValid :
    (f : Text) (now : ℕ) (s : Index)
    → IsValid s
    → IsValid (record s { cache = (cache_lookup f now s.cache).1 })
touched-IsValid f now s v = record {
  cache = View.cache_lookup-IsValid f now s.cache v.cache;
  coherent = λ q i e. v.coherent q i (rw (cached-cache_lookup f q now s.cache) at e);
  ascii = λ q i e. v.ascii q i (rw (cached-cache_lookup f q now s.cache) at e);
  named = v.named;
  acls = v.acls;
}

added-or_before :
    (f q : Text) (j i start now : ℕ) (c : Cache)
    → IsName f
    → View.IsValid c
    → cached f c ≡ none
    → cached q (cache_add f j start now c) ≡ some i
    → ((f ≡ q) × (j ≡ i)) ⊎ (cached q c ≡ some i)
added-or_before f q j i start now c name v n h =
    let (x, g, k) = cached-cache_add f j start now c q v name.short n in
    elim (Bool-cases (text_eq f q)) [
      | inl y ↦ inl (text_eq_sound f q y, ground (arith, k, h))
      | inr m ↦ inr (ground (arith, k, h))
    ]

-- Caching what the trie says keeps the invariant.
added-IsValid :
    (f : Text) (r : FileRecord) (start now : ℕ) (s : Index)
    → IsName f
    → IsValid s
    → find_record f s.root ≡ some r
    → cached f s.cache ≡ none
    → IsValid (record s { cache = cache_add f r.ss_index start now s.cache })
added-IsValid f r start now s name v e n =
    let split =
      λ (q : Text) (i : ℕ). added-or_before f q r.ss_index i start now s.cache name v.cache n in
    record {
      cache = View.cache_add-IsValid f r.ss_index start now s.cache v.cache name.short n;
      coherent = λ q i h. elim (split q i h) [
        | inl (p, k) ↦ (r, subst (λ x. find_record x s.root ≡ some r) p e, k)
        | inr b ↦ v.coherent q i b
      ];
      ascii = λ q i h. elim (split q i h) [
        | inl (p, k) ↦ subst (λ x. is_ascii x ≡ true) p name.ascii
        | inr b ↦ v.ascii q i b
      ];
      named = v.named;
      acls = v.acls;
    }

pub search_find_file-IsValid :
    (f : Text) (t : Times) (s : Index) → IsName f → IsValid s → IsValid (search_find_file f t s).1
unfolding search_find_file
search_find_file-IsValid f t s name v =
    let s' : Index = record s { cache = (cache_lookup f t.at_hit s.cache).1 } in
    let v' = touched-IsValid f t.at_hit s v in
    elim (Option-cases (cache_lookup f t.at_hit s.cache).0) [
      | inr (i, y) ↦ rw (y, search_find_file) v'
      | inl n ↦ elim (Option-cases (find_record f s.root)) [
        | inl m ↦ rw (n, search_find_file, m) v'
        | inr (r, e) ↦
            rw (n, search_find_file, e)
              (added-IsValid f r t.at_start t.at_store s' name v' e (
                cached-cache_lookup f f t.at_hit s.cache
                ∙ sym (cache_lookup-cached f t.at_hit s.cache)
                ∙ n))
      ]
    ]

forgotten_before :
    (f q : Text) (i : ℕ) (s : Index)
    → IsValid s
    → cached q (cache_invalidate f s.cache) ≡ some i
    → cached q s.cache ≡ some i
forgotten_before f q i s v h = ground (arith, h, cached-cache_invalidate f q s.cache v.cache)

forgotten-IsValid :
    (f : Text) (s : Index) → IsValid s → IsValid (record s { cache = cache_invalidate f s.cache })
forgotten-IsValid f s v =
    let sub = λ (q : Text) (i : ℕ) (h : cached q (cache_invalidate f s.cache) ≡ some i).
      forgotten_before f q i s v h in
    record {
      cache = View.cache_invalidate-IsValid f s.cache v.cache;
      coherent = λ q i h. v.coherent q i (sub q i h);
      ascii = λ q i h. v.ascii q i (sub q i h);
      named = v.named;
      acls = v.acls;
    }

pub removed-IsValid :
    (f : Text) (s : Index)
    → IsName f
    → IsValid s
    → IsValid (record { root = write_record f none s.root; cache = cache_invalidate f s.cache })
removed-IsValid f s name v =
    let s' : Index = record s { cache = cache_invalidate f s.cache } in
    let gone : cached f s'.cache ≡ none =
      ground (arith, cached-cache_invalidate f f s.cache v.cache, text_eq_refl f) in
    write-IsValid f none s' name.ascii (forgotten-IsValid f s v) (record {
      filename = λ r h. absurd (cc h);
      acl = λ r h. absurd (cc h);
      backed = λ i h. absurd (cc (h, gone));
    })

-- A deletion by the handler: the record leaves the trie, and its name leaves the cache.
pub search_delete_file-IsValid :
    (f user : Text) (s : Index)
    → IsName f
    → IsValid s
    → (i : ℕ) → (search_delete_file f user s).0 ≡ success i
    → IsValid
        (record { root = (search_delete_file f user s).1.root; cache = cache_invalidate f s.cache })
unfolding search_delete_file
search_delete_file-IsValid f user s name v i h = elim (Option-cases (find_strict f s.root)) [
  | inl n ↦ absurd (ground (arith, h, n))
  | inr (r, e) ↦ elim (Bool-cases (text_eq r.owner_username user)) [
    | inr n ↦ absurd (ground (arith, h, e, n))
    | inl y ↦ rw (e, search_delete_file, y) (removed-IsValid f s name v)
  ]
]

purged-Backed :
    (dead : ℕ) (s : Index) (v : IsValid s) (q : Text) (i : ℕ)
    → cached q (purge_cache dead s.root s.cache) ≡ some i
    → cached q s.cache ≡ some i
    → Backed (purge_trie dead s.root) q i
purged-Backed dead s v q i e before =
    let (r, found, k) = v.coherent q i before in
    let a = v.ascii q i before in
    let named : r.filename ≡ q = v.named q r found ∙ key_of_ascii q a in
    elim (Bool-cases (r.ss_index == dead)) [
      | inl y ↦
          let gone =
            cached-purge_cache dead q s.root r s.cache a v.cache found
              ((==_iff r.ss_index dead).0 y) in
          absurd (cc (e, subst (λ x. cached x (purge_cache dead s.root s.cache) ≡ none) named gone))
      | inr n ↦ (r, rw (find_record-purge_trie dead q s.root, found, n), k)
    ]

pub search_purge_by_ss-IsValid :
    (dead : ℕ) (s : Index) → IsValid s → IsValid (search_purge_by_ss dead s)
unfolding search_purge_by_ss
search_purge_by_ss-IsValid dead s v = elim (Bool-cases (leb 10 dead)) [
  | inl y ↦ rw (y, search_purge_by_ss) v
  | inr n ↦
      let k = purge_cache-Shrinks dead s.root s.cache v.cache in
      rw (n, search_purge_by_ss)
        (record {
          cache = k.valid;
          coherent = λ q i e. purged-Backed dead s v q i e (k.sub q i e);
          ascii = λ q i e. v.ascii q i (k.sub q i e);
          named = λ q r e.
              v.named q r
                (kept-some dead (find_record q s.root) r
                  (sym (find_record-purge_trie dead q s.root) ∙ e)).0;
          acls = λ q r e.
              v.acls q r
                (kept-some dead (find_record q s.root) r
                  (sym (find_record-purge_trie dead q s.root) ∙ e)).0;
        })
]
