-- ===== src/Search/Coherence.antt =====
-- The invariant of the file index: the cache says of a name what the trie says, records carry
-- the name that they are found under, and access lists are well formed.
use collaborative_doc.Prelude.{
  ℕ, ◌≤◌, ◌≡◌, ◌∙◌, refl, sym, ap, true, Option, none, some, subst, inl, inr, ◌==◌, ==_iff, Text,
  text_eq, text_eq_sound, Option-cases, Bool-cases, length, take_of_length-le,
}
use collaborative_doc.Acl
use collaborative_doc.Acl.Laws
use collaborative_doc.Cache.View
use collaborative_doc.Cache.View.{
  cached, cached-cache_invalidate, cached-cache_lookup, cached-cache_add, cache_lookup-cached,
}
use collaborative_doc.Trie.{Trie, find_record, write_record}
use collaborative_doc.Trie.Lookup.{key, is_ascii, key_of_ascii, find_record-write_record}
use collaborative_doc.Search.{
  FileRecord, SsFileRecord, Index, SsMetadata, new_record, rebuilt_record, search_add_file,
  search_grant_permission, search_remove_permission, search_update_file_metadata,
  search_rebuild_add_file,
}

pub some_eq {ℓ} : {A : Type ℓ} {x y : A} → some x ≡ some y → x ≡ y
some_eq h = cc

-- A cached index is that of the record in the trie.
abbrev pub Backed : Trie FileRecord → Text → ℕ → Type 0
Backed root q i = (r : FileRecord) × (find_record q root ≡ some r) × (r.ss_index ≡ i)

pub record IsValid (s : Index) : Type 0 where
  pub cache : View.IsValid s.cache
  pub coherent : (q : Text) (i : ℕ) → cached q s.cache ≡ some i → Backed s.root q i
  pub ascii : (q : Text) (i : ℕ) → cached q s.cache ≡ some i → is_ascii q ≡ true
  pub named : (q : Text) (r : FileRecord) → find_record q s.root ≡ some r → r.filename ≡ key q
  pub acls : (q : Text) (r : FileRecord) → find_record q s.root ≡ some r → Laws.IsValid r.acl

-- A name that both walks treat alike, and that a header's buffer holds with its terminator.
pub record IsName (f : Text) : Type 0 where
  pub ascii : is_ascii f ≡ true
  pub short : length f ≤ 255

-- What may be written under a name.
pub record Fits (f : Text) (new : Option FileRecord) (s : Index) : Type 0 where
  pub filename : (r : FileRecord) → new ≡ some r → r.filename ≡ f
  pub acl : (r : FileRecord) → new ≡ some r → Laws.IsValid r.acl
  pub backed :
      (i : ℕ) → cached f s.cache ≡ some i → (r : FileRecord) × (new ≡ some r) × (r.ss_index ≡ i)

same_path :
    (f q : Text) → is_ascii f ≡ true → is_ascii q ≡ true → text_eq (key f) (key q) ≡ text_eq f q
same_path f q a b = rw (key_of_ascii f a, key_of_ascii q b)

-- A write of a fitting record keeps the invariant.
pub write-IsValid :
    (f : Text) (new : Option FileRecord) (s : Index)
    → is_ascii f ≡ true
    → IsValid s
    → Fits f new s
    → IsValid (record s { root = write_record f new s.root })
write-IsValid f new s a v fits = record {
  cache = v.cache;
  coherent = λ q i e.
      rw (find_record-write_record f q new s.root, same_path f q a (v.ascii q i e))
        (elim (Bool-cases (text_eq f q)) [
          | inl y ↦ rw y (fits.backed i (rw (text_eq_sound f q y) e))
          | inr n ↦ rw n (v.coherent q i e)
        ]);
  ascii = v.ascii;
  named = λ q r e. elim (Bool-cases (text_eq (key f) (key q))) [
    | inl y ↦
        fits.filename r (rw (find_record-write_record f q new s.root, y) at e)
        ∙ sym (key_of_ascii f a)
        ∙ text_eq_sound (key f) (key q) y
    | inr n ↦ v.named q r (rw (find_record-write_record f q new s.root, n) at e)
  ];
  acls = λ q r e. elim (Bool-cases (text_eq (key f) (key q))) [
    | inl y ↦ fits.acl r (rw (find_record-write_record f q new s.root, y) at e)
    | inr n ↦ v.acls q r (rw (find_record-write_record f q new s.root, n) at e)
  ];
}

-- So does a change of a record that keeps its name and its server.
pub change-IsValid :
    (f : Text) (r r' : FileRecord) (s : Index)
    → is_ascii f ≡ true
    → IsValid s
    → find_record f s.root ≡ some r
    → r'.filename ≡ r.filename
    → r'.ss_index ≡ r.ss_index
    → Laws.IsValid r'.acl
    → IsValid (record s { root = write_record f (some r') s.root })
change-IsValid f r r' s a v e n i acl = write-IsValid f (some r') s a v (record {
  filename = λ x h.
      subst (λ (y : FileRecord). y.filename ≡ f) (some_eq h) (n ∙ v.named f r e ∙ key_of_ascii f a);
  acl = λ x h. subst (λ (y : FileRecord). Laws.IsValid y.acl) (some_eq h) acl;
  backed = λ j h.
      let (x, k, l) = v.coherent f j h in
      (r', refl, i ∙ ap (λ (y : FileRecord). y.ss_index) (some_eq (sym e ∙ k)) ∙ l);
})

-- A name with no record is not cached.
pub cached-none :
    (f : Text) (s : Index) → IsValid s → find_record f s.root ≡ none → cached f s.cache ≡ none
cached-none f s v e = elim (Option-cases (cached f s.cache)) [
  | inl n ↦ n
  | inr (i, y) ↦ let (r, k, l) = v.coherent f i y in cc (e, k)
]

Fits-new_record :
    (f : Text) (r : FileRecord) (s : Index)
    → r.filename ≡ f
    → Laws.IsValid r.acl
    → cached f s.cache ≡ none
    → Fits f (some r) s
Fits-new_record f r s n a c = record {
  filename = λ x h. subst (λ (y : FileRecord). y.filename ≡ f) (some_eq h) n;
  acl = λ x h. subst (λ (y : FileRecord). Laws.IsValid y.acl) (some_eq h) a;
  backed = λ i h. absurd (cc (c, h));
}

pub search_add_file-IsValid :
    (f : Text) (ss : ℕ) (owner : Text) (s : Index)
    → IsName f
    → IsValid s
    → IsValid (search_add_file f ss owner s)
unfolding search_add_file
search_add_file-IsValid f ss owner s name v = elim (Option-cases (find_record f s.root)) [
  | inl n ↦
      let new = new_record f ss owner in
      rw (n, search_add_file)
        (write_record_new f new s name v (take_of_length-le 255 f name.short) Laws.empty-IsValid n)
  | inr (r, e) ↦ rw (e, search_add_file) v
]
  where
    write_record_new :
        (f : Text) (r : FileRecord) (s : Index)
        → IsName f
        → IsValid s
        → r.filename ≡ f
        → Laws.IsValid r.acl
        → find_record f s.root ≡ none
        → IsValid (record s { root = write_record f (some r) s.root })
    write_record_new f r s name v n a e =
        write-IsValid f (some r) s name.ascii v (Fits-new_record f r s n a (cached-none f s v e))

-- A grant succeeds or changes nothing.
pub search_grant_permission-IsValid :
    (f owner target : Text) (p : ℕ) (s : Index)
    → IsName f
    → length target ≤ 63
    → IsValid s
    → IsValid (search_grant_permission f owner target p s).1
unfolding search_grant_permission
search_grant_permission-IsValid f owner target p s name short v =
    elim (Option-cases (find_record f s.root)) [
      | inl n ↦ rw (n, search_grant_permission) v
      | inr (r, e) ↦ elim (Bool-cases (text_eq r.owner_username owner)) [
        | inr n ↦ rw (e, search_grant_permission, n) v
        | inl y ↦ elim (Option-cases (Acl.acl_grant target p r.acl)) [
          | inl n ↦ rw (e, search_grant_permission, y, n) v
          | inr (acl, g) ↦
              rw (e, search_grant_permission, y, g)
                (change-IsValid f r (record r { acl = acl }) s name.ascii v e refl refl
                  (Laws.grant-IsValid target p r.acl acl short (v.acls f r e) g))
        ]
      ]
    ]

pub search_remove_permission-IsValid :
    (f owner target : Text) (s : Index)
    → IsName f
    → IsValid s
    → IsValid (search_remove_permission f owner target s).1
unfolding search_remove_permission
search_remove_permission-IsValid f owner target s name v =
    elim (Option-cases (find_record f s.root)) [
      | inl n ↦ rw (n, search_remove_permission) v
      | inr (r, e) ↦ elim (Bool-cases (text_eq r.owner_username owner)) [
        | inr n ↦ rw (e, search_remove_permission, n) v
        | inl y ↦
            rw (e, search_remove_permission, y)
              (change-IsValid f r (record r { acl = Acl.acl_remove target r.acl }) s name.ascii v e
                refl refl (Laws.remove-IsValid target r.acl (v.acls f r e)))
      ]
    ]

pub search_update_file_metadata-IsValid :
    (f : Text) (m : SsMetadata) (s : Index)
    → IsName f
    → IsValid s
    → IsValid (search_update_file_metadata f m s)
unfolding search_update_file_metadata
search_update_file_metadata-IsValid f m s name v = elim (Option-cases (find_record f s.root)) [
  | inl n ↦ rw (n, search_update_file_metadata) v
  | inr (r, e) ↦
      rw (e, search_update_file_metadata)
        (change-IsValid f r _ s name.ascii v e refl refl (v.acls f r e))
]

pub search_rebuild_add_file-IsValid :
    (ss : ℕ) (p : SsFileRecord) (s : Index)
    → IsName p.filename
    → Laws.IsValid (rebuilt_record ss p).acl
    → IsValid s
    → IsValid (search_rebuild_add_file ss p s)
unfolding search_rebuild_add_file
search_rebuild_add_file-IsValid ss p s name acl v =
    let new = rebuilt_record ss p in
    let same : new.filename ≡ p.filename = take_of_length-le 255 p.filename name.short in
    elim (Option-cases (find_record p.filename s.root)) [
      | inl n ↦
          rw (n, search_rebuild_add_file)
            (write-IsValid p.filename (some new) s name.ascii v
              (Fits-new_record p.filename new s same acl (cached-none p.filename s v n)))
      | inr (r, e) ↦ elim (Bool-cases (r.ss_index == ss)) [
        | inr n ↦ rw (e, search_rebuild_add_file, n) v
        | inl y ↦
            rw (e, search_rebuild_add_file, y)
              (change-IsValid p.filename r new s name.ascii v e
                (same ∙ sym (v.named p.filename r e ∙ key_of_ascii p.filename name.ascii))
                (sym ((==_iff r.ss_index ss).0 y)) acl)
      ]
    ]
