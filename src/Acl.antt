-- ===== src/Acl.antt =====
-- The access lists of files. The name server (src/name_server/search.c) and the storage server
-- (src/storage_server/persistence.c) keep the same table of at most ten entries and change it by
-- the same code: the first entry of a user is updated, a new one goes to the end, and a removal
-- moves the last entry into the hole.
pub mod Laws
use collaborative_doc.Prelude.{
  ℕ, ◌-◌, Bool, true, false, ◌&&◌, Option, none, some, List, [], ◌∷◌, ◌++◌, leb, if◌then◌else◌,
  Text, text_eq, strncpy, length, find_index, modify, swap_remove,
}

abbrev pub max_acl_entries : ℕ
max_acl_entries = 10

-- `PermissionType`
abbrev pub perm_none : ℕ
perm_none = 0

abbrev pub perm_read : ℕ
perm_read = 1

abbrev pub perm_write : ℕ
perm_write = 2

pub record AclEntry : Type 0 where
  pub username : Text
  pub permission : ℕ

abbrev pub Acl : Type 0
Acl = List AclEntry

-- `strcmp(acl[i].username, user) == 0`
abbrev pub is_of : Text → AclEntry → Bool
is_of user e = text_eq e.username user

abbrev pub grants : Text → ℕ → AclEntry → Bool
grants user permission e = is_of user e && leb permission e.permission

-- The loop of the permission checks.
unfoldable pub acl_allows : Text → ℕ → Acl → Bool
acl_allows user permission acl = elim (find_index (grants user permission) acl) [
  | none ↦ false
  | some i ↦ true
]

-- `none` is the refusal of a full list.
unfoldable pub acl_grant : Text → ℕ → Acl → Option Acl
acl_grant target permission acl = elim (find_index (is_of target) acl) [
  | some i ↦ some (modify acl i (λ e. record e { permission = permission }))
  | none ↦
      if leb max_acl_entries (length acl)
      then none
      else some (acl ++ record { username = strncpy 63 target; permission = permission } ∷ [])
]

unfoldable pub acl_remove : Text → Acl → Acl
acl_remove target acl = elim (find_index (is_of target) acl) [
  | none ↦ acl
  | some i ↦ swap_remove (λ e. e) acl i
]
