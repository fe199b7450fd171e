-- ===== src/Users.antt =====
-- The list of active users of the name server: src/name_server/user_manager.c.
-- `active_users` up to `user_count` is a list of names; a slot holds 63 bytes and a zero.
pub mod Laws
pub mod Sessions
pub mod Listing
use collaborative_doc.Prelude.{
  ℕ, ◌+◌, ◌-◌, Bool, Option, none, some, List, [], ◌∷◌, ◌++◌, leb, if◌then◌else◌, Text, text_eq,
  strncpy, length, find_index, swap_remove,
}

abbrev pub max_active_users : ℕ
max_active_users = 50

abbrev pub max_username_len : ℕ
max_username_len = 64

abbrev pub init_user_manager : List Text
init_user_manager = []

-- `strcmp(active_users[i], username) == 0`
abbrev pub is_user : Text → Text → Bool
is_user username slot = text_eq slot username

-- The copy into a slot.
abbrev pub store_name : Text → Text
store_name = strncpy (max_username_len - 1)

-- A full list refuses everybody; a name that is listed is not listed twice.
unfoldable pub register : Text → List Text → List Text
register username users =
    if leb max_active_users (length users)
    then users
    else elim (find_index (is_user username) users) [
      | some i ↦ users
      | none ↦ users ++ store_name username ∷ []
    ]

-- The last name moves into the slot of the one that leaves.
unfoldable pub deregister : Text → List Text → List Text
deregister username users = elim (find_index (is_user username) users) [
  | none ↦ users
  | some i ↦ swap_remove store_name users i
]

-- The loop of `user_manager_get_list`; `out` is the text before `offset`. A line that does not
-- fit ends it.
unfoldable pub list_from : ℕ → Text → List Text → Text
list_from buffer_size out [] = out
list_from buffer_size out (u ∷ us) =
    let rest = list_from buffer_size (out ++ (u ++ b'\n' ∷ [])) us in
    if leb buffer_size (length out + (length u + 1)) then out else rest

-- The text up to the returned offset, which is its length.
unfoldable pub get_list : ℕ → List Text → Text
unfolding list_from
get_list buffer_size users = list_from buffer_size [] users
