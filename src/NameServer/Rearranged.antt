-- ===== src/NameServer/Rearranged.antt =====
-- The invariant and the handlers for folders.
use collaborative_doc.Prelude.{ℕ, Bool, inl, inr, List, Text}
use collaborative_doc.Search.{Outcome, success, not_found, access_denied, Index, copy_filename}
use collaborative_doc.Search.Coherence
use collaborative_doc.Search.Placement.{Placed, written-Placed}
use collaborative_doc.Registry.{get_ss_by_index, active_at}
use collaborative_doc.Folders.{FolderRecord, search_add_folder, search_set_file_folder}
use collaborative_doc.Folders.Files.{search_set_file_folder-IsValid, set-cases, strict-found}
use collaborative_doc.Folders.Move.{search_move_folder}
use collaborative_doc.Folders.Moves.{search_move_folder-IsValid, move-cases, before_move}
use collaborative_doc.NameServer.{NameServer, Link, Done, received}
use collaborative_doc.NameServer.Invariant.{IsValid, Good, done-Good, if-Good, option-Good}
use collaborative_doc.NameServer.Moves.{
  handle_create_folder_request, handle_move_file_request, handle_move_folder_request, max_updates,
}

module _ (up : ℕ → Bool) where
  set_file_folder-Placed :
      (f folder owner : Text) (s : Index)
      → Placed up s.root
      → Placed up (search_set_file_folder f folder owner s).1.root
  set_file_folder-Placed f folder owner s h = elim (set-cases f folder owner s) [
    | inl (e, _) ↦ rw e h
    | inr (r, e, y, w) ↦
        let (_, k) = strict-found f s r e in
        rw w (written-Placed up f (record r { folder = copy_filename folder }) s.root h (h f r k))
  ]

  move_folder-Placed :
      (src dst owner : Text) (n : ℕ) (folders : List FolderRecord) (s : Index)
      → Placed up s.root
      → Placed up (search_move_folder src dst owner n folders s).index.root
  move_folder-Placed src dst owner n folders s h = elim (move-cases src dst owner n folders s) [
    | inl e ↦ rw e h
    | inr (i, r, a, b, c, d, e) ↦ rw e (λ q x k.
        let (r0, found, same) = before_move src dst q s.root x k in rw same (h q r0 found))
  ]

-- An index that is valid and in which every file is on an active server keeps the whole state valid.
changed-IsValid :
    (s : NameServer) (index : Index) (folders : List FolderRecord)
    → IsValid s
    → Coherence.IsValid index
    → Placed (λ i. active_at i s.registry.servers) index.root
    → IsValid (record s { index = index; folders = folders })
changed-IsValid s index folders v h p = record {
  index = h;
  placed = p;
  sized = v.sized;
  next = v.next;
  users = v.users;
}

pub create_folder-Good :
    (f user : Text) (s : NameServer) → IsValid s → Good (handle_create_folder_request f user s)
unfolding handle_create_folder_request
create_folder-Good f user s v =
    done-Good _ _ _
      (changed-IsValid s s.index (search_add_folder f user s.folders).1 v v.index v.placed)

outcome-Good :
    (o : Outcome) (x y : Done) (f : ℕ → Done)
    → Good x
    → Good y
    → ((i : ℕ) → Good (f i))
    → Good (elim o as (λ z. Done) [ not_found ↦ x | access_denied ↦ y | success i ↦ f i ])
outcome-Good not_found x y f g h k = g
outcome-Good access_denied x y f g h k = h
outcome-Good (success i) x y f g h k = k i

pub move_file-Good :
    (f user folder : Text) (link : Link) (s : NameServer)
    → IsValid s
    → Good (handle_move_file_request f user (received folder) link s)
unfolding handle_move_file_request
move_file-Good f user folder link s v =
    let index = (search_set_file_folder f folder user s.index).1 in
    let v' =
      changed-IsValid s index s.folders v
        (search_set_file_folder-IsValid f folder user s.index v.index)
        (set_file_folder-Placed _ f folder user s.index v.placed) in
    outcome-Good (search_set_file_folder f folder user s.index).0 _ _ _ (done-Good _ _ _ v')
      (done-Good _ _ _ v')
      (λ i.
        option-Good (get_ss_by_index i s.registry) _ _ (done-Good _ _ _ v')
          (λ ss e. done-Good _ _ _ v'))

pub move_folder-Good :
    (src user dst : Text) (alloc_ok : Bool) (s : NameServer)
    → IsValid s
    → Good (handle_move_folder_request src user (received dst) alloc_ok s)
unfolding handle_move_folder_request
move_folder-Good src user dst alloc_ok s v =
    let m = search_move_folder src dst user max_updates s.folders s.index in
    if-Good alloc_ok _ _
      (option-Good m.out_updates _ _ (done-Good s _ _ v) (λ u e. done-Good _ _ _ (
        changed-IsValid s m.index m.folder_registry v
          (search_move_folder-IsValid src dst user max_updates s.folders s.index v.index)
          (move_folder-Placed _ src dst user max_updates s.folders s.index v.placed))))
      (done-Good s _ _ v)
