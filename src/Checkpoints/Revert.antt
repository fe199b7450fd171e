-- ===== src/Checkpoints/Revert.antt =====
-- A checkpoint, and the way back to it.
use collaborative_doc.Prelude.{
  ℕ, suc, ◌≡◌, refl, ap, ℤ, Bool, true, some, inl, inr, Text, text_eq_refl, take, take_of_length-le,
  length-take, arith, Bool-cases, Option-cases,
}
use collaborative_doc.Metadata.{Store}
use collaborative_doc.Undo.{Versions, Opens, content_size}
use collaborative_doc.Checkpoints.{
  Saved, CheckpointOpens, done, checkpoint_filename, create_checkpoint, view_checkpoint,
  revert_to_checkpoint,
}

-- A checkpoint that is made holds what fits the buffer of the document.
created :
    (f tag user : Text) (opens : CheckpointOpens) (now : ℤ) (s : Saved)
    → (create_checkpoint f tag user opens now s).0 ≡ done
    → (content : Text) × (s.document.file ≡ some content)
      × ((create_checkpoint f tag user opens now s).1.checkpoints (checkpoint_filename f tag)
          ≡ some (take content_size content))
unfolding create_checkpoint
created f tag user opens now s h = elim (Option-cases s.document.file) [
  | inl n ↦ absurd (cc (rw (n, create_checkpoint) at h))
  | inr (content, e) ↦ elim (Option-cases (s.checkpoints (checkpoint_filename f tag))) [
    | inr (old, k) ↦ absurd (cc (rw (e, create_checkpoint, k) at h))
    | inl k ↦ elim (Bool-cases opens.checkpoint) [
      | inr n ↦ absurd (cc (rw (e, create_checkpoint, k, n) at h))
      | inl y ↦ (
        content,
        e,
        rw (e, create_checkpoint, k, y, text_eq_refl (checkpoint_filename f tag)) refl,
      )
    ]
  ]
]

take-take : (n : ℕ) (s : Text) → take n (take n s) ≡ take n s
take-take n s = take_of_length-le n (take n s) (omega (arith, length-take n s))

viewed :
    (f tag text : Text) (s : Saved)
    → s.checkpoints (checkpoint_filename f tag) ≡ some (take content_size text)
    → view_checkpoint f tag (suc content_size) s ≡ some (take content_size text)
unfolding view_checkpoint
viewed f tag text s k = rw (k, view_checkpoint) (ap some (take-take content_size text))

reverted :
    (f tag user text : Text) (opens : Opens) (writable : Bool) (now : ℤ) (s : Saved)
    → s.checkpoints (checkpoint_filename f tag) ≡ some (take content_size text)
    → opens.file ≡ true
    → ((revert_to_checkpoint f tag user opens writable now s).0 ≡ done)
      × ((revert_to_checkpoint f tag user opens writable now s).1.document.file
          ≡ some (take content_size text))
unfolding revert_to_checkpoint
reverted f tag user text opens writable now s k w = (
  rw (k, revert_to_checkpoint, w) refl,
  rw (k, revert_to_checkpoint, w) (ap some (take-take content_size text)),
)

-- Behind a checkpoint that is made, and any changes of the document and the metadata, viewing it
-- in a buffer of 8192 bytes gives the first 8191 bytes of the document at that time, and a revert
-- to it succeeds if the document opens for writing, and leaves the document with these bytes.
pub revert_to_checkpoint-create_checkpoint :
    (f tag user reverter : Text) (opens : CheckpointOpens) (writes : Opens) (writable : Bool)
    (now later : ℤ) (s : Saved) (document : Versions) (store : Store)
    → (create_checkpoint f tag user opens now s).0 ≡ done
    → writes.file ≡ true
    → let made : Saved = record (create_checkpoint f tag user opens now s).1 {
      document = document;
      store = store;
    } in
      (content : Text) × (s.document.file ≡ some content)
      × (view_checkpoint f tag (suc content_size) made ≡ some (take content_size content))
      × ((revert_to_checkpoint f tag reverter writes writable later made).0 ≡ done)
      × ((revert_to_checkpoint f tag reverter writes writable later made).1.document.file
          ≡ some (take content_size content))
revert_to_checkpoint-create_checkpoint f tag user reverter opens writes writable now later s
      document store h w =
    let (content, e, k) = created f tag user opens now s h in
    let made : Saved = record (create_checkpoint f tag user opens now s).1 {
      document = document;
      store = store;
    } in
    let (r1, r2) = reverted f tag reverter content writes writable later made k w in
    (content, e, viewed f tag content made k, r1, r2)
