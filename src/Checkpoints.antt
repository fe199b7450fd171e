-- ===== src/Checkpoints.antt =====
-- Checkpoints of a document on a storage server: `create_checkpoint`, `view_checkpoint` and
-- `revert_to_checkpoint` of src/storage_server/main.c. The directory of checkpoints is a function
-- from file names to contents.
pub mod Revert
use collaborative_doc.Prelude.{
  ℕ, ◌-◌, ℤ, pos, Bool, Option, none, some, List, [], ◌∷◌, ◌++◌, if◌then◌else◌, Text, text_eq,
  bytes, length, take, strncpy,
}
use collaborative_doc.Strings.Decimal.{print_int}
use collaborative_doc.Metadata.{Store, update_metadata_entry}
use collaborative_doc.Undo.{Versions, Opens, content_size, create_file_backup, put_version, text_of}

-- A document with its backups, the checkpoints of the server, the list of those of the document, and
-- the metadata.
pub record Saved : Type 0 where
  pub document : Versions
  pub checkpoints : Text → Option Text
  pub meta : Option Text
  pub store : Store

-- Whether a checkpoint and the list of checkpoints open for writing.
pub record CheckpointOpens : Type 0 where
  pub checkpoint : Bool
  pub meta : Bool

pub data Result : Type 0 where
  done missing failed already : Result

-- `"%s_%s.checkpoint"`
abbrev pub checkpoint_filename : Text → Text → Text
checkpoint_filename filename tag = strncpy 511 (filename ++ b'_' ∷ (tag ++ bytes ".checkpoint"))

unfoldable pub format_checkpoint : ℤ → Text → Text → ℕ → Text
format_checkpoint now tag user size =
    print_int now ++ b'|' ∷ (tag ++ b'|' ∷ (user ++ b'|' ∷ (print_int (pos size) ++ b'\n' ∷ [])))

unfoldable pub create_checkpoint : Text → Text → Text → CheckpointOpens → ℤ → Saved → Result × Saved
create_checkpoint filename tag user opens now s = elim s.document.file [
  | none ↦ (missing, s)
  | some content ↦
      let name = checkpoint_filename filename tag in
      let read = take content_size content in
      elim (s.checkpoints name) [
        | some existing ↦ (already, s)
        | none ↦
            if opens.checkpoint
            then (
              done,
              record {
                document = s.document;
                checkpoints = put_version name read s.checkpoints;
                meta =
                    if opens.meta
                    then some (text_of s.meta ++ format_checkpoint now tag user (length read))
                    else s.meta;
                store = s.store;
              },
            )
            else (failed, s)
      ]
]

-- What is read into a buffer of the size.
unfoldable pub view_checkpoint : Text → Text → ℕ → Saved → Option Text
view_checkpoint filename tag buffer_size s =
    elim (s.checkpoints (checkpoint_filename filename tag)) [
      | none ↦ none
      | some content ↦ some (take (buffer_size - 1) content)
    ]

-- The document is backed up first, whether or not that succeeds; `writable` is
-- whether metadata.txt opens for writing.
unfoldable pub revert_to_checkpoint : Text → Text → Text → Opens → Bool → ℤ → Saved → Result × Saved
revert_to_checkpoint filename tag user opens writable now s =
    elim (s.checkpoints (checkpoint_filename filename tag)) [
      | none ↦ (missing, s)
      | some content ↦
          let backed_up = (create_file_backup filename user opens now s.document).1 in
          if opens.file
          then (
            done,
            record s {
              document = record backed_up { file = some (take content_size content) };
              store =
                  update_metadata_entry filename
                    (record {
                      read = λ f. some (take content_size content);
                      writable = writable;
                      now = now;
                    })
                    s.store;
            },
          )
          else (failed, record s { document = backed_up })
    ]
