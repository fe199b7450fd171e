-- ===== src/Tests/Checkpoints.antt =====
-- Runs of the checkpoints.
use collaborative_doc.Prelude.{◌≡◌, refl, true, pos, suc, none, some, Text, bytes, take}
use collaborative_doc.Undo.{Versions, Opens, content_size}
use collaborative_doc.Checkpoints.{
  Saved, CheckpointOpens, done, create_checkpoint, view_checkpoint, revert_to_checkpoint,
}
use collaborative_doc.Checkpoints.Revert.{revert_to_checkpoint-create_checkpoint}
use collaborative_doc.Tests.Metadata.{one_entry}
use collaborative_doc.Tests.Sample.{doc, alice, bob}

abbrev with : Text → Versions
with text = record { file = some text; versions = λ n. none; history = none }

abbrev saved : Saved
saved = record {
  document = with (bytes "first");
  checkpoints = λ n. none;
  meta = none;
  store = one_entry;
}

abbrev opens : CheckpointOpens
opens = record { checkpoint = true; meta = true }

abbrev writes : Opens
writes = record { file = true; backup = true; history = true }

made : (create_checkpoint doc alice bob opens (pos 20) saved).0 ≡ done
unfolding create_checkpoint
made = refl

abbrev rewritten : Saved
rewritten = record (create_checkpoint doc alice bob opens (pos 20) saved).1 {
  document = with (bytes "second");
  store = one_entry;
}

revert_to_checkpoint-create_checkpoint_example :
    (content : Text) × (saved.document.file ≡ some content)
    × (view_checkpoint doc alice (suc content_size) rewritten ≡ some (take content_size content))
    × ((revert_to_checkpoint doc alice alice writes true (pos 30) rewritten).0 ≡ done)
    × ((revert_to_checkpoint doc alice alice writes true (pos 30) rewritten).1.document.file
        ≡ some (take content_size content))
revert_to_checkpoint-create_checkpoint_example =
    revert_to_checkpoint-create_checkpoint doc alice bob alice opens writes true (pos 20) (pos 30)
      saved (with (bytes "second")) one_entry made refl
