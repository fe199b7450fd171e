-- ===== src/Tests/Metadata.antt =====
-- Runs of a storage server's metadata.
use collaborative_doc.Prelude.{
  ◌≡◌, refl, pos, true, none, some, [], ◌∷◌, if◌then◌else◌, Text, text_eq, bytes, arith, find_index,
}
use collaborative_doc.Metadata.{
  Store, Disk, save_metadata, new_meta, add_metadata_entry, remove_metadata_entry,
  persist_find_file,
}
use collaborative_doc.Metadata.Format.{FileMeta}
use collaborative_doc.Metadata.Load.{load_metadata}
use collaborative_doc.Metadata.Words.{count_words, count_words_in_file}
use collaborative_doc.Metadata.Fields.{IsPlain}
use collaborative_doc.Metadata.RoundTrip.{load_metadata-save_metadata}
use collaborative_doc.Metadata.Table.{persist_find_file-remove_metadata_entry, IsValid}
use collaborative_doc.Metadata.Additions.{
  persist_find_file-add_metadata_entry, add_metadata_entry-IsValid,
}
use collaborative_doc.Tests.Sample.{doc, alice, bob}

abbrev pub doc_meta : FileMeta
doc_meta = record {
  filename = doc;
  size = pos 25;
  word_count = pos 4;
  created = pos 1700000000;
  modified = pos 1700000001;
  last_accessed = pos 1700000002;
  last_accessed_by = [];
  owner_username = alice;
  folder = bytes "drafts";
  acl = record { username = bob; permission = 1 } ∷ [];
}

abbrev pub one_entry : Store
one_entry = record { file_table = doc_meta ∷ []; metadata = none }

abbrev nothing_stored : Store
nothing_stored = record { file_table = []; metadata = none }

abbrev content : Text
content = bytes "two words"

abbrev pub two_words : Disk
two_words = record { read = λ f. some content; writable = true; now = pos 1700000003 }

doc_meta-IsPlain : IsPlain doc_meta
unfolding text_eq
doc_meta-IsPlain = record {
  filename = record {
    short = omega arith;
    commas = (refl, (refl, (refl, tt)));
    newlines = (refl, (refl, (refl, tt)));
    dash = refl;
  };
  named = λ e. absurd (cc e);
  size = omega arith;
  word_count = omega arith;
  created = omega arith;
  modified = omega arith;
  last_accessed = omega arith;
  last_accessed_by = record { short = omega arith; commas = tt; newlines = tt; dash = refl };
  owner_username = record {
    short = omega arith;
    commas = (refl, (refl, (refl, (refl, (refl, tt)))));
    newlines = (refl, (refl, (refl, (refl, (refl, tt)))));
    dash = refl;
  };
  folder = record {
    short = omega arith;
    commas = (refl, (refl, (refl, (refl, (refl, (refl, tt))))));
    newlines = (refl, (refl, (refl, (refl, (refl, (refl, tt))))));
    dash = refl;
  };
  bounded = omega arith;
  acl = (
    record {
      short = omega arith;
      colons = (refl, (refl, (refl, tt)));
      semicolons = (refl, (refl, (refl, tt)));
      newlines = (refl, (refl, (refl, tt)));
      permission = omega arith;
    },
    tt,
  );
}

load_metadata-save_metadata_example :
    load_metadata (save_metadata true one_entry).metadata [] ≡ (1, doc_meta ∷ [])
load_metadata-save_metadata_example =
    load_metadata-save_metadata one_entry [] (omega arith) (doc_meta-IsPlain, tt)

absent : persist_find_file bob one_entry ≡ none
unfolding persist_find_file find_index text_eq
absent = refl

counted : new_meta bob two_words ≡ record {
  filename = bob;
  size = pos 9;
  word_count = pos 2;
  created = pos 1700000003;
  modified = pos 1700000003;
  last_accessed = pos 1700000003;
  last_accessed_by = [];
  owner_username = [];
  folder = [];
  acl = [];
}
unfolding count_words count_words_in_file
counted = refl

persist_find_file-add_metadata_entry_example :
    persist_find_file doc (add_metadata_entry bob two_words one_entry)
    ≡ (if text_eq bob doc then some (new_meta bob two_words) else persist_find_file doc one_entry)
persist_find_file-add_metadata_entry_example =
    persist_find_file-add_metadata_entry bob doc two_words one_entry (omega arith) (omega arith)
      absent

nothing_stored-IsValid : IsValid nothing_stored
nothing_stored-IsValid = record { bounded = omega arith; unique = λ g. omega arith }

persist_find_file-remove_metadata_entry_example :
    persist_find_file bob
      (remove_metadata_entry bob two_words (add_metadata_entry bob two_words nothing_stored))
    ≡ (if text_eq bob bob
        then none
        else persist_find_file bob (add_metadata_entry bob two_words nothing_stored))
persist_find_file-remove_metadata_entry_example =
    persist_find_file-remove_metadata_entry bob bob two_words
      (add_metadata_entry bob two_words nothing_stored)
      (add_metadata_entry-IsValid bob two_words nothing_stored (omega arith) nothing_stored-IsValid)
