-- ===== src/Tests/Clients.antt =====
-- Runs of the lines of clients.
use collaborative_doc.Prelude.{
  ℕ, suc, ◌≤◌, ◌≡◌, ◌⊎◌, refl, true, false, pos, none, some, List, [], ◌∷◌, Text, bytes, arith,
  length, take, if◌then◌else◌, text_eq,
}
use collaborative_doc.Strings.Tokens.{strtok_all, strtok, skip, before, after}
use collaborative_doc.Documents.{content_size, sentences_from, get_sentence_info_simple}
use collaborative_doc.Editing.Sentences.{sentences}
use collaborative_doc.Editing.Shapes.{IsEnded}
use collaborative_doc.Locks.{SentenceLock, is_sentence_locked, get_client_write_info}
use collaborative_doc.Clients.{
  Server, Around, write, edit, etirw, undo, granted, handle_write, swap_name, available_sentences,
}
use collaborative_doc.Clients.Commands.{handle_line, is_file_locked, Event, run}
use collaborative_doc.Clients.Available.{handle_write-granted}
use collaborative_doc.Clients.Exclusion.{run-IsExclusive}
use collaborative_doc.Locks.Exclusion.{IsExclusive, locks_after-IsExclusive}
use collaborative_doc.Clients.Safety.{handle_line-kept}
use collaborative_doc.Tests.Sample.{doc, alice, bob}
use collaborative_doc.Tests.Editing.{text, third, new, text-sentences}

abbrev around : Around
around = record {
  opens = record { file = true; backup = true; history = true };
  checkpoint_opens = record { checkpoint = true; meta = true };
  swap_opens = true;
  removable = true;
  writable = true;
  alloc_ok = true;
  now = pos 1700000000;
  controls = [];
}

-- A server with one document and these locks.
abbrev server : List SentenceLock → Server
server locks = record {
  documents = λ f. record {
    file = if text_eq f doc then some text else none;
    versions = λ n. none;
    history = none;
  };
  checkpoints = λ f. none;
  lists = λ f. none;
  store = record { file_table = []; metadata = none };
  locks = locks;
}

-- Client 5 writes the first sentence.
abbrev one_lock : List SentenceLock
one_lock = record { filename = doc; sentence_num = 1; client_fd = 5 } ∷ []

text_few : length (sentences (take content_size text)) ≤ 256
text_few = rw text-sentences (omega arith)

is_granted : (handle_write 6 doc (pos 3) around (server one_lock)).0 ≡ granted
unfolding handle_write available_sentences get_sentence_info_simple sentences_from strtok_all strtok
    skip before after is_sentence_locked text_eq
is_granted = refl

handle_write-granted_example :
    (n : ℕ) × (pos 3 ≡ pos n)
    × (1 ≤ n)
    × ((n ≤ length (sentences (take content_size text)))
        ⊎ ((n ≡ suc (length (sentences (take content_size text)))) × IsEnded third))
    × (is_sentence_locked doc n 6 one_lock ≡ false)
    × ((handle_write 6 doc (pos 3) around (server one_lock)).1.locks
        ≡ record { filename = doc; sentence_num = n; client_fd = 6 } ∷ one_lock)
unfolding text_eq
handle_write-granted_example =
    handle_write-granted 6 doc (pos 3) around (server one_lock) text 2 third refl text_few
      (rw text-sentences refl) (rw text-sentences refl) refl is_granted

-- The swap file of client 5.
abbrev its_swap : Text
its_swap = swap_name doc 1 5

is_locked : is_file_locked doc one_lock ≡ true
unfolding is_file_locked text_eq
is_locked = refl

no_lock : get_client_write_info 6 one_lock ≡ none
unfolding get_client_write_info
no_lock = refl

handle_line-kept_example :
    ((handle_line 6 bob (undo doc) around (server one_lock)).1.documents doc).file ≡ some text
unfolding text_eq
handle_line-kept_example =
    handle_line-kept doc 6 bob (undo doc) around (server one_lock) is_locked (rw no_lock refl)

-- What client 6 does between the edit and the end of the write of client 5.
abbrev others : List Event
others =
    record { fd = 6; user = bob; line = write doc (pos 3); around = around }
    ∷ record { fd = 6; user = bob; line = edit (pos 2) (bytes "six"); around = around }
    ∷ record { fd = 6; user = bob; line = etirw; around = around }
    ∷ []

abbrev later : Server
later = run others (handle_line 5 alice (edit (pos 2) new) around (server one_lock)).1

run-IsExclusive_example :
    IsExclusive
      (run
        (record { fd = 5; user = alice; line = write doc (pos 1); around = around } ∷ others)
        (server [])).locks
run-IsExclusive_example =
    run-IsExclusive
      (record { fd = 5; user = alice; line = write doc (pos 1); around = around } ∷ others)
      (server []) (locks_after-IsExclusive [])
