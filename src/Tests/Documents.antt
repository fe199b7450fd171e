-- ===== src/Tests/Documents.antt =====
-- Runs of the sentences of a document and of the requests for access.
use collaborative_doc.Prelude.{
  ℕ, ℤ, Bool, ◌<◌, ◌≡◌, ◌≢◌, refl, true, pos, Option, none, some, [], ◌∷◌, Text, bytes, arith,
  find_index, text_eq, length, take, if◌then◌else◌, leb,
}
use collaborative_doc.Acl.{Acl, acl_allows, acl_grant}
use collaborative_doc.Acl.Laws as AclLaws
use collaborative_doc.Strings.Decimal.{print_int, print_digits, scan_digits}
use collaborative_doc.Strings.Lines.{raw_lines_from}
use collaborative_doc.Strings.Scan.{scan_number, after_digits, span, skip_spaces}
use collaborative_doc.Strings.Tokens.{strtok_all, strtok, skip, before, after}
use collaborative_doc.Documents.{sentences_from, get_sentence_info_simple, words_of, content_size}
use collaborative_doc.Metadata.{Store, Disk, persist_find_file}
use collaborative_doc.Metadata.Format.{FileMeta}
use collaborative_doc.Requests.{
  parse_request, format_request, request_file_access, rewrite_requests, any_line,
  approve_access_request, approve_request, request_access, done, success, has_access, perm_flag,
}
use collaborative_doc.Requests.Approval.{request_access-approve_request}
use collaborative_doc.Tests.Sample.{doc, alice, bob}

abbrev text : Text
text = bytes "Hi e.g. all. Bye"

two_sentences :
    get_sentence_info_simple 256 (some text)
    ≡ record { start_word_idx = 0; end_word_idx = 1; delimiter = b'.' }
      ∷ record { start_word_idx = 2; end_word_idx = 2; delimiter = b'.' }
      ∷ record { start_word_idx = 3; end_word_idx = 3; delimiter = 0 }
      ∷ []
unfolding get_sentence_info_simple sentences_from strtok_all strtok skip before after
two_sentences = refl

four_words :
    words_of (take content_size text) ≡ bytes "Hi" ∷ bytes "e.g." ∷ bytes "all." ∷ bytes "Bye" ∷ []
unfolding strtok_all strtok skip before after
four_words = refl

few_words : length (words_of (take content_size text)) < 256
few_words = rw four_words (omega arith)

abbrev entry : FileMeta
entry = record {
  filename = doc;
  size = pos 0;
  word_count = pos 0;
  created = pos 1700000000;
  modified = pos 1700000000;
  last_accessed = pos 1700000000;
  last_accessed_by = [];
  owner_username = alice;
  folder = [];
  acl = [];
}

abbrev store : Store
store = record { file_table = entry ∷ []; metadata = none }

abbrev disk : Disk
disk = record { read = λ f. some []; writable = true; now = pos 1700000003 }

abbrev granted : Acl
granted = record { username = bob; permission = 1 } ∷ []

abbrev requested : Option Text
requested = some (bytes "12|bob|-R|PENDING\n")

request_written : request_file_access bob (bytes "-R") none true (pos 12) ≡ (success, requested)
unfolding request_file_access format_request print_int print_digits
request_written = refl

request_approved :
    (approve_request doc alice bob (bytes "-R") requested true disk store).0 ≡ done success
unfolding approve_request approve_access_request rewrite_requests any_line raw_lines_from
    parse_request scan_number scan_digits after_digits span skip_spaces text_eq persist_find_file
    find_index
request_approved = refl

stored : persist_find_file doc store ≡ some entry
unfolding persist_find_file find_index text_eq
stored = refl

grants : acl_grant bob (perm_flag (bytes "-R")) [] ≡ some granted
unfolding acl_grant find_index text_eq
grants = refl

different : bob ≢ alice
different e = absurd (cc e)

request_access-approve_request_example :
    (alice ≡ alice)
    × (persist_find_file doc
          (approve_request doc alice bob (bytes "-R") requested true disk store).1.1
        ≡ some (record entry { acl = granted }))
    × ((u : Text) (q : ℕ)
        → acl_allows u q granted
          ≡ (if text_eq bob u then leb q (perm_flag (bytes "-R")) else acl_allows u q []))
    × ((file' : Option Text) (appends : Bool) (now : ℤ)
        → (request_access doc bob
            (bytes "-R")
            file'
            true
            appends
            now
            (approve_request doc alice bob (bytes "-R") requested true disk store).1.1).0
          ≡ has_access)
request_access-approve_request_example =
    request_access-approve_request doc alice bob (bytes "-R") requested true disk store entry
      granted stored AclLaws.empty-IsValid (omega arith) grants different request_approved
