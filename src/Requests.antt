-- ===== src/Requests.antt =====
-- Requests for access on a storage server: the functions of src/storage_server/main.c on the files
-- of requests, and the commands REQUESTACCESS, APPROVEREQUEST and DENYREQUEST with their arguments
-- read. The file of requests of a document is a text, or `none` where there is none.
pub mod Approval
use collaborative_doc.Prelude.{
  ℕ, ℤ, Bool, true, false, ◌&&◌, ◌||◌, not, Option, none, some, List, [], ◌∷◌, ◌++◌, if◌then◌else◌,
  map, take, Text, text_eq, bytes,
}
use collaborative_doc.Acl.{acl_allows, perm_read, perm_write}
use collaborative_doc.Strings.Decimal.{print_int}
use collaborative_doc.Strings.Lines.{raw_lines}
use collaborative_doc.Strings.Scan.{scan_number, scan_byte, scan_until, scan_word}
use collaborative_doc.Metadata.{Store, Disk, persist_find_file, persist_set_acl}
use collaborative_doc.Metadata.Load.{◌>>=◌}

-- A line of the file.
pub record AccessRequest : Type 0 where
  pub timestamp : ℤ
  pub user : Text
  pub perm : Text
  pub status : Text

abbrev pub pending : Text
pending = bytes "PENDING"

-- `sscanf(line, "%ld|%127[^|]|%7[^|]|%15s", ...) == 4`
unfoldable pub parse_request : Text → Option AccessRequest
parse_request line = do
  timestamp ← scan_number line
  s1 ← scan_byte b'|' timestamp.1
  user ← scan_until 127 b'|' s1
  s2 ← scan_byte b'|' user.1
  perm ← scan_until 7 b'|' s2
  s3 ← scan_byte b'|' perm.1
  status ← scan_word 15 s3
  some (record { timestamp = timestamp.0; user = user.0; perm = perm.0; status = status.0 })

-- `"%ld|%s|%s|%s\n"`
unfoldable pub format_request : AccessRequest → Text
format_request r =
    print_int r.timestamp ++ b'|' ∷ (r.user ++ b'|' ∷ (r.perm ++ b'|' ∷ (r.status ++ b'\n' ∷ [])))

abbrev pub check_file_owner : Text → Text → Store → Bool
check_file_owner filename username s = elim (persist_find_file filename s) [
  | none ↦ false
  | some m ↦ text_eq m.owner_username username
]

-- A pending request of the user, for this permission.
abbrev pub is_pending_for : Text → Text → AccessRequest → Bool
is_pending_for username permission r =
    text_eq r.user username && (text_eq r.perm permission && text_eq r.status pending)

-- A pending request of the user, for any permission.
abbrev pub is_pending_of : Text → AccessRequest → Bool
is_pending_of username r = text_eq r.user username && text_eq r.status pending

-- Whether a line passes the test.
unfoldable pub any_line : (Text → Bool) → List Text → Bool
any_line test [] = false
any_line test (l ∷ ls) = test l || any_line test ls

-- A line that parses to a request with the test.
abbrev pub is_line : (AccessRequest → Bool) → Text → Bool
is_line test line = elim (parse_request line) [ none ↦ false | some r ↦ test r ]

abbrev pub line_size : ℕ
line_size = 512

pub data Result : Type 0 where
  success missing failed already : Result

-- Whether a request is in the file already.
abbrev pub is_requested : Text → Text → Option Text → Bool
is_requested username permission none = false
is_requested username permission (some text) =
    any_line (is_line (is_pending_for username permission)) (raw_lines line_size text)

abbrev pub text_of : Option Text → Text
text_of none = []
text_of (some text) = text

-- The two last arguments are whether the file opens for appending, and the time.
unfoldable pub request_file_access : Text → Text → Option Text → Bool → ℤ → Result × Option Text
request_file_access username permission file opens now =
    if is_requested username permission file
    then (already, file)
    else if opens
    then (
      success,
      some (
          text_of file
          ++ format_request
              (record { timestamp = now; user = username; perm = permission; status = pending })),
    )
    else (failed, file)

-- A line with a request that passes the test gets the new status.
unfoldable pub mark : (AccessRequest → Bool) → Text → Text → Text
mark test status line = elim (parse_request line) [
  | none ↦ line
  | some r ↦ if test r then format_request (record r { status = status }) else line
]

abbrev pub max_lines : ℕ
max_lines = 100

-- The lines that are read, and are written back.
abbrev pub request_lines : Text → List Text
request_lines text = take max_lines (raw_lines line_size text)

unfoldable pub join : List Text → Text
join [] = []
join (t ∷ ts) = t ++ join ts

-- The part that approving and denying share; `opens` is whether the file opens for writing.
unfoldable pub rewrite_requests :
    (AccessRequest → Bool) → Text → Option Text → Bool → Result × Option Text
rewrite_requests test status none opens = (missing, none)
rewrite_requests test status (some text) opens =
    if any_line (is_line test) (request_lines text)
    then (if opens
        then (success, some (join (map (mark test status) (request_lines text))))
        else (failed, some text))
    else (missing, some text)

abbrev pub perm_flag : Text → ℕ
perm_flag permission = if text_eq permission (bytes "-W") then perm_write else perm_read

-- What a call leaves: its result, the file of requests and the metadata.
pub record Left : Type 0 where
  pub result : Result
  pub file : Option Text
  pub store : Store

unfoldable pub approve_access_request :
    Text → Text → Text → Option Text → Bool → Disk → Store → Left
approve_access_request filename requester permission file opens disk s =
    let (result, file') =
      rewrite_requests (is_pending_for requester permission) (bytes "APPROVED") file opens in
    record {
      result = result;
      file = file';
      store = elim result [
        | success ↦ persist_set_acl filename requester (perm_flag permission) disk s
        | missing ↦ s
        | failed ↦ s
        | already ↦ s
      ];
    }

abbrev pub deny_access_request : Text → Option Text → Bool → Result × Option Text
deny_access_request requester file opens =
    rewrite_requests (is_pending_of requester) (bytes "DENIED") file opens

-- The answers of the three commands.
pub data Response : Type 0 where
  bad_permission no_file own_file has_access not_owner : Response
  done : Result → Response

abbrev pub is_permission : Text → Bool
is_permission p = text_eq p (bytes "-R") || text_eq p (bytes "-W")

-- The entry of the user in the list of the file allows what is asked for.
abbrev pub allowed : Text → Text → Text → Store → Bool
allowed filename username permission s = elim (persist_find_file filename s) [
  | none ↦ false
  | some m ↦ acl_allows username (perm_flag permission) m.acl
]

-- REQUESTACCESS; `exists` is whether the document opens.
unfoldable pub request_access :
    Text → Text → Text → Option Text → Bool → Bool → ℤ → Store → Response × Option Text
request_access filename username permission file exists opens now s =
    if not (is_permission permission)
    then (bad_permission, file)
    else if not exists
    then (no_file, file)
    else if check_file_owner filename username s
    then (own_file, file)
    else if allowed filename username permission s
    then (has_access, file)
    else (let (result, file') = request_file_access username permission file opens now in
        (done result, file'))

-- APPROVEREQUEST
unfoldable pub approve_request :
    Text → Text → Text → Text → Option Text → Bool → Disk → Store → Response × (Option Text × Store)
approve_request filename username requester permission file opens disk s =
    if not (is_permission permission)
    then (bad_permission, (file, s))
    else if not (check_file_owner filename username s)
    then (not_owner, (file, s))
    else (let left = approve_access_request filename requester permission file opens disk s in
        (done left.result, (left.file, left.store)))

-- DENYREQUEST
unfoldable pub deny_request :
    Text → Text → Text → Option Text → Bool → Store → Response × Option Text
deny_request filename username requester file opens s =
    if not (check_file_owner filename username s)
    then (not_owner, file)
    else (let (result, file') = deny_access_request requester file opens in (done result, file'))
