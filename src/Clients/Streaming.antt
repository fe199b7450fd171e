-- ===== src/Clients/Streaming.antt =====
-- `STREAM` in `client_handler_thread` of src/storage_server/main.c: the words of a document, one by
-- one, while the client may send what stops it or makes it wait.
use collaborative_doc.Prelude.{
  ℕ, suc, Bool, ◌||◌, List, [], ◌∷◌, if◌then◌else◌, ltb, ◌==◌, Text, length, take,
}
use collaborative_doc.Strings.Tokens.{strtok_all}
use collaborative_doc.Documents.{max_words, content_size}

-- What is found behind a word: nothing, or something that is no command; the end of the
-- connection; `STOP`; and `PAUSE` with what comes behind it, where `lost` is an error of `recv`.
pub data Control : Type 0 where
  go_on disconnected stop : Control
  pause_resume pause_other pause_lost : Control

pub data Packet : Type 0 where
  start no_text stopped paused resumed complete : Packet
  word : Text → Packet

abbrev pub is_space : ℕ → Bool
is_space c = (c == b' ') || (c == 9) || (c == b'\n') || (c == 13)

-- The tokens that fit an entry of `words`.
unfoldable pub short_words : List Text → List Text
short_words [] = []
short_words (w ∷ ws) = let rest = short_words ws in if ltb (length w) 512 then w ∷ rest else rest

abbrev pub stream_words : Text → List Text
stream_words content =
    take max_words (short_words (strtok_all is_space (suc (length content)) content))

-- The loop over the words; what stands behind the last control is as if nothing was sent.
unfoldable pub stream_from : List Text → List Control → List Packet
stream_from [] controls = complete ∷ []
stream_from (w ∷ ws) [] = word w ∷ stream_from ws []
stream_from (w ∷ ws) (go_on ∷ cs) = word w ∷ stream_from ws cs
stream_from (w ∷ ws) (disconnected ∷ cs) = word w ∷ []
stream_from (w ∷ ws) (stop ∷ cs) = word w ∷ stopped ∷ []
stream_from (w ∷ ws) (pause_resume ∷ cs) = word w ∷ paused ∷ resumed ∷ stream_from ws cs
stream_from (w ∷ ws) (pause_other ∷ cs) = word w ∷ paused ∷ []
stream_from (w ∷ ws) (pause_lost ∷ cs) = word w ∷ paused ∷ stream_from ws cs

-- `STREAM` of a file that is there, if every `send` succeeds.
unfoldable pub stream : Text → List Control → List Packet
stream [] controls = no_text ∷ []
stream (c ∷ file) controls =
    start ∷ stream_from (stream_words (take content_size (c ∷ file))) controls
