-- ===== src/Http/Server.antt =====
-- http/httpd.go: the state of the HTTP server, what a request leads to, and what the handlers share.
-- gorilla/mux, the JSON encoder and net/http are libraries: a request is the handler that the router
-- chooses, with the variables of the path and the decoded body, and a response a status and what
-- is written.
use mock_my_mta.Base.{
  Text, lit, ◌==◌, List, [], ◌∷◌, ◌++◌, Option, Bool, true, false, not, if◌then◌else◌, ℕ, Outcome,
  Error, panicked, failed, unimplemented, invalid_query, member, keep,
}
use mock_my_mta.Base.Dict.{Dict}
use mock_my_mta.Base.Int.{ℤ}
use mock_my_mta.Std.{Std, Address}
use mock_my_mta.Multipart.Tree.{MimeTree}
use mock_my_mta.Storage.{EmailHeader, AttachmentHeader}
use mock_my_mta.Storage.Layer.{Layer}
use mock_my_mta.Storage.Engine.{error_text}
use mock_my_mta.Smtp.{Relays, Delivery}
use mock_my_mta.Http.{Settings}

-- Server, with the package's variable smtpSettings. sync.Map has a list of the emails read.
pub record Server (S : Type 0) : Type 0 where
  pub store : S
  pub read_emails : List Text
  pub relays : Relays
  pub settings : Settings

-- A file system of io/fs: fs.Stat (none for an error, else whether it is a folder), and fs.ReadFile.
pub record FileSystem : Type 0 where
  pub stat : Text → Option Bool
  pub read_file : Text → Outcome Text

-- What the static files are served from, with http.DetectContentType.
pub record Statics : Type 0 where
  pub debug : Bool
  pub files : FileSystem
  pub detect_content_type : Text → Text

-- What the server calls: its storage, the packages of `Std`, and bluemonday's Sanitize, the format
-- %q, net.SplitHostPort, smtp.SendMail, strconv.Atoi and textproto.CanonicalMIMEHeaderKey.
pub record Services (S : Type 0) : Type 0 where
  pub storage : Layer S
  pub std : Std
  pub sanitize : Text → Text
  pub quote : Text → Text
  pub split_host : Text → Outcome Text
  pub send_mail : Delivery → Option Error
  pub atoi : Text → Outcome ℤ
  pub canonical : Text → Text
  pub statics : Statics

-- PaginationResponse
pub record Pagination : Type 0 where
  pub current_page : ℤ
  pub is_first_page : Bool
  pub is_last_page : Bool
  pub total_pages : ℕ
  pub total_matches : ℕ

-- BulkResult
pub record BulkResult : Type 0 where
  pub succeeded : List Text
  pub failures : List Text

-- What is written: the values that are encoded as JSON, bytes with the headers set before them, and
-- the message of http.Error. `aborted` is the connection that net/http closes after a panic.
pub data Payload : Type 0 where
  nothing aborted status_ok : Payload
  error_message : Text → Payload
  mailboxes : List Text → Payload
  email : EmailHeader → Payload
  relay_data : List Text → Address → List Address → Payload
  body : Text → Payload
  headers : Dict (List Text) → Payload
  mime_tree : MimeTree → Payload
  attachments : List AttachmentHeader → Payload
  bytes : List (Text × Text) → Text → Payload
  bulk_result : BulkResult → Payload
  page : List EmailHeader → Pagination → Payload
  stats : ℕ → Payload
  settings_now : Settings → Payload

-- The calls of BroadcastEvent.
pub data Event : Type 0 where
  new_email email_deleted : Text → Event
  all_deleted read_status_reset : Event
  settings_changed : Settings → Event

-- What a handler leaves: the state, the response, the broadcasts and the mails that were sent.
pub record Reply (S : Type 0) : Type 0 where
  pub server : Server S
  pub status : ℕ
  pub payload : Payload
  pub events : List Event
  pub sent : List Delivery

module _ {S : Type 0} (s : Server S) where
  abbrev pub respond : ℕ → Payload → Reply S
  respond status payload = record {
    server = s;
    status = status;
    payload = payload;
    events = [];
    sent = [];
  }

  abbrev pub panics : Error → Bool
  panics (unimplemented method physical) = false
  panics (failed text) = false
  panics panicked = true
  panics (invalid_query query text) = false

  -- writeErrorResponse with an error behind a text; a panic ends the handler instead.
  abbrev pub refuse : ℕ → Text → Error → Reply S
  refuse status text e =
      if panics e
      then respond 0 aborted
      else respond status (error_message (text ++ (lit ": " ++ error_text e)))

-- sync.Map
unfoldable pub mark : Text → List Text → List Text
mark id marks = if member id marks then marks else marks ++ (id ∷ [])

unfoldable pub unmark : Text → List Text → List Text
unmark id marks = keep (λ m. not (m == id)) marks
