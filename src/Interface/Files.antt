-- ===== src/Interface/Files.antt =====
-- The files of a controller: what it keeps after the requests that it was sent, and a store that says what a client
-- of RWSInterface sees.
pub mod Refinement
use abb_librws.Base.{
  ℕ, ◌≡◌, ◌⊎◌, Bool, true, false, Text, text_eq, List, [], ◌∷◌, Option, some, none, if◌then◌else◌,
}
use abb_librws.Xml.{Node}
use abb_librws.Poco.Types.{HttpRequest, HttpResponse, Outcome, done, http_ok}
use abb_librws.Poco.Work.{Event, sent, History, Net, CookieStore}
use abb_librws.Poco.Http.{http_get, http_put, http_delete}
use abb_librws.Poco.Http.Prompt.{HasCookies}
use abb_librws.Client.Types.{FileResource, R, ◌>>=◌, pure}
use abb_librws.Client.Commands.{http_created, http_no_content}
use abb_librws.Client.Paths.{file_path}
use abb_librws.Interface.Calls.{get_file, upload_file, delete_file}

abbrev pub Files : Type 0
Files = Text → Option Text

-- The file at a path: what was uploaded last, nothing if it was deleted since, or else what was there.
unfoldable pub file_at : Files → Text → History → Option Text
file_at base path [] = base path
file_at base path (sent request content ∷ history) =
    let before = file_at base path history in
    if text_eq request.uri path
    then (if text_eq request.method http_put
        then some content
        else if text_eq request.method http_delete
        then none
        else before)
    else before
file_at base path (_ ∷ history) = file_at base path history

abbrev pub http_not_found : ℕ
http_not_found = 404

abbrev pub AnswersAtOnce : Outcome HttpResponse → (HttpResponse → Type 0) → Type 0
AnswersAtOnce outcome P = (response : HttpResponse) × (outcome ≡ done response) × P response

-- What the answer to a GET says of a file, and the answer to a DELETE
abbrev pub TellsFile : Option Text → HttpResponse → Type 0
TellsFile (some content) response = (response.status ≡ http_ok) × (response.content ≡ content)
TellsFile none response = response.status ≡ http_not_found

abbrev pub TellsDeleted : Option Text → HttpResponse → Type 0
TellsDeleted (some content) response =
    (response.status ≡ http_ok) ⊎ (response.status ≡ http_no_content)
TellsDeleted none response = response.status ≡ http_not_found

-- A controller's file service, to which nobody else writes, and which answers with no malformed cookies.
pub record KeepsFiles (net : Net) (base : Files) : Type 0 where
  pub takes_file :
      (history : History) (request : HttpRequest) (content : Text) (resource : FileResource)
      → request.method ≡ http_put
      → request.uri ≡ file_path resource
      → AnswersAtOnce
          (net.respond history request content)
          (λ response. (response.status ≡ http_ok) ⊎ (response.status ≡ http_created))
  pub tells_file :
      (history : History) (request : HttpRequest) (resource : FileResource)
      → request.method ≡ http_get
      → request.uri ≡ file_path resource
      → AnswersAtOnce
          (net.respond history request [])
          (TellsFile (file_at base (file_path resource) history))
  pub deletes_file :
      (history : History) (request : HttpRequest) (resource : FileResource)
      → request.method ≡ http_delete
      → request.uri ≡ file_path resource
      → AnswersAtOnce
          (net.respond history request [])
          (TellsDeleted (file_at base (file_path resource) history))
  pub cookies_readable :
      (history : History) (request : HttpRequest) (content : Text) (response : HttpResponse)
      → net.respond history request content ≡ done response
      → HasCookies net response

-- The calls on files: an upload, a read into a text, and a deletion
pub data FileCall : Type 0 where
  upload : FileResource → Text → FileCall
  fetch : FileResource → Text → FileCall
  remove : FileResource → FileCall

-- Whether a call is a success, and the text that a read leaves
pub data FileReply : Type 0 where
  uploaded : Bool → FileReply
  fetched : Bool → Option Text → FileReply
  removed : Bool → FileReply

-- The store: a read of no file leaves the text, and a deletion of none fails.
abbrev pub fetch_reply : Option Text → Text → FileReply
fetch_reply (some content) into = fetched true (some content)
fetch_reply none into = fetched false (some into)

abbrev pub remove_reply : Option Text → FileReply
remove_reply (some content) = removed true
remove_reply none = removed false

unfoldable pub file_reply : FileCall → Files → FileReply
file_reply (upload resource content) files = uploaded true
file_reply (fetch resource into) files = fetch_reply (files (file_path resource)) into
file_reply (remove resource) files = remove_reply (files (file_path resource))

abbrev pub set_file : Text → Option Text → Files → Files
set_file path content files p = if text_eq path p then content else files p

unfoldable pub files_after : FileCall → Files → Files
files_after (upload resource content) files = set_file (file_path resource) (some content) files
files_after (fetch resource into) files = files
files_after (remove resource) files = set_file (file_path resource) none files

unfoldable pub file_replies : List FileCall → Files → List FileReply
file_replies [] files = []
file_replies (call ∷ calls) files =
    file_reply call files ∷ file_replies calls (files_after call files)

unfoldable pub all_files_after : List FileCall → Files → Files
all_files_after [] files = files
all_files_after (call ∷ calls) files = all_files_after calls (files_after call files)

module _ {Jar : Type 0} (net : Net) (store : CookieStore Jar) (parse_xml : Text → Option Node) where
  -- The same calls by RWSInterface
  unfoldable pub perform_file : FileCall → R Jar FileReply
  perform_file (upload resource content) =
      upload_file net store parse_xml resource content >>= λ success. pure (uploaded success)
  perform_file (fetch resource into) =
      get_file net store parse_xml resource (some into) >>= λ answer.
      pure (fetched answer.0 answer.1)
  perform_file (remove resource) =
      delete_file net store parse_xml resource >>= λ success. pure (removed success)

  unfoldable pub perform_files : List FileCall → R Jar (List FileReply)
  perform_files [] = pure []
  perform_files (call ∷ calls) =
      perform_file call >>= λ reply. perform_files calls >>= λ replies. pure (reply ∷ replies)
