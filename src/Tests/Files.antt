-- ===== src/Tests/Files.antt =====
-- A controller's file service, empty at first, and a client that uses it.
use abb_librws.Base.{
  ◌≡◌, refl, inr, true, false, Text, codes, text_eq, if◌then◌else◌, List, [], ◌∷◌, Option, some,
  none,
}
use abb_librws.Poco.Types.{HttpRequest, HttpResponse, done}
use abb_librws.Poco.Work.{Net, History}
use abb_librws.Poco.Http.{http_put, http_get}
use abb_librws.Client.Types.{FileResource}
use abb_librws.Client.Paths.{file_path}
use abb_librws.Interface.Files.{
  Files, file_at, KeepsFiles, TellsFile, TellsDeleted, FileCall, upload, fetch, remove, uploaded,
  fetched, removed, file_reply, file_replies, files_after, all_files_after, perform_files,
}
use abb_librws.Interface.Files.Refinement.{HasFiles, FilesRefine, perform_files-FilesRefine}
use abb_librws.Tests.Network.{controller, jar}
use abb_librws.Tests.Toggle.{parser, idle}

abbrev no_files : Files
no_files path = none

abbrev found : Option Text → HttpResponse
found (some content) = record { status = 200; headers = []; content = content }
found none = record { status = 404; headers = []; content = [] }

abbrev deleted : Option Text → HttpResponse
deleted (some content) = record { status = 204; headers = []; content = [] }
deleted none = record { status = 404; headers = []; content = [] }

abbrev shelf_answer : History → HttpRequest → HttpResponse
shelf_answer history request =
    if text_eq request.method http_put
    then record { status = 201; headers = []; content = [] }
    else if text_eq request.method http_get
    then found (file_at no_files request.uri history)
    else deleted (file_at no_files request.uri history)

abbrev shelf : Net
shelf = record controller {
  respond = λ history request content. done (shelf_answer history request);
}

found-TellsFile : (o : Option Text) → TellsFile o (found o)
found-TellsFile none = refl
found-TellsFile (some content) = (refl, refl)

deleted-TellsDeleted : (o : Option Text) → TellsDeleted o (deleted o)
deleted-TellsDeleted none = refl
deleted-TellsDeleted (some content) = inr refl

shelf-KeepsFiles : KeepsFiles shelf no_files
unfolding text_eq
shelf-KeepsFiles = record {
  takes_file = λ history request content resource is_put to_path.
      (shelf_answer history request, refl, rw is_put (inr refl));
  tells_file = λ history request resource is_get from_path. (
    shelf_answer history request,
    refl,
    rw (is_get, from_path) (found-TellsFile (file_at no_files (file_path resource) history)),
  );
  deletes_file = λ history request resource is_delete of_path. (
    shelf_answer history request,
    refl,
    rw (is_delete, of_path) (deleted-TellsDeleted (file_at no_files (file_path resource) history)),
  );
  cookies_readable = λ history request content response answer. ([], refl);
}

abbrev notes : FileResource
notes = record { filename = codes "notes.txt"; directory = codes "$home" }

abbrev calls : List FileCall
calls =
    fetch notes (codes "old")
    ∷ upload notes (codes "hello")
    ∷ fetch notes []
    ∷ remove notes
    ∷ remove notes
    ∷ []

replies_of_store :
    file_replies calls no_files
    ≡ fetched false (some (codes "old"))
      ∷ uploaded true
      ∷ fetched true (some (codes "hello"))
      ∷ removed true
      ∷ removed false
      ∷ []
unfolding file_replies file_reply files_after file_path text_eq
replies_of_store = refl

no_files-HasFiles : HasFiles no_files no_files idle.poco.history
unfolding file_at
no_files-HasFiles p = refl

perform_files-FilesRefine_example :
    FilesRefine shelf jar parser no_files shelf-KeepsFiles
      (perform_files shelf jar parser calls idle)
      (file_replies calls no_files)
      (all_files_after calls no_files)
perform_files-FilesRefine_example =
    perform_files-FilesRefine shelf jar parser no_files shelf-KeepsFiles calls no_files idle
      no_files-HasFiles
