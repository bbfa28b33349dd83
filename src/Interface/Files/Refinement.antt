-- ===== src/Interface/Files/Refinement.antt =====
-- What the calls of RWSInterface on files reply is what the store of files replies.
use abb_librws.Base.{
  ℕ, ◌≡◌, refl, ap, subst, ◌∙◌, true, false, Text, text_eq, text_eq_refl, List, [], ◌∷◌, Option,
  some, none, if◌then◌else◌, leb, ◌==◌, arith,
}
use abb_librws.Xml.{Node}
use abb_librws.Poco.Types.{HttpRequest, HttpResponse, Outcome, done, http_ok}
use abb_librws.Poco.Work.{History, sent, Net, CookieStore}
use abb_librws.Poco.Http.{
  http_internal_server_error, http_unauthorized, http_get, http_put, http_delete, new_request, get,
  put, delete,
}
use abb_librws.Poco.Http.Prompt.{HasCookies, answered, make_http_request_prompt}
use abb_librws.Client.Types.{RwsClient, FileResource}
use abb_librws.Client.Evaluation.{verdict, check_accepted_outcomes, any_accepted, evaluate}
use abb_librws.Client.Paths.{file_path}
use abb_librws.Client.Actions.Prompt.{after_exchange}
use abb_librws.Client.Commands.{accepts, http_created, http_no_content}
use abb_librws.Client.Commands
use abb_librws.Client.Requests
use abb_librws.Interface.Calls.{get_file, upload_file, delete_file}
use abb_librws.Interface.Files.{
  Files, file_at, KeepsFiles, TellsFile, TellsDeleted, FileCall, upload, fetch, remove, uploaded,
  fetched, removed, fetch_reply, remove_reply, file_reply, set_file, files_after, file_replies,
  all_files_after, perform_file, perform_files,
}

-- The controller has the files of the store.
abbrev pub HasFiles : Files → Files → History → Type 0
HasFiles base files history = (p : Text) → file_at base p history ≡ files p

file_at-put :
    (base files : Files) (history : History) (request : HttpRequest) (content : Text)
    → request.method ≡ http_put
    → HasFiles base files history
    → HasFiles base (set_file request.uri (some content) files) (sent request content ∷ history)
unfolding file_at
file_at-put base files history request content is_put h p =
    let e = h p in let same = text_eq_refl http_put in ground arith

delete_is_no_put : text_eq http_delete http_put ≡ false
unfolding text_eq
delete_is_no_put = refl

get_is_no_put : text_eq http_get http_put ≡ false
unfolding text_eq
get_is_no_put = refl

get_is_no_delete : text_eq http_get http_delete ≡ false
unfolding text_eq
get_is_no_delete = refl

file_at-delete :
    (base files : Files) (history : History) (request : HttpRequest) (content : Text)
    → request.method ≡ http_delete
    → HasFiles base files history
    → HasFiles base (set_file request.uri none files) (sent request content ∷ history)
unfolding file_at
file_at-delete base files history request content is_delete h p =
    let e = h p in ground (arith, text_eq_refl http_delete, delete_is_no_put)

file_at-get :
    (base files : Files) (history : History) (request : HttpRequest) (content : Text)
    → request.method ≡ http_get
    → HasFiles base files history
    → HasFiles base files (sent request content ∷ history)
unfolding file_at
file_at-get base files history request content is_get h p =
    let e = h p in ground (arith, get_is_no_put, get_is_no_delete)

module _ {Jar : Type 0} (net : Net) (store : CookieStore Jar) (parse_xml : Text → Option Node) where
  verdict_by_status :
      (method uri content : Text) (response : HttpResponse) (outcomes : List ℕ)
      → (verdict parse_xml (answered method uri content response) (accepts outcomes)).success
        ≡ any_accepted response.status outcomes
  unfolding verdict check_accepted_outcomes
  verdict_by_status method uri content response outcomes = ground arith

  -- Neither a server error nor a demand for credentials
  abbrev IsPlain : HttpResponse → Type 0
  IsPlain response =
      (leb http_internal_server_error response.status ≡ false)
      × ((response.status == http_unauthorized) ≡ false)

  upload_prompt :
      (resource : FileResource) (content : Text) (c : RwsClient Jar) (response : HttpResponse)
      → net.respond c.poco.history
          (new_request net store http_put (file_path resource) content c.poco.cookies)
          content
        ≡ done response
      → HasCookies net response
      → IsPlain response
      → upload_file net store parse_xml resource content c ≡ (
        done (any_accepted response.status (http_ok ∷ http_created ∷ [])),
        after_exchange net store parse_xml http_put (file_path resource) content response c,
      )
  unfolding upload_file Commands.upload_file put evaluate
  upload_prompt resource content c response answer readable plain =
      rw
        (
          make_http_request_prompt net store http_put (file_path resource) content c.poco response
              answer readable plain.0 plain.1,
          verdict_by_status http_put (file_path resource) content response
              (http_ok ∷ http_created ∷ []),
        )
        refl

  delete_prompt :
      (resource : FileResource) (c : RwsClient Jar) (response : HttpResponse)
      → net.respond c.poco.history
          (new_request net store http_delete (file_path resource) [] c.poco.cookies)
          []
        ≡ done response
      → HasCookies net response
      → IsPlain response
      → delete_file net store parse_xml resource c ≡ (
        done (any_accepted response.status (http_ok ∷ http_no_content ∷ [])),
        after_exchange net store parse_xml http_delete (file_path resource) [] response c,
      )
  unfolding delete_file Commands.delete_file delete evaluate
  delete_prompt resource c response answer readable plain =
      rw
        (
          make_http_request_prompt net store http_delete (file_path resource) [] c.poco response
              answer readable plain.0 plain.1,
          verdict_by_status http_delete (file_path resource) [] response
              (http_ok ∷ http_no_content ∷ []),
        )
        refl

  fetch_prompt :
      (resource : FileResource) (into : Text) (c : RwsClient Jar) (response : HttpResponse)
      → net.respond c.poco.history
          (new_request net store http_get (file_path resource) [] c.poco.cookies)
          []
        ≡ done response
      → HasCookies net response
      → IsPlain response
      → get_file net store parse_xml resource (some into) c ≡ (
        done (
          any_accepted response.status (http_ok ∷ []),
          some (if any_accepted response.status (http_ok ∷ []) then response.content else into),
        ),
        after_exchange net store parse_xml http_get (file_path resource) [] response c,
      )
  unfolding get_file Requests.get_file get evaluate
  fetch_prompt resource into c response answer readable plain =
      rw
        (
          make_http_request_prompt net store http_get (file_path resource) [] c.poco response answer
              readable plain.0 plain.1,
          verdict_by_status http_get (file_path resource) [] response (http_ok ∷ []),
        )
        refl

  deleted_status :
      (response : HttpResponse) (o : Option Text)
      → TellsDeleted o response
      → IsPlain response
        × (removed (any_accepted response.status (http_ok ∷ http_no_content ∷ [])) ≡ remove_reply o)
  unfolding any_accepted
  deleted_status response none status = (ground arith, ground arith)
  deleted_status response (some content) status = (ground arith, ground arith)

  fetched_status :
      (response : HttpResponse) (into : Text) (o : Option Text)
      → TellsFile o response
      → IsPlain response
        × (fetched (any_accepted response.status (http_ok ∷ [])) (
              some (if any_accepted response.status (http_ok ∷ []) then response.content else into))
            ≡ fetch_reply o into)
  unfolding any_accepted
  fetched_status response into none status = (ground arith, ground arith)
  fetched_status response into (some content) status = (ground arith, ground arith)

  module _ (base : Files) (controller : KeepsFiles net base) where
    -- A call has this reply, and the controller has the files of the store after it.
    abbrev pub FilesRefine : {A : Type 0} → Outcome A × RwsClient Jar → A → Files → Type 0
    FilesRefine ran reply files =
        (c : RwsClient Jar) × (ran ≡ (done reply, c)) × HasFiles base files c.poco.history

    upload-FilesRefine :
        (resource : FileResource) (content : Text) (files : Files) (c : RwsClient Jar)
        → HasFiles base files c.poco.history
        → FilesRefine
            (perform_file net store parse_xml (upload resource content) c)
            (uploaded true)
            (set_file (file_path resource) (some content) files)
    unfolding perform_file new_request any_accepted
    upload-FilesRefine resource content files c h =
        let request : HttpRequest =
          new_request net store http_put (file_path resource) content c.poco.cookies in
        let (response, answer, status) =
          controller.takes_file c.poco.history request content resource refl refl in
        let taken : any_accepted response.status (http_ok ∷ http_created ∷ []) ≡ true =
          ground arith in
        (
          after_exchange net store parse_xml http_put (file_path resource) content response c,
          rw
              (
                upload_prompt resource content c response answer
                    (controller.cookies_readable _ _ _ _ answer) (ground arith),
                taken,
              )
              refl,
          file_at-put base files c.poco.history request content refl h,
        )

    remove-FilesRefine :
        (resource : FileResource) (files : Files) (c : RwsClient Jar) (o : Option Text)
        → files (file_path resource) ≡ o
        → HasFiles base files c.poco.history
        → FilesRefine
            (perform_file net store parse_xml (remove resource) c)
            (remove_reply o)
            (set_file (file_path resource) none files)
    unfolding perform_file new_request any_accepted
    remove-FilesRefine resource files c o there h =
        let request : HttpRequest =
          new_request net store http_delete (file_path resource) [] c.poco.cookies in
        let (response, answer, told) =
          controller.deletes_file c.poco.history request resource refl refl in
        let status : TellsDeleted o response =
          subst (λ x. TellsDeleted x response) (h (file_path resource) ∙ there) told in
        let (plain, replied) = deleted_status response o status in
        let after : RwsClient Jar =
          after_exchange net store parse_xml http_delete (file_path resource) [] response c in
        (
          after,
          rw
              (delete_prompt resource c response answer (controller.cookies_readable _ _ _ _ answer)
                plain)
              (ap (λ r. (done r, after)) replied),
          file_at-delete base files c.poco.history request [] refl h,
        )

    fetch-FilesRefine :
        (resource : FileResource) (into : Text) (files : Files) (c : RwsClient Jar)
        (o : Option Text)
        → files (file_path resource) ≡ o
        → HasFiles base files c.poco.history
        → FilesRefine
            (perform_file net store parse_xml (fetch resource into) c)
            (fetch_reply o into)
            files
    unfolding perform_file new_request any_accepted
    fetch-FilesRefine resource into files c o there h =
        let request : HttpRequest =
          new_request net store http_get (file_path resource) [] c.poco.cookies in
        let (response, answer, told) =
          controller.tells_file c.poco.history request resource refl refl in
        let status : TellsFile o response =
          subst (λ x. TellsFile x response) (h (file_path resource) ∙ there) told in
        let (plain, replied) = fetched_status response into o status in
        let after : RwsClient Jar =
          after_exchange net store parse_xml http_get (file_path resource) [] response c in
        (
          after,
          rw
              (fetch_prompt resource into c response answer
                (controller.cookies_readable _ _ _ _ answer) plain)
              (ap (λ r. (done r, after)) replied),
          file_at-get base files c.poco.history request [] refl h,
        )

    file_call-FilesRefine :
        (call : FileCall) (files : Files) (c : RwsClient Jar)
        → HasFiles base files c.poco.history
        → FilesRefine
            (perform_file net store parse_xml call c)
            (file_reply call files)
            (files_after call files)
    unfolding file_reply files_after
    file_call-FilesRefine (upload resource content) files c h =
        upload-FilesRefine resource content files c h
    file_call-FilesRefine (fetch resource into) files c h =
        fetch-FilesRefine resource into files c (files (file_path resource)) refl h
    file_call-FilesRefine (remove resource) files c h =
        remove-FilesRefine resource files c (files (file_path resource)) refl h

    -- With a controller whose file service takes uploads with the status 200 or 201, tells a file or
    -- 404, and deletes a file with 200 or 204 or answers 404, with no malformed cookies, any sequence of
    -- uploadFile, getFile
    -- and deleteFile by RWSInterface replies as a store of files by path does, and leaves the
    -- controller with the files of that store: a file that is there is read whole, a read of none
    -- fails and leaves the text, and a deletion of none fails.
    pub perform_files-FilesRefine :
        (calls : List FileCall) (files : Files) (c : RwsClient Jar)
        → HasFiles base files c.poco.history
        → FilesRefine
            (perform_files net store parse_xml calls c)
            (file_replies calls files)
            (all_files_after calls files)
    unfolding perform_files file_replies all_files_after
    perform_files-FilesRefine [] files c h = (c, refl, h)
    perform_files-FilesRefine (call ∷ calls) files c h =
        let (c1, ran, h1) = file_call-FilesRefine call files c h in
        let (c2, ran_on, h2) = perform_files-FilesRefine calls (files_after call files) c1 h1 in
        (c2, rw (ran, ran_on) refl, h2)
