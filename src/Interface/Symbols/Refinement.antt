-- ===== src/Interface/Symbols/Refinement.antt =====
-- What the calls of RWSInterface reply is what the store of values replies.
use abb_librws.Base.{
  ◌≡◌, ◌≢◌, refl, sym, ap, ◌∙◌, inl, inr, true, false, Bool-cases, Text, codes, text_eq,
  text_eq_refl, text_eq_sound, text_eq_iff, bool_eq, subst, List, [], ◌∷◌, ◌++◌, Option,
  if◌then◌else◌, All,
}
use mathlib.Core.List.{append_cancel_right}
use abb_librws.Xml.{Node}
use abb_librws.Rapid.Atoms.{Floats, construct_bool, construct_string}
use abb_librws.Rapid.Symbols.{Symbol, bool, num, dnum, string, struct, construct, get_type}
use abb_librws.Rapid.Symbols.Texts.{IsClean}
use abb_librws.Rapid.Symbols.RoundTrip.{SameShape, parse-construct}
use abb_librws.Rapid.Symbols.Shapes.{SameShape-euclidean, get_type-SameShape}
use abb_librws.Poco.Types.{HttpRequest, Outcome, done}
use abb_librws.Poco.Work.{History, sent, Net, CookieStore}
use abb_librws.Poco.Http.{http_get, http_post, new_request}
use abb_librws.Client.Types.{RwsClient, RapidResource}
use abb_librws.Client.Constants.{action_set}
use abb_librws.Client.Paths.{rapid_data_path, rapid_properties_path}
use abb_librws.Client.Actions.Prompt.{
  is_empty-ne, after_exchange, get_document_prompt, post_and_accept_prompt,
}
use abb_librws.Client.Commands
use abb_librws.Client.Requests
use abb_librws.Interface.{read_rapid_symbol_data, write_rapid_symbol_data}
use abb_librws.Interface.Symbols.{set_path, sent_value, value_at, KeepsSymbols}
use abb_librws.Interface.Symbols.Store.{
  SymbolCall, write, read, written, Values, put_value, values_after, reply_of, store_replies,
  store_after, IsReadable, Fits, perform, perform_all,
}

set_path_inj : (p q : Text) → set_path p ≡ set_path q → p ≡ q
set_path_inj p q e = append_cancel_right p q (codes "?") (append_cancel_right _ _ action_set e)

text_eq-set_path : (p q : Text) → text_eq (set_path p) (set_path q) ≡ text_eq p q
text_eq-set_path p q =
    bool_eq _ _
      (λ e. (text_eq_iff p q).1 (set_path_inj p q (text_eq_sound (set_path p) (set_path q) e)))
      (λ e. (text_eq_iff (set_path p) (set_path q)).1 (ap set_path (text_eq_sound p q e)))

-- A value that was sent is at its path, and the others are as before.
value_at-set :
    (base : Text → Text) (path p content : Text) (history : History) (request : HttpRequest)
    → request.method ≡ http_post
    → request.uri ≡ set_path path
    → value_at base p (sent request content ∷ history)
      ≡ (if text_eq path p then sent_value content else value_at base p history)
unfolding value_at
value_at-set base path p content history request posted to_path =
    rw (posted, to_path, text_eq_refl http_post, text_eq-set_path path p) refl

value_at-get :
    (base : Text → Text) (p content : Text) (history : History) (request : HttpRequest)
    → request.method ≡ http_get
    → value_at base p (sent request content ∷ history) ≡ value_at base p history
unfolding value_at text_eq
value_at-get base p content history request got = rw got refl

module _ {Num Dnum : Type 0} (fl : Floats Num Dnum) where
  construct-ne : (s : Symbol Num Dnum) → IsClean fl s → construct fl s ≢ []
  unfolding construct construct_bool construct_string
  construct-ne (bool true) c = λ e. cc
  construct-ne (bool false) c = λ e. cc
  construct-ne (num x) c = c.0
  construct-ne (dnum x) c = c.0
  construct-ne (string s) c = λ e. cc
  construct-ne (struct n cs) c = λ e. cc

  -- The controller has the text of each value of the store, which has its declared shape and reads back.
  abbrev pub Holds : (Text → Text) → Values Num Dnum → Values Num Dnum → History → Type 0
  Holds base declared values history =
      (p : Text)
      → (value_at base p history ≡ construct fl (values p))
        × SameShape (declared p) (values p)
        × IsReadable fl (values p)

  Holds-put_value :
      (base : Text → Text) (declared values : Values Num Dnum) (history : History)
      (request : HttpRequest) (path : Text) (s : Symbol Num Dnum)
      → request.method ≡ http_post
      → request.uri ≡ set_path path
      → SameShape (declared path) s
      → IsReadable fl s
      → Holds base declared values history
      → Holds base declared
          (put_value path s values)
          (sent request (codes "value" ++ codes "=" ++ construct fl s) ∷ history)
  Holds-put_value base declared values history request path s posted to_path shape good h p =
      let after =
        value_at-set base path p (codes "value" ++ codes "=" ++ construct fl s) history request
          posted to_path in
      elim (Bool-cases (text_eq path p)) [
        | inl same ↦
            let shape_there =
              subst (λ q. SameShape (declared q) s) (text_eq_sound path p same) shape in
            rw (after, same) (refl, shape_there, good)
        | inr other ↦ rw (after, other) (h p)
      ]

  Holds-get :
      (base : Text → Text) (declared values : Values Num Dnum) (history : History)
      (request : HttpRequest) (content : Text)
      → request.method ≡ http_get
      → Holds base declared values history
      → Holds base declared values (sent request content ∷ history)
  Holds-get base declared values history request content got h p =
      rw (value_at-get base p content history request got) (h p)

  module _ {Jar : Type 0} (net : Net) (store : CookieStore Jar) (parse_xml : Text → Option Node)
      (base : Text → Text) (declared : Values Num Dnum)
      (controller : KeepsSymbols net parse_xml base (λ p. get_type (declared p))) where
    -- A call has this reply, and the controller holds the store after it.
    abbrev pub Refines : {A : Type 0} → Outcome A × RwsClient Jar → A → Values Num Dnum → Type 0
    Refines ran reply values =
        (c : RwsClient Jar) × (ran ≡ (done reply, c)) × Holds base declared values c.poco.history

    write-Refines :
        (resource : RapidResource) (s : Symbol Num Dnum) (values : Values Num Dnum)
        (c : RwsClient Jar)
        → SameShape (declared (rapid_data_path resource)) s
        → IsReadable fl s
        → Holds base declared values c.poco.history
        → Refines
            (perform fl net store parse_xml (write resource s) c)
            (written true)
            (put_value (rapid_data_path resource) s values)
    unfolding perform write_rapid_symbol_data Commands.set_rapid_symbol_data
        Commands.set_rapid_symbol_text new_request
    write-Refines resource s values c shape good h =
        let path : Text = rapid_data_path resource in
        let content : Text = codes "value" ++ codes "=" ++ construct fl s in
        let request : HttpRequest =
          new_request net store http_post (set_path path) content c.poco.cookies in
        let (response, answer, status) =
          controller.takes_value c.poco.history request content resource refl refl in
        (
          after_exchange net store parse_xml http_post (set_path path) content response c,
          rw
              (post_and_accept_prompt net store parse_xml (set_path path) content c response answer
                (controller.cookies_readable _ _ _ _ answer) status)
              refl,
          Holds-put_value base declared values c.poco.history request path s refl refl shape good h,
        )

    read-Refines :
        (resource : RapidResource) (into : Symbol Num Dnum) (values : Values Num Dnum)
        (c : RwsClient Jar)
        → Fits fl declared (read resource into)
        → Holds base declared values c.poco.history
        → Refines
            (perform fl net store parse_xml (read resource into) c)
            (reply_of (read resource into) values)
            values
    unfolding perform read_rapid_symbol_data Requests.get_rapid_symbol_data
        Requests.get_rapid_symbol_properties Requests.get_rapid_symbol_resource Requests.read_value
        new_request reply_of
    read-Refines resource into values c fits h =
        let path : Text = rapid_data_path resource in
        let type_path : Text = rapid_properties_path resource in
        let type_request : HttpRequest =
          new_request net store http_get type_path [] c.poco.cookies in
        let (told, type_document, type_answer, type_status, type_full, type_parsed, type_text) =
          controller.tells_type c.poco.history type_request resource refl refl in
        let asked =
          get_document_prompt net store parse_xml type_path c told type_document type_answer
            (controller.cookies_readable _ _ _ _ type_answer) type_status type_full type_parsed in
        let c1 : RwsClient Jar = after_exchange net store parse_xml http_get type_path [] told c in
        let h1 : Holds base declared values c1.poco.history =
          Holds-get base declared values c.poco.history type_request [] refl h in
        let request : HttpRequest = new_request net store http_get path [] c1.poco.cookies in
        let (response, document, answer, status, full, parsed, value_text) =
          controller.tells_value c1.poco.history request resource refl refl in
        let got =
          get_document_prompt net store parse_xml path c1 response document answer
            (controller.cookies_readable _ _ _ _ answer) status full parsed in
        let (there, shape, (clean, exact, deep)) = h1 path in
        let typed = get_type-SameShape (declared path) (values path) shape in
        elim (Bool-cases (text_eq (get_type into) (get_type (values path)))) [
          | inl same ↦
              let fitting = fits (text_eq_sound _ _ same ∙ sym typed) in
              let copied =
                parse-construct fl into (values path)
                  (SameShape-euclidean (declared path) into (values path) fitting shape) clean exact
                  deep in
              (
                after_exchange net store parse_xml http_get path [] response c1,
                rw
                    (
                      asked,
                      type_text,
                      typed,
                      same,
                      got,
                      value_text,
                      there,
                      is_empty-ne (construct fl (values path)) (construct-ne (values path) clean),
                      copied,
                    )
                    refl,
                Holds-get base declared values c1.poco.history request [] refl h1,
              )
          | inr other ↦ (c1, rw (asked, type_text, typed, other) refl, h1)
        ]

    call-Refines :
        (call : SymbolCall Num Dnum) (values : Values Num Dnum) (c : RwsClient Jar)
        → Fits fl declared call
        → Holds base declared values c.poco.history
        → Refines
            (perform fl net store parse_xml call c)
            (reply_of call values)
            (values_after call values)
    unfolding reply_of
    call-Refines (write resource s) values c fits h =
        write-Refines resource s values c fits.0 fits.1 h
    call-Refines (read resource into) values c fits h = read-Refines resource into values c fits h

    -- On a controller that takes the values sent to its symbols and tells their values and declared
    -- types, and sends no malformed cookies, any sequence of setRAPIDSymbolData and getRAPIDSymbolData by RWSInterface replies as a
    -- store of values by path does, and leaves the controller with the values of that store, if each
    -- value written has its symbol's declared shape, with atomic texts that are words that read back
    -- exactly, nested less than 2^32 deep, as the values there at the start have, and each object of
    -- the declared type's name has its shape. A read into an object of another type fails there and
    -- leaves the object.
    pub perform_all-Refines :
        (calls : List (SymbolCall Num Dnum)) (values : Values Num Dnum) (c : RwsClient Jar)
        → All (Fits fl declared) calls
        → Holds base declared values c.poco.history
        → Refines
            (perform_all fl net store parse_xml calls c)
            (store_replies calls values)
            (store_after calls values)
    unfolding perform_all store_replies store_after
    perform_all-Refines [] values c fits h = (c, refl, h)
    perform_all-Refines (call ∷ calls) values c fits h =
        let (c1, ran, h1) = call-Refines call values c fits.0 h in
        let (c2, ran_on, h2) = perform_all-Refines calls (values_after call values) c1 fits.1 h1 in
        (c2, rw (ran, ran_on) refl, h2)
