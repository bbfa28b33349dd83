-- ===== src/Client/Actions/Limits.antt =====
-- How many requests a method of the client sends.
use abb_librws.Base.{
  ℕ, ◌+◌, ◌≤◌, arith, Bool, true, false, Text, if◌then◌else◌, [], List, Option, none, some, ltb,
}
use abb_librws.Xml.{Node}
use abb_librws.Poco.Types.{PocoResult, Outcome, done, raised}
use abb_librws.Poco.Work.{Net, CookieStore}
use abb_librws.Poco.Work.Rules.{sent_count}
use abb_librws.Rapid.Atoms.{Floats, Parsed, returned, threw}
use abb_librws.Rapid.Symbols.{Symbol}
use abb_librws.Poco.Http.{get, post, put, delete, http_get, http_post, http_put, http_delete}
use abb_librws.Poco.Http.Limits.{make_http_request_bounded}
use abb_librws.Client.Types.{
  RwsResult, RapidResource, FileResource, throw, EvaluationConditions, RwsClient, R, and_run, pure,
  ◌>>=◌, on_poco,
}
use abb_librws.Client.Evaluation.{evaluate}
use abb_librws.Client.Requests.{get_document, parse_into, read_value}
use abb_librws.Client.Commands.{post_and_accept}
use abb_librws.Client.Requests
use abb_librws.Client.Commands
use abb_librws.Client.Paths.{file_path}

-- A method that sends at most so many requests, whether it returns or throws.
pub record Asks {Jar A : Type 0} (n : ℕ) (m : R Jar A) : Type 0 where
  pub at : (c : RwsClient Jar) → sent_count (m c).1.poco.history ≤ n + sent_count c.poco.history

module _ {Jar A B : Type 0} where
  Asks-and_run :
      {b : ℕ} (p : Outcome A × RwsClient Jar) (f : A → R Jar B)
      → ((x : A) → Asks b (f x))
      → sent_count (and_run p f).1.poco.history ≤ b + sent_count p.1.poco.history
  Asks-and_run (done x, c) f h = (h x).at c
  Asks-and_run (raised e, c) f h = omega arith

  pub Asks-bind :
      {a b : ℕ} (m : R Jar A) (f : A → R Jar B)
      → Asks a m
      → ((x : A) → Asks b (f x))
      → Asks (a + b) (m >>= f)
  Asks-bind m f g h = record { at = λ c. omega (arith, g.at c, Asks-and_run (m c) f h) }

module _ {Jar A : Type 0} where
  pub Asks-pure : (a : A) (n : ℕ) → Asks {Jar = Jar} n (pure a)
  Asks-pure a n = record { at = λ c. omega arith }

  pub Asks-if :
      {n : ℕ} (b : Bool) (m k : R Jar A) → Asks n m → Asks n k → Asks n (if b then m else k)
  Asks-if true m k g h = g
  Asks-if false m k g h = h

module _ {Jar : Type 0} (net : Net) (store : CookieStore Jar) (parse_xml : Text → Option Node) where
  pub Asks-evaluate :
      (r : PocoResult) (conditions : EvaluationConditions)
      → Asks {Jar = Jar} 0 (evaluate parse_xml r conditions)
  unfolding evaluate
  Asks-evaluate r conditions = record { at = λ c. omega arith }

  pub Asks-get_document : (uri : Text) → Asks 3 (get_document net store parse_xml uri)
  unfolding get_document get
  Asks-get_document uri =
      Asks-bind (on_poco (get net store uri)) _
        (record { at = λ c. make_http_request_bounded net store http_get uri [] c.poco })
        (λ r. Asks-evaluate r _)

  pub Asks-post : (uri content : Text) → Asks 3 (on_poco (post net store uri content))
  unfolding post
  Asks-post uri content = record {
    at = λ c. make_http_request_bounded net store http_post uri content c.poco;
  }

  pub Asks-post_and_accept :
      (uri content : Text) (outcomes : List ℕ)
      → Asks 3 (post_and_accept net store parse_xml uri content outcomes)
  unfolding post_and_accept
  Asks-post_and_accept uri content outcomes =
      Asks-bind (on_poco (post net store uri content)) _ (Asks-post uri content)
        (λ r. Asks-evaluate r _)

  Asks-put : (uri content : Text) → Asks 3 (on_poco (put net store uri content))
  unfolding put
  Asks-put uri content = record {
    at = λ c. make_http_request_bounded net store http_put uri content c.poco;
  }

  pub Asks-delete : (uri : Text) → Asks 3 (on_poco (delete net store uri))
  unfolding delete
  Asks-delete uri = record {
    at = λ c. make_http_request_bounded net store http_delete uri [] c.poco;
  }

  pub Asks-upload_file :
      (resource : FileResource) (file_content : Text)
      → Asks 3 (Commands.upload_file net store parse_xml resource file_content)
  unfolding Commands.upload_file
  Asks-upload_file resource file_content =
      Asks-bind _ _ (Asks-put _ file_content) (λ r. Asks-evaluate r _)

  pub Asks-delete_file :
      (resource : FileResource) → Asks 3 (Commands.delete_file net store parse_xml resource)
  unfolding Commands.delete_file
  Asks-delete_file resource = Asks-bind _ _ (Asks-delete _) (λ r. Asks-evaluate r _)

  pub Asks-set_speed_ratio :
      (ratio : ℕ) → Asks 3 (Commands.set_speed_ratio net store parse_xml ratio)
  unfolding Commands.set_speed_ratio
  Asks-set_speed_ratio ratio =
      Asks-if (ltb 100 ratio) (throw Commands.ratio_out_of_range) _
        (record { at = λ c. omega arith }) (Asks-post_and_accept _ _ _)

  pub Asks-get_file :
      (resource : FileResource) (p_file_content : Option Text)
      → Asks 3 (Requests.get_file net store parse_xml resource p_file_content)
  unfolding Requests.get_file get
  Asks-get_file resource none = Asks-pure _ 3
  Asks-get_file resource (some file_content) =
      Asks-bind (on_poco (get net store (file_path resource))) _
        (record { at = λ c. make_http_request_bounded net store http_get _ [] c.poco })
        (λ r. Asks-bind {b = 0} _ _ (Asks-evaluate r _) (λ result. Asks-pure _ 0))

  module _ {Num Dnum : Type 0} (fl : Floats Num Dnum) where
    Asks-parse_into :
        (result : RwsResult) (p : Parsed (Symbol Num Dnum))
        → Asks {Jar = Jar} 0 (parse_into result p)
    Asks-parse_into result (returned s) = record { at = λ c. omega arith }
    Asks-parse_into result (threw s) = record { at = λ c. omega arith }

    Asks-read_value :
        (symbol : Symbol Num Dnum) (result : RwsResult)
        → Asks {Jar = Jar} 0 (read_value fl symbol result)
    unfolding read_value
    Asks-read_value symbol result =
        Asks-if _ _ _ (Asks-if _ _ _ (Asks-pure _ 0) (Asks-parse_into result _)) (Asks-pure _ 0)

    pub Asks-get_rapid_symbol_data :
        (resource : RapidResource) (p_data : Option (Symbol Num Dnum))
        → Asks 6 (Requests.get_rapid_symbol_data net store parse_xml fl resource p_data)
    unfolding Requests.get_rapid_symbol_data Requests.get_rapid_symbol_properties
        Requests.get_rapid_symbol_resource
    Asks-get_rapid_symbol_data resource none = Asks-pure _ 6
    Asks-get_rapid_symbol_data resource (some symbol) =
        Asks-bind {a = 3} {b = 3} _ _ (Asks-get_document _) λ t.
          Asks-if _ _ _
            (Asks-bind {a = 3} {b = 0} _ _ (Asks-get_document _) (Asks-read_value symbol))
            (Asks-pure _ 3)
