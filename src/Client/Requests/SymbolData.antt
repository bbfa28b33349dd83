-- ===== src/Client/Requests/SymbolData.antt =====
-- What getRAPIDSymbolData leaves in the object.
use abb_librws.Base.{
  ◌<◌, Text, Bool, true, false, is_empty, [], if◌then◌else◌, Option, some, ◌≡◌, ◌≢◌, refl, ap,
  arith, text_eq, ◌&&◌,
}
use abb_librws.Xml.{Node, find_text_content}
use abb_librws.Rapid.Atoms.{Floats, Parsed, returned, threw}
use abb_librws.Rapid.Symbols.{Symbol, get_type, parse, construct}
use abb_librws.Rapid.Delimited.{uint_range}
use abb_librws.Rapid.Symbols.Texts.{IsClean, depth}
use abb_librws.Rapid.Symbols.RoundTrip.{SameShape, IsExact, parse-construct}
use abb_librws.Poco.Types.{Outcome, done}
use abb_librws.Poco.Work.{Net, CookieStore}
use abb_librws.Client.Types.{RwsResult, no_success, RwsClient, RapidResource, R, pure, ◌>>=◌}
use abb_librws.Client.Actions.{and_run_returns}
use abb_librws.Client.Constants.{class_value, class_dattyp}
use abb_librws.Client.Requests.{
  parse_into, value_was_empty, read_value, get_rapid_symbol_data, get_rapid_symbol_properties,
  get_rapid_symbol_resource,
}

module _ {Num Dnum : Type 0} (fl : Floats Num Dnum) (symbol : Symbol Num Dnum) where
  -- A success has parsed the value of the document, which is not empty; otherwise the object is as before.
  abbrev pub IsRead : RwsResult → Symbol Num Dnum → Type 0
  IsRead r after =
      (r.success ≡ true
        → (find_text_content r.document class_value ≢ [])
          × (parse fl symbol (find_text_content r.document class_value) ≡ returned after))
      × (r.success ≡ false → after ≡ symbol)

  parse_into-IsRead :
      {Jar : Type 0} (result : RwsResult) (p : Parsed (Symbol Num Dnum)) (c d : RwsClient Jar)
      (r : RwsResult) (after : Symbol Num Dnum)
      → result.success ≡ true
      → find_text_content result.document class_value ≢ []
      → parse fl symbol (find_text_content result.document class_value) ≡ p
      → parse_into result p c ≡ (done (r, some after), d)
      → IsRead r after
  parse_into-IsRead result (returned s) c d r after good full e q = ground arith
  parse_into-IsRead {Jar} result (threw s) c d r after good full e q =
      cc (ap (λ (p : Outcome (RwsResult × Option (Symbol Num Dnum)) × RwsClient Jar). p.0) q)

  kept :
      {Jar : Type 0} (result : RwsResult) (c d : RwsClient Jar) (r : RwsResult)
      (after : Symbol Num Dnum)
      → result.success ≡ false
      → pure {Jar = Jar} {A = RwsResult × Option (Symbol Num Dnum)} (result, some symbol) c
        ≡ (done (r, some after), d)
      → IsRead r after
  kept result c d r after bad q = ground arith

  by_cases :
      {Jar : Type 0} (success empty : Bool) (result : RwsResult) (c d : RwsClient Jar)
      (r : RwsResult) (after : Symbol Num Dnum)
      → let value = find_text_content result.document class_value in
        result.success ≡ success
        → is_empty value ≡ empty
        → (if success
              then (if empty
                  then pure {Jar = Jar} {A = RwsResult × Option (Symbol Num Dnum)} (
                    record result { success = false; error_message = value_was_empty },
                    some symbol,
                  )
                  else parse_into result (parse fl symbol value))
              else pure (result, some symbol))
            c
          ≡ (done (r, some after), d)
        → IsRead r after
  by_cases false empty result c d r after s e q = kept result c d r after s q
  by_cases true true result c d r after s e q =
      kept (record result { success = false; error_message = value_was_empty }) c d r after refl q
  by_cases true false result c d r after s e q =
      parse_into-IsRead result (parse fl symbol (find_text_content result.document class_value)) c d
        r after s (λ nothing. let empty_then = ap is_empty nothing in cc) refl q

  read_value-IsRead :
      {Jar : Type 0} (result : RwsResult) (c d : RwsClient Jar) (r : RwsResult)
      (after : Symbol Num Dnum)
      → read_value fl symbol result c ≡ (done (r, some after), d)
      → IsRead r after
  unfolding read_value
  read_value-IsRead result c d r after q =
      by_cases result.success (is_empty (find_text_content result.document class_value)) result c d
        r after refl refl q

  unread-IsRead :
      {Jar : Type 0} (asked : Bool) (m : R Jar RwsResult) (c d : RwsClient Jar) (r : RwsResult)
      (after : Symbol Num Dnum)
      → (if asked then m >>= read_value fl symbol else pure (no_success, some symbol)) c
        ≡ (done (r, some after), d)
      → IsRead r after
  unread-IsRead false m c d r after q = kept no_success c d r after refl q
  unread-IsRead true m c d r after q =
      let (result, c1, e, rest) =
        and_run_returns (m c) (read_value fl symbol) (r, some after) d q in
      read_value-IsRead result c1 d r after rest

  -- getRAPIDSymbolData that returns has parsed the value of its document, which is not empty, if it is a
  -- success, and has left the object as it was if it is none.
  pub get_rapid_symbol_data-IsRead :
      {Jar : Type 0} (net : Net) (store : CookieStore Jar) (parse_xml : Text → Option Node)
      (resource : RapidResource) (c d : RwsClient Jar) (r : RwsResult) (after : Symbol Num Dnum)
      → get_rapid_symbol_data net store parse_xml fl resource (some symbol) c
        ≡ (done (r, some after), d)
      → IsRead r after
  unfolding get_rapid_symbol_data
  get_rapid_symbol_data-IsRead net store parse_xml resource c d r after q =
      let properties : R _ RwsResult = get_rapid_symbol_properties net store parse_xml resource in
      let value : R _ RwsResult = get_rapid_symbol_resource net store parse_xml resource in
      let next : RwsResult → R _ (RwsResult × Option (Symbol Num Dnum)) = λ t.
        if t.success && text_eq (get_type symbol) (find_text_content t.document class_dattyp)
        then value >>= read_value fl symbol
        else pure (no_success, some symbol) in
      let (t, c1, e, rest) = and_run_returns (properties c) next (r, some after) d q in
      unread-IsRead
        (t.success && text_eq (get_type symbol) (find_text_content t.document class_dattyp)) value
        c1 d r after rest

  -- getRAPIDSymbolData that is a success leaves a copy of the value whose text the controller sent, if that
  -- value has the object's shape, its atomic texts are words that read back exactly, and it is nested less
  -- than 2^32 deep.
  pub get_rapid_symbol_data_copies :
      {Jar : Type 0} (net : Net) (store : CookieStore Jar) (parse_xml : Text → Option Node)
      (resource : RapidResource) (c d : RwsClient Jar) (r : RwsResult) (after v : Symbol Num Dnum)
      → get_rapid_symbol_data net store parse_xml fl resource (some symbol) c
        ≡ (done (r, some after), d)
      → r.success ≡ true
      → find_text_content r.document class_value ≡ construct fl v
      → SameShape symbol v
      → IsClean fl v
      → IsExact fl v
      → depth v < uint_range
      → after ≡ v
  get_rapid_symbol_data_copies net store parse_xml resource c d r after v q good sent shape clean
        exact deep =
      let parsed =
        ((get_rapid_symbol_data-IsRead net store parse_xml resource c d r after q).0 good).1 in
      let copied = parse-construct fl symbol v shape clean exact deep in cc
