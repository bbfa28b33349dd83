-- ===== src/StateMachine/Services/Main/Sources.antt =====
-- Where the state that getCurrentState reports comes from.
use abb_librws.Base.{
  ◌≡◌, ◌≢◌, refl, sym, ap, ◌∙◌, Bool, true, false, Text, [], Option, some, none, if◌then◌else◌,
}
use abb_librws.Xml.{Node, find_text_content}
use abb_librws.Rapid.Atoms.{Floats}
use abb_librws.Rapid.Symbols.{Symbol, bool, num, dnum, string, struct, parse}
use abb_librws.Rapid.Numbers.{Conversions}
use abb_librws.Poco.Types.{done}
use abb_librws.Poco.Work.{Net, CookieStore}
use abb_librws.Client.Types.{RwsResult, RwsClient, RapidResource, pure}
use abb_librws.Client.Actions.{and_run_returns, pure_returns}
use abb_librws.Client.Constants.{class_value}
use abb_librws.Client.Requests.{get_rapid_symbol_data}
use abb_librws.Client.Requests.SymbolData.{get_rapid_symbol_data-IsRead}
use abb_librws.Interface.{read_rapid_symbol_data}
use abb_librws.StateMachine.Identifiers.{in_task, main_current_state}
use abb_librws.StateMachine.Codes.{States, state_unknown, state_of}
use abb_librws.StateMachine.Services.Egm.{number_in}
use abb_librws.StateMachine.Services.Main.{get_current_state}

module _ {Num Dnum : Type 0} (conversions : Conversions Num Dnum) where
  -- What getCurrentState makes of an answer
  abbrev state_in : Bool → Option (Symbol Num Dnum) → States
  state_in success object = elim (number_in object) [
    | none ↦ state_unknown
    | some x ↦ if success then state_of (conversions.to_int x) else state_unknown
  ]

  known_state :
      (success : Bool) (object : Option (Symbol Num Dnum))
      → state_in success object ≢ state_unknown
      → (x : Num) × (object ≡ some (num x))
        × (success ≡ true)
        × (state_in success object ≡ state_of (conversions.to_int x))
  known_state true (some (num x)) h = (x, refl, refl, refl)
  known_state false (some (num x)) h = absurd (h refl)
  known_state success none h = absurd (h refl)
  known_state success (some (bool b)) h = absurd (h refl)
  known_state success (some (dnum y)) h = absurd (h refl)
  known_state success (some (string t)) h = absurd (h refl)
  known_state success (some (struct n cs)) h = absurd (h refl)

module _ {Jar Num Dnum : Type 0} (fl : Floats Num Dnum) (conversions : Conversions Num Dnum)
    (net : Net) (store : CookieStore Jar) (parse_xml : Text → Option Node) where
  read_returns :
      (resource : RapidResource) (p_data o : Option (Symbol Num Dnum)) (b : Bool)
      (c d : RwsClient Jar)
      → read_rapid_symbol_data net store parse_xml fl resource p_data c ≡ (done (b, o), d)
      → (r : RwsResult) × (get_rapid_symbol_data net store parse_xml fl resource p_data c
          ≡ (done (r, o), d))
        × (r.success ≡ b)
  unfolding read_rapid_symbol_data
  read_returns resource p_data o b c d e =
      let request = get_rapid_symbol_data net store parse_xml fl resource p_data in
      let ((r, o1), c1, e1, rest) =
        and_run_returns (request c) (λ a. pure (a.0.success, a.1)) (b, o) d e in
      let (same, c1_d) = pure_returns (r.success, o1) (b, o) c1 d rest in
      let success_b : r.success ≡ b = ap (λ (p : Bool × Option (Symbol Num Dnum)). p.0) same in
      let o1_o : o1 ≡ o = ap (λ (p : Bool × Option (Symbol Num Dnum)). p.1) same in
      (r, cc, success_b)

  -- A state that is not unknown is the one of the number that was read from the document of the symbol, whose
  -- value was not empty.
  pub get_current_state_lem :
      (task : Text) (c d : RwsClient Jar) (s : States)
      → get_current_state fl conversions net store parse_xml task c ≡ (done s, d)
      → s ≢ state_unknown
      → (r : RwsResult) × (x : Num) × (get_rapid_symbol_data net store parse_xml fl
            (in_task task main_current_state)
            (some (num (conversions.of_nat 0)))
            c
          ≡ (done (r, some (num x)), d))
        × (r.success ≡ true)
        × (find_text_content r.document class_value ≢ [])
        × (fl.read_num (find_text_content r.document class_value) (conversions.of_nat 0) ≡ x)
        × (s ≡ state_of (conversions.to_int x))
  unfolding get_current_state parse
  get_current_state_lem task c d s e h =
      let resource = in_task task main_current_state in
      let zero_num : Symbol Num Dnum = num (conversions.of_nat 0) in
      let ((b, o), c1, e1, rest) =
        and_run_returns (read_rapid_symbol_data net store parse_xml fl resource (some zero_num) c)
          (λ a. pure (state_in conversions a.0 a.1)) s d e in
      let (s_so, c1_d) = pure_returns (state_in conversions b o) s c1 d rest in
      let (x, o_x, b_so, state_x) = known_state conversions b o (λ k. h (sym s_so ∙ k)) in
      let (r, got, success_b) = read_returns resource (some zero_num) o b c c1 e1 in
      let found : get_rapid_symbol_data net store parse_xml fl resource (some zero_num) c
          ≡ (done (r, some (num x)), d) =
        cc in
      let good : r.success ≡ true = cc in
      let (full, parsed) =
        (get_rapid_symbol_data-IsRead fl zero_num net store parse_xml resource c d r (num x)
            found).0
          good in
      (r, x, found, good, full, cc, cc)
