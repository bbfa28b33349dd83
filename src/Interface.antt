-- ===== src/Interface.antt =====
-- include/abb_librws/rws_interface.h and src/rws_interface.cpp: what RWSInterface makes of the results of the
-- RWSClient that it holds.
pub mod Reports
pub mod Mechanical
pub mod Calls
pub mod Configuration
pub mod Symbols
pub mod Files
pub mod Creation
use abb_librws.Base.{
  ℕ, Bool, true, false, Text, codes, text_eq, List, [], if◌then◌else◌, Option, none, some,
}
use mathlib.Core.List.{map}
use abb_librws.Xml.{Node, XmlAttribute, find_nodes, find_text_content}
use abb_librws.Rapid.Atoms.{Floats}
use abb_librws.Rapid.Symbols.{Symbol}
pub use abb_librws.TriBools.{TriBool, unknown_value, true_value, false_value}
unfoldable pub use abb_librws.TriBools.{tri_of, is_true}
use abb_librws.Poco.Work.{Net, CookieStore}
use abb_librws.Client.Types.{RwsResult, R, ◌>>=◌, pure, RapidResource}
use abb_librws.Client.Constants.{
  class_attribute, class_value, class_lvalue, class_opmode, class_ctrlstate, class_ctrlexecstate,
}
use abb_librws.Client.Requests
use abb_librws.Client.Commands
use abb_librws.Client.Subscription

-- compareSingleContent
unfoldable pub compare_single_content : RwsResult → XmlAttribute → Text → TriBool
compare_single_content rws_result attribute compare_string =
    if rws_result.success
    then tri_of (text_eq (find_text_content rws_result.document attribute) compare_string)
    else unknown_value

-- RAPIDModuleInfo
pub record RapidModuleInfo : Type 0 where
  pub name : Text
  pub type : Text

-- `rws_client_.…(…).success`
abbrev pub succeeded : {Jar : Type 0} → R Jar RwsResult → R Jar Bool
succeeded m = m >>= λ rws_result. pure rws_result.success

-- A result that is a success and has a document
abbrev pub has_document : RwsResult → Bool
has_document rws_result = elim rws_result.document [
  | none ↦ false
  | some document ↦ rws_result.success
]

module _ {Jar : Type 0} (net : Net) (store : CookieStore Jar) (parse_xml : Text → Option Node) where
  -- isAutoMode
  unfoldable pub is_auto_mode : R Jar TriBool
  is_auto_mode = do
    rws_result ← Requests.get_panel_operation_mode net store parse_xml
    pure (compare_single_content rws_result class_opmode (codes "AUTO"))

  -- isMotorsOn
  unfoldable pub is_motors_on : R Jar TriBool
  is_motors_on = do
    rws_result ← Requests.get_panel_controller_state net store parse_xml
    pure (compare_single_content rws_result class_ctrlstate (codes "motoron"))

  -- isRAPIDRunning
  unfoldable pub is_rapid_running : R Jar TriBool
  is_rapid_running = do
    rws_result ← Requests.get_rapid_execution net store parse_xml
    pure (compare_single_content rws_result class_ctrlexecstate (codes "running"))

  -- getIOSignal
  unfoldable pub get_io_signal : Text → R Jar Text
  get_io_signal iosignal = do
    rws_result ← Requests.get_io_signal net store parse_xml iosignal
    pure (if rws_result.success then find_text_content rws_result.document class_lvalue else [])

  -- setIOSignal
  unfoldable pub set_io_signal : Text → Text → R Jar Bool
  set_io_signal iosignal value =
      succeeded (Commands.set_io_signal net store parse_xml iosignal value)

  -- getRAPIDModulesInfo
  unfoldable pub get_rapid_modules_info : Text → R Jar (List RapidModuleInfo)
  get_rapid_modules_info task = do
    rws_result ← Requests.get_rapid_modules_info net store parse_xml task
    pure (
        map
          (λ node. record {
            name = find_text_content (some node) (class_attribute (codes "name"));
            type = find_text_content (some node) (class_attribute (codes "type"));
          })
          (find_nodes rws_result.document (class_attribute (codes "rap-module-info-li"))))

  -- getRAPIDSymbolData, as a text
  unfoldable pub get_rapid_symbol_text : RapidResource → R Jar Text
  get_rapid_symbol_text resource = do
    rws_result ← Requests.get_rapid_symbol_resource net store parse_xml resource
    pure (find_text_content rws_result.document class_value)

  -- getRAPIDSymbolData, into an object: whether it is a success, and the object after it
  unfoldable pub read_rapid_symbol_data :
      {Num Dnum : Type 0}
      → Floats Num Dnum
      → RapidResource
      → Option (Symbol Num Dnum)
      → R Jar (Bool × Option (Symbol Num Dnum))
  read_rapid_symbol_data fl resource p_data = do
    answer ← Requests.get_rapid_symbol_data net store parse_xml fl resource p_data
    pure (answer.0.success, answer.1)

  -- setRAPIDSymbolData
  unfoldable pub write_rapid_symbol_data :
      {Num Dnum : Type 0} → Floats Num Dnum → RapidResource → Symbol Num Dnum → R Jar Bool
  write_rapid_symbol_data fl resource symbol =
      succeeded (Commands.set_rapid_symbol_data net store parse_xml fl resource symbol)

  -- waitForSubscriptionEvent, with fuel for the frames
  unfoldable pub wait_for_event : ℕ → R Jar (Option Bool)
  wait_for_event fuel = do
    waited ← Subscription.wait_for_subscription_event net store parse_xml fuel
    pure (elim waited [ none ↦ none | some rws_result ↦ some (has_document rws_result) ])
