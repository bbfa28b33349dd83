-- ===== src/Interface/Calls.antt =====
-- The methods of src/rws_interface.cpp that ask one thing of the RWSClient and pass on whether it is a success, or
-- a number, and those that collect what several of them say.
pub mod Connected
use abb_librws.Base.{
  ℕ, Bool, true, false, Text, codes, List, ◌&&◌, if◌then◌else◌, Option, none, some,
}
use abb_librws.Xml.{Node, find_text_content}
use abb_librws.Rapid.Numbers.{Conversions}
use abb_librws.Poco.Work.{Net, CookieStore}
use abb_librws.Client.Types.{
  R, ◌>>=◌, pure, throw, RapidResource, FileResource, SubscriptionResource,
}
use abb_librws.Client.Constants.{class_attribute}
use abb_librws.Client.Requests
use abb_librws.Client.Commands
use abb_librws.Client.Subscription
use abb_librws.Client.LogTexts.{log_text, log_text_latest_event}
use abb_librws.Interface.{
  TriBool, unknown_value, is_auto_mode, is_motors_on, is_rapid_running, succeeded, has_document,
}
use abb_librws.TriBools.{tri_ne}
use abb_librws.Interface.Reports.{RapidTaskInfo, SystemInfo, get_rapid_tasks, get_system_info}

-- RuntimeInfo
pub record RuntimeInfo : Type 0 where
  pub auto_mode : TriBool
  pub motors_on : TriBool
  pub rapid_running : TriBool
  pub rws_connected : Bool

-- StaticInfo
pub record StaticInfo : Type 0 where
  pub rapid_tasks : List RapidTaskInfo
  pub system_info : SystemInfo

-- `!= TriBool::UNKNOWN_VALUE`
abbrev pub is_known : TriBool → Bool
is_known value = tri_ne value unknown_value

-- What a wait leaves in the document that a pointer points to: whether there was one, and the document
abbrev pub keep_document : Option Node → Option Node → Bool → Bool × Option Node
keep_document received old b = if b then (true, received) else (false, old)

module _ {Jar : Type 0} (net : Net) (store : CookieStore Jar) (parse_xml : Text → Option Node) where
  -- collectRuntimeInfo
  unfoldable pub collect_runtime_info : R Jar RuntimeInfo
  collect_runtime_info = do
    auto_mode ← is_auto_mode net store parse_xml
    motors_on ← is_motors_on net store parse_xml
    rapid_running ← is_rapid_running net store parse_xml
    pure (record {
      auto_mode = auto_mode;
      motors_on = motors_on;
      rapid_running = rapid_running;
      rws_connected = is_known auto_mode && is_known motors_on && is_known rapid_running;
    })

  -- collectStaticInfo
  unfoldable pub collect_static_info : R Jar StaticInfo
  collect_static_info = do
    rapid_tasks ← get_rapid_tasks net store parse_xml
    system_info ← get_system_info net store parse_xml
    pure (record { rapid_tasks = rapid_tasks; system_info = system_info })

  -- getSpeedRatio
  unfoldable pub read_speed_ratio : {Num Dnum : Type 0} → Conversions Num Dnum → R Jar ℕ
  read_speed_ratio conversions = do
    rws_result ← Requests.get_speed_ratio net store parse_xml
    if rws_result.success
        then elim (conversions.input_unsigned
            (find_text_content rws_result.document (class_attribute (codes "speedratio")))) [
              | none ↦ throw (codes "Failed to parse the speed ratio")
              | some speed_ratio ↦ pure speed_ratio
            ]
        else throw (codes "Failed to get the speed ratio")

  -- setRAPIDSymbolData, of a text
  unfoldable pub write_rapid_symbol_text : RapidResource → Text → R Jar Bool
  write_rapid_symbol_text resource value =
      succeeded (Commands.set_rapid_symbol_text net store parse_xml resource value)

  -- startRAPIDExecution
  unfoldable pub start_rapid_execution : R Jar Bool
  start_rapid_execution = succeeded (Commands.start_rapid_execution net store parse_xml)

  -- stopRAPIDExecution
  unfoldable pub stop_rapid_execution : R Jar Bool
  stop_rapid_execution = succeeded (Commands.stop_rapid_execution net store parse_xml)

  -- resetRAPIDProgramPointer
  unfoldable pub reset_rapid_program_pointer : R Jar Bool
  reset_rapid_program_pointer = succeeded (Commands.reset_rapid_program_pointer net store parse_xml)

  -- setMotorsOn
  unfoldable pub set_motors_on : R Jar Bool
  set_motors_on = succeeded (Commands.set_motors_on net store parse_xml)

  -- setMotorsOff
  unfoldable pub set_motors_off : R Jar Bool
  set_motors_off = succeeded (Commands.set_motors_off net store parse_xml)

  -- setSpeedRatio
  unfoldable pub set_speed_ratio : ℕ → R Jar Bool
  set_speed_ratio ratio = succeeded (Commands.set_speed_ratio net store parse_xml ratio)

  -- getFile, into the text that the pointer points to, if any: whether it is a success, and the text
  unfoldable pub get_file : FileResource → Option Text → R Jar (Bool × Option Text)
  get_file resource p_file_content = do
    answer ← Requests.get_file net store parse_xml resource p_file_content
    pure (answer.0.success, answer.1)

  -- uploadFile
  unfoldable pub upload_file : FileResource → Text → R Jar Bool
  upload_file resource file_content =
      succeeded (Commands.upload_file net store parse_xml resource file_content)

  -- deleteFile
  unfoldable pub delete_file : FileResource → R Jar Bool
  delete_file resource = succeeded (Commands.delete_file net store parse_xml resource)

  -- startSubscription
  unfoldable pub start_subscription : List SubscriptionResource → R Jar Bool
  start_subscription resources =
      succeeded (Subscription.start_subscription net store parse_xml resources)

  -- waitForSubscriptionEvent, into the document that the pointer points to, if any, with fuel for the frames
  unfoldable pub wait_for_document : ℕ → Option (Option Node) → R Jar (Option (Bool × Option Node))
  wait_for_document fuel none = pure (some (false, none))
  wait_for_document fuel (some document) = do
    waited ← Subscription.wait_for_subscription_event net store parse_xml fuel
    pure (elim waited [
      | none ↦ none
      | some rws_result ↦
          some (keep_document rws_result.document document (has_document rws_result))
    ])

  -- endSubscription
  unfoldable pub end_subscription : R Jar Bool
  end_subscription = succeeded (Subscription.end_subscription net store parse_xml)

  -- forceCloseSubscription
  unfoldable pub force_close_subscription : R Jar (Unit {0})
  force_close_subscription = Subscription.force_close_subscription net store parse_xml

  -- registerLocalUser
  unfoldable pub register_local_user : Text → Text → Text → R Jar Bool
  register_local_user username application location =
      succeeded (Commands.register_local_user net store parse_xml username application location)

  -- registerRemoteUser
  unfoldable pub register_remote_user : Text → Text → Text → R Jar Bool
  register_remote_user username application location =
      succeeded (Commands.register_remote_user net store parse_xml username application location)

-- getLogText and getLogTextLatestEvent
unfoldable pub get_log_text : {Jar : Type 0} → (ℕ → Text) → Bool → R Jar Text
get_log_text reason_for_status verbose = log_text reason_for_status verbose

unfoldable pub get_log_text_latest_event : {Jar : Type 0} → (ℕ → Text) → Bool → R Jar Text
get_log_text_latest_event reason_for_status verbose =
    log_text_latest_event reason_for_status verbose
