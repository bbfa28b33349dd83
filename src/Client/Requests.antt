-- ===== src/Client/Requests.antt =====
-- The methods of RWSClient that read from the controller.
use abb_librws.Base.{
  Text, codes, is_empty, text_eq, ◌&&◌, Bool, true, false, ◌++◌, [], ◌∷◌, if◌then◌else◌, Option,
  none, some,
}
use abb_librws.Xml.{Node, find_text_content}
use abb_librws.Rapid.Atoms.{Floats, Parsed, returned, threw}
use abb_librws.Rapid.Symbols.{Symbol, get_type, parse}
use abb_librws.Poco.Types.{http_ok}
use abb_librws.Poco.Work.{Net, CookieStore}
use abb_librws.Poco.Http.{get}
use abb_librws.Client.Types.{
  RwsResult, no_success, EvaluationConditions, RapidResource, FileResource, Coordinate, R, ◌>>=◌,
  pure, throw, on_poco,
}
use abb_librws.Client.Constants.{
  services_ctrl, instances, jointtarget, logout_resource, rw_iosystem_signals, rw_panel_ctrlstate,
  rw_panel_opmode, rw_rapid_execution, rw_rapid_modules, rw_rapid_tasks, rw_system, class_dattyp,
  class_value, task_query,
}
use abb_librws.Client.Evaluation.{evaluate}
use abb_librws.Client.Paths.{
  configuration_path, io_signal_path, mechanical_unit_path, rapid_data_path, rapid_properties_path,
  file_path, rob_target_path,
}
pub mod SymbolData

-- A document is wanted, and the status 200.
abbrev pub document_wanted : EvaluationConditions
document_wanted = record { parse_message_into_xml = true; accepted_outcomes = http_ok ∷ [] }

abbrev pub value_was_empty : Text
value_was_empty = codes "getRAPIDSymbolData(...): RAPID value string was empty"

-- `p_data->parseString(value)`: what it leaves in the object, and the `std::out_of_range` that goes
-- through, whose text the standard leaves open.
abbrev pub parse_into : {Jar A : Type 0} → RwsResult → Parsed A → R Jar (RwsResult × Option A)
parse_into result (returned after) = pure (result, some after)
parse_into result (threw after) = throw []

-- What getRAPIDSymbolData does with the document of the value.
unfoldable pub read_value :
    {Jar Num Dnum : Type 0}
    → Floats Num Dnum
    → Symbol Num Dnum
    → RwsResult
    → R Jar (RwsResult × Option (Symbol Num Dnum))
read_value fl symbol result =
    let value = find_text_content result.document class_value in
    if result.success
    then (if is_empty value
        then pure (record result { success = false; error_message = value_was_empty }, some symbol)
        else parse_into result (parse fl symbol value))
    else pure (result, some symbol)

module _ {Jar : Type 0} (net : Net) (store : CookieStore Jar) (parse_xml : Text → Option Node) where
  -- `evaluatePOCOResult(httpGet(uri), evaluation_conditions)`, where a document is wanted
  unfoldable pub get_document : Text → R Jar RwsResult
  get_document uri = do
    poco_result ← on_poco (get net store uri)
    evaluate parse_xml poco_result document_wanted

  -- getContollerService
  unfoldable pub get_contoller_service : R Jar RwsResult
  get_contoller_service = get_document services_ctrl

  -- getConfigurationInstances
  unfoldable pub get_configuration_instances : Text → Text → R Jar RwsResult
  get_configuration_instances topic type = get_document (configuration_path topic type ++ instances)

  -- getIOSignals
  unfoldable pub get_io_signals : R Jar RwsResult
  get_io_signals = get_document rw_iosystem_signals

  -- getIOSignal
  unfoldable pub get_io_signal : Text → R Jar RwsResult
  get_io_signal iosignal = get_document (io_signal_path iosignal)

  -- getMechanicalUnitStaticInfo
  unfoldable pub get_mechanical_unit_static_info : Text → R Jar RwsResult
  get_mechanical_unit_static_info mechunit =
      get_document (mechanical_unit_path mechunit ++ codes "?resource=static")

  -- getMechanicalUnitDynamicInfo
  unfoldable pub get_mechanical_unit_dynamic_info : Text → R Jar RwsResult
  get_mechanical_unit_dynamic_info mechunit =
      get_document (mechanical_unit_path mechunit ++ codes "?resource=dynamic")

  -- getMechanicalUnitJointTarget
  unfoldable pub get_mechanical_unit_joint_target : Text → R Jar RwsResult
  get_mechanical_unit_joint_target mechunit =
      get_document (mechanical_unit_path mechunit ++ jointtarget)

  -- getMechanicalUnitRobTarget
  unfoldable pub get_mechanical_unit_rob_target : Text → Coordinate → Text → Text → R Jar RwsResult
  get_mechanical_unit_rob_target mechunit coordinate tool_name wobj_name =
      get_document (rob_target_path mechunit coordinate tool_name wobj_name)

  -- getRAPIDExecution
  unfoldable pub get_rapid_execution : R Jar RwsResult
  get_rapid_execution = get_document rw_rapid_execution

  -- getRAPIDModulesInfo
  unfoldable pub get_rapid_modules_info : Text → R Jar RwsResult
  get_rapid_modules_info task = get_document (rw_rapid_modules ++ codes "?" ++ task_query ++ task)

  -- getRAPIDTasks
  unfoldable pub get_rapid_tasks : R Jar RwsResult
  get_rapid_tasks = get_document rw_rapid_tasks

  -- getRobotWareSystem
  unfoldable pub get_robotware_system : R Jar RwsResult
  get_robotware_system = get_document rw_system

  -- getSpeedRatio
  unfoldable pub get_speed_ratio : R Jar RwsResult
  get_speed_ratio = get_document (codes "/rw/panel/speedratio")

  -- getPanelControllerState
  unfoldable pub get_panel_controller_state : R Jar RwsResult
  get_panel_controller_state = get_document rw_panel_ctrlstate

  -- getPanelOperationMode
  unfoldable pub get_panel_operation_mode : R Jar RwsResult
  get_panel_operation_mode = get_document rw_panel_opmode

  -- getRAPIDSymbolData, of a resource alone
  unfoldable pub get_rapid_symbol_resource : RapidResource → R Jar RwsResult
  get_rapid_symbol_resource resource = get_document (rapid_data_path resource)

  -- getRAPIDSymbolProperties
  unfoldable pub get_rapid_symbol_properties : RapidResource → R Jar RwsResult
  get_rapid_symbol_properties resource = get_document (rapid_properties_path resource)

  -- logout
  unfoldable pub logout : R Jar RwsResult
  logout = get_document logout_resource

  -- getRAPIDSymbolData, into the object that `p_data` points to, if any: the result and the object after it.
  unfoldable pub get_rapid_symbol_data :
      {Num Dnum : Type 0}
      → Floats Num Dnum
      → RapidResource
      → Option (Symbol Num Dnum)
      → R Jar (RwsResult × Option (Symbol Num Dnum))
  get_rapid_symbol_data fl resource none = pure (no_success, none)
  get_rapid_symbol_data fl resource (some symbol) = do
    temp_result ← get_rapid_symbol_properties resource
    if temp_result.success
          && text_eq (get_type symbol) (find_text_content temp_result.document class_dattyp)
        then (do result ← get_rapid_symbol_resource resource; read_value fl symbol result)
        else pure (no_success, some symbol)

  -- getFile, into the text that `p_file_content` points to, if any: the result and the text after it.
  unfoldable pub get_file : FileResource → Option Text → R Jar (RwsResult × Option Text)
  get_file resource none = pure (no_success, none)
  get_file resource (some file_content) = do
    poco_result ← on_poco (get net store (file_path resource))
    rws_result ←
        evaluate parse_xml poco_result
          (record { parse_message_into_xml = false; accepted_outcomes = http_ok ∷ [] })
    pure (
      rws_result,
      some (if rws_result.success then poco_result.response.content else file_content),
    )
