-- ===== src/Client/Commands.antt =====
-- The methods of RWSClient that write to the controller.
use abb_librws.Base.{
  ℕ, Text, codes, Bool, true, false, ltb, ◌++◌, [], ◌∷◌, List, if◌then◌else◌, Option,
}
use abb_librws.Xml.{Node}
use abb_librws.Rapid.Atoms.{Floats}
use abb_librws.Rapid.Symbols.{Symbol, construct}
use abb_librws.Poco.Types.{http_ok}
use abb_librws.Poco.Work.{Net, CookieStore}
use abb_librws.Poco.Http.{post, put, delete}
use abb_librws.Client.Types.{
  RwsResult, EvaluationConditions, RapidResource, FileResource, R, ◌>>=◌, throw, on_poco, decimal,
}
use abb_librws.Client.Constants.{
  services_users, rw_panel_ctrlstate, rw_rapid_execution, local, remote, action_resetpp, action_set,
  action_setctrlstate, action_start, action_stop,
}
use abb_librws.Client.Evaluation.{evaluate}
use abb_librws.Client.Paths.{io_signal_path, rapid_data_path, file_path}
pub mod Sent

abbrev pub http_created : ℕ
http_created = 201

abbrev pub http_no_content : ℕ
http_no_content = 204

-- No document is wanted, but one of these statuses.
abbrev pub accepts : List ℕ → EvaluationConditions
accepts outcomes = record { parse_message_into_xml = false; accepted_outcomes = outcomes }

abbrev pub ratio_out_of_range : Text
ratio_out_of_range = codes "Speed ratio argument out of range (should be 0 <= ratio <= 100)"

module _ {Jar : Type 0} (net : Net) (store : CookieStore Jar) (parse_xml : Text → Option Node) where
  -- `evaluatePOCOResult(httpPost(uri, content), evaluation_conditions)`
  unfoldable pub post_and_accept : Text → Text → List ℕ → R Jar RwsResult
  post_and_accept uri content outcomes = do
    poco_result ← on_poco (post net store uri content)
    evaluate parse_xml poco_result (accepts outcomes)

  -- setIOSignal
  unfoldable pub set_io_signal : Text → Text → R Jar RwsResult
  set_io_signal iosignal value =
      post_and_accept (io_signal_path iosignal ++ codes "?" ++ action_set)
        (codes "lvalue" ++ codes "=" ++ value) (http_no_content ∷ [])

  -- setRAPIDSymbolData, of a text
  unfoldable pub set_rapid_symbol_text : RapidResource → Text → R Jar RwsResult
  set_rapid_symbol_text resource value =
      post_and_accept (rapid_data_path resource ++ codes "?" ++ action_set)
        (codes "value" ++ codes "=" ++ value) (http_no_content ∷ [])

  -- setRAPIDSymbolData, of an object
  unfoldable pub set_rapid_symbol_data :
      {Num Dnum : Type 0} → Floats Num Dnum → RapidResource → Symbol Num Dnum → R Jar RwsResult
  set_rapid_symbol_data fl resource symbol = set_rapid_symbol_text resource (construct fl symbol)

  -- startRAPIDExecution
  unfoldable pub start_rapid_execution : R Jar RwsResult
  start_rapid_execution =
      post_and_accept (rw_rapid_execution ++ codes "?" ++ action_start)
        (codes
          "regain=continue&execmode=continue&cycle=forever&condition=none&stopatbp=disabled&alltaskbytsp=false")
        (http_no_content ∷ [])

  -- stopRAPIDExecution
  unfoldable pub stop_rapid_execution : R Jar RwsResult
  stop_rapid_execution =
      post_and_accept (rw_rapid_execution ++ codes "?" ++ action_stop) (codes "stopmode=stop")
        (http_no_content ∷ [])

  -- resetRAPIDProgramPointer
  unfoldable pub reset_rapid_program_pointer : R Jar RwsResult
  reset_rapid_program_pointer =
      post_and_accept (rw_rapid_execution ++ codes "?" ++ action_resetpp) [] (http_no_content ∷ [])

  -- setMotorsOn
  unfoldable pub set_motors_on : R Jar RwsResult
  set_motors_on =
      post_and_accept (rw_panel_ctrlstate ++ codes "?" ++ action_setctrlstate)
        (codes "ctrl-state=motoron") (http_no_content ∷ [])

  -- setMotorsOff
  unfoldable pub set_motors_off : R Jar RwsResult
  set_motors_off =
      post_and_accept (rw_panel_ctrlstate ++ codes "?" ++ action_setctrlstate)
        (codes "ctrl-state=motoroff") (http_no_content ∷ [])

  -- setSpeedRatio
  unfoldable pub set_speed_ratio : ℕ → R Jar RwsResult
  set_speed_ratio ratio =
      if ltb 100 ratio
      then throw ratio_out_of_range
      else post_and_accept (codes "/rw/panel/speedratio?action=setspeedratio")
          (codes "speed-ratio=" ++ decimal ratio) (http_no_content ∷ [])

  -- uploadFile
  unfoldable pub upload_file : FileResource → Text → R Jar RwsResult
  upload_file resource file_content = do
    poco_result ← on_poco (put net store (file_path resource) file_content)
    evaluate parse_xml poco_result (accepts (http_ok ∷ http_created ∷ []))

  -- deleteFile
  unfoldable pub delete_file : FileResource → R Jar RwsResult
  delete_file resource = do
    poco_result ← on_poco (delete net store (file_path resource))
    evaluate parse_xml poco_result (accepts (http_ok ∷ http_no_content ∷ []))

  abbrev pub register_user : Text → Text → Text → Text → R Jar RwsResult
  register_user place username application location =
      post_and_accept services_users
        (codes "username="
          ++ username
          ++ codes "&application="
          ++ application
          ++ codes "&location="
          ++ location
          ++ codes "&ulocale="
          ++ place)
        (http_ok ∷ http_created ∷ [])

  -- registerLocalUser
  unfoldable pub register_local_user : Text → Text → Text → R Jar RwsResult
  register_local_user username application location =
      register_user local username application location

  -- registerRemoteUser
  unfoldable pub register_remote_user : Text → Text → Text → R Jar RwsResult
  register_remote_user username application location =
      register_user remote username application location
