-- ===== src/Client/Evaluation.antt =====
-- RWSClient::evaluatePOCOResult, checkAcceptedOutcomes and parseMessage.
pub mod Log
pub mod Verdict
pub mod Race
use abb_librws.Base.{
  ℕ, zero, suc, Bool, true, false, Text, codes, is_empty, leb, length, ◌==◌, ◌&&◌, ◌||◌,
  if◌then◌else◌, List, [], ◌∷◌, Option, none, some,
}
use abb_librws.Xml.{Node}
use abb_librws.Poco.Types.{PocoResult, Outcome, done}
use abb_librws.Poco.Socket.{is_ok}
use abb_librws.Client.Types.{RwsResult, no_success, EvaluationConditions, RwsClient, R}

-- LOG_SIZE
abbrev pub log_size : ℕ
log_size = 20

-- The loop of checkAcceptedOutcomes, which ends at the first outcome that fits.
unfoldable pub any_accepted : ℕ → List ℕ → Bool
any_accepted status [] = false
any_accepted status (outcome ∷ outcomes) = status == outcome || any_accepted status outcomes

abbrev pub not_accepted : Text
not_accepted = codes "checkAcceptedOutcomes(...): RWS response status not accepted"

abbrev pub was_empty : Text
was_empty = codes "parseMessage(...): RWS response was empty"

abbrev pub parser_failed : Text
parser_failed = codes "parseMessage(...): XML parser failed to parse RWS response"

-- checkAcceptedOutcomes
unfoldable pub check_accepted_outcomes : RwsResult → PocoResult → EvaluationConditions → RwsResult
check_accepted_outcomes result poco_result conditions =
    if is_ok poco_result.status && is_empty poco_result.exception_message
    then (if result.success || any_accepted poco_result.response.status conditions.accepted_outcomes
        then record result { success = true }
        else record result { success = false; error_message = not_accepted })
    else result

-- What parseMessage parses: the content of the response, or else that of the frame.
unfoldable pub message_of : PocoResult → Text
message_of poco_result =
    if is_empty poco_result.response.content
    then poco_result.websocket.frame_content
    else poco_result.response.content

-- `log_.pop_back()`
abbrev pub drop_last : List PocoResult → List PocoResult
drop_last [] = []
drop_last (x ∷ []) = []
drop_last (x ∷ y ∷ xs) = x ∷ drop_last (y ∷ xs)

-- The last lines of evaluatePOCOResult
unfoldable pub push_log : PocoResult → List PocoResult → List PocoResult
push_log poco_result log = poco_result ∷ (if leb log_size (length log) then drop_last log else log)

-- The parser is Poco's: `none` is a text that it throws at.
module _ (parse_xml : Text → Option Node) where
  -- parseMessage, for a result that is a success so far
  unfoldable pub parse_message : RwsResult → PocoResult → RwsResult
  parse_message result poco_result =
      let message = message_of poco_result in
      if is_empty message
      then record result { success = false; error_message = was_empty }
      else elim (parse_xml message) [
        | none ↦ record result { success = false; error_message = parser_failed }
        | some document ↦ record result { document = some document }
      ]

  -- The result that evaluatePOCOResult returns
  unfoldable pub verdict : PocoResult → EvaluationConditions → RwsResult
  verdict poco_result conditions =
      let result = check_accepted_outcomes no_success poco_result conditions in
      if result.success && conditions.parse_message_into_xml
      then parse_message result poco_result
      else result

  -- evaluatePOCOResult
  unfoldable pub evaluate : {Jar : Type 0} → PocoResult → EvaluationConditions → R Jar RwsResult
  evaluate poco_result conditions c =
      (done (verdict poco_result conditions), record c { log = push_log poco_result c.log })
