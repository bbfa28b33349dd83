-- ===== src/Client/LogTexts.antt =====
-- The texts of the log: POCOResult::toString of src/rws_poco_client.cpp, and getLogText of src/rws_client.cpp.
use abb_librws.Base.{
  ℕ, zero, suc, ◌+◌, ◌==◌, Bool, true, false, Text, codes, is_empty, length, List, [], ◌∷◌, ◌++◌,
  if◌then◌else◌,
}
use abb_librws.Poco.Types.{PocoResult, GeneralStatus, ok, map_general_status, map_websocket_opcode}
use abb_librws.Client.Types.{R, pure, decimal}

-- `std::string(count, ' ')`
abbrev pub blanks : ℕ → Text
blanks zero = []
blanks (suc count) = 32 ∷ blanks count

unfoldable pub separator : ℕ → Text
separator indent = if indent == 0 then codes " | " else codes "\n" ++ blanks indent

abbrev pub is_ok : GeneralStatus → Bool
is_ok ok = true
is_ok _ = false

module _ (reason_for_status : ℕ → Text) where
  -- What toString says of a response, if the request went well
  unfoldable pub response_text : PocoResult → Bool → ℕ → Text
  response_text r verbose indent =
      separator indent
      ++ codes "HTTP Response: "
      ++ decimal r.response.status
      ++ codes " - "
      ++ reason_for_status r.response.status
      ++ (if verbose
          then separator indent ++ codes "HTTP Response Content: " ++ r.response.content
          else [])

  -- POCOResult::toString; the reason for a status is Poco's.
  unfoldable pub to_string : PocoResult → Bool → ℕ → Text
  to_string r verbose indent =
      codes "General status: "
      ++ map_general_status r.status
      ++ (if is_empty r.request.method
          then (if is_ok r.status
              then separator indent ++ codes "WebSocket frame: " ++ map_websocket_opcode r
              else [])
          else separator indent
            ++ codes "HTTP Request: "
            ++ r.request.method
            ++ codes " "
            ++ r.request.uri
            ++ (if is_ok r.status then response_text r verbose indent else []))

  -- The loop of getLogText, from the i-th result on
  unfoldable pub log_lines : Bool → ℕ → List PocoResult → Text
  log_lines verbose i [] = []
  log_lines verbose i (r ∷ rest) =
      let temp = decimal (i + 1) ++ codes ". " in
      temp ++ to_string r verbose (length temp) ++ codes "\n" ++ log_lines verbose (suc i) rest

  -- getLogText
  unfoldable pub log_text : {Jar : Type 0} → Bool → R Jar Text
  log_text verbose c = pure (log_lines verbose 0 c.log) c

  -- getLogTextLatestEvent
  unfoldable pub log_text_latest_event : {Jar : Type 0} → Bool → R Jar Text
  log_text_latest_event verbose c =
      pure (elim c.log [ [] ↦ [] | r ∷ rest ↦ to_string r verbose 0 ]) c
