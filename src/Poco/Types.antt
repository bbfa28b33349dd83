-- ===== src/Poco/Types.antt =====
-- POCOClient::POCOResult, and what the Poco library brings: requests, responses, frames, exceptions.
use abb_librws.Base.{ℕ, ◌%◌, Text, codes, ◌==◌, if◌then◌else◌, List, [], ◌∷◌, ◌++◌, Option}

-- POCOResult::GeneralStatus
pub data GeneralStatus : Type 0 where
  unknown ok websocket_not_allocated exception_poco_invalid_argument exception_poco_timeout
        exception_poco_net exception_poco_websocket :
      GeneralStatus

-- POCOResult::mapGeneralStatus
unfoldable pub map_general_status : GeneralStatus → Text
map_general_status unknown = codes "UNKNOWN"
map_general_status ok = codes "OK"
map_general_status websocket_not_allocated = codes "WEBSOCKET_NOT_ALLOCATED"
map_general_status exception_poco_invalid_argument = codes "EXCEPTION_POCO_INVALID_ARGUMENT"
map_general_status exception_poco_timeout = codes "EXCEPTION_POCO_TIMEOUT"
map_general_status exception_poco_net = codes "EXCEPTION_POCO_NET"
map_general_status exception_poco_websocket = codes "EXCEPTION_POCO_WEBSOCKET"

-- POCOInfo::HTTPInfo::RequestInfo
pub record RequestInfo : Type 0 where
  pub method : Text
  pub uri : Text
  pub content : Text

-- POCOInfo::HTTPInfo::ResponseInfo
pub record ResponseInfo : Type 0 where
  pub status : ℕ
  pub header_info : Text
  pub content : Text

-- POCOInfo::WebSocketInfo
pub record WebSocketInfo : Type 0 where
  pub flags : ℕ
  pub frame_content : Text

-- POCOResult, with the members of its `poco_info`
pub record PocoResult : Type 0 where
  pub status : GeneralStatus
  pub exception_message : Text
  pub request : RequestInfo
  pub response : ResponseInfo
  pub websocket : WebSocketInfo

abbrev pub http_ok : ℕ
http_ok = 200

-- The result before anything has happened.
abbrev pub no_result : PocoResult
no_result = record {
  status = unknown;
  exception_message = [];
  request = record { method = []; uri = []; content = [] };
  response = record { status = http_ok; header_info = []; content = [] };
  websocket = record { flags = 0; frame_content = [] };
}

-- Poco::Net::HTTPRequest: what the sources set of it.
pub record HttpRequest : Type 0 where
  pub method : Text
  pub uri : Text
  pub cookie : Option Text
  pub content_length : ℕ
  pub content_type : Option Text
  pub protocol : Option Text
  pub authorization : Option Text

-- Poco::Net::HTTPResponse, with the content that comes after it
pub record HttpResponse : Type 0 where
  pub status : ℕ
  pub headers : List (Text × Text)
  pub content : Text

-- Poco::Net::HTTPCookie
pub record Cookie : Type 0 where
  pub name : Text
  pub value : Text

-- A WebSocket frame, with the flags that `receiveFrame` sets
pub record Frame : Type 0 where
  pub flags : ℕ
  pub content : Text

-- The exceptions that Poco throws, by the most derived of the classes that the sources catch. In Poco a
-- WebSocketException is a NetException; `other_exception` is of none of these classes.
pub data ExceptionKind : Type 0 where
  invalid_argument timeout websocket_exception net_exception other_exception : ExceptionKind

pub record Exception : Type 0 where
  pub kind : ExceptionKind
  pub display_text : Text

-- What a call of Poco does: it returns, or it throws.
pub data Outcome {ℓ} (A : Type ℓ) : Type ℓ where
  done : A → Outcome A
  raised : Exception → Outcome A

-- addHTTPRequestInfo
unfoldable pub add_http_request_info : PocoResult → HttpRequest → Text → PocoResult
add_http_request_info r request request_content = record r {
  request = record { method = request.method; uri = request.uri; content = request_content };
}

-- The loop of addHTTPResponseInfo: each header as a line `name=value`.
unfoldable pub header_lines : List (Text × Text) → Text
header_lines [] = []
header_lines ((name, value) ∷ rest) =
    name ++ (codes "=" ++ (value ++ (codes "\n" ++ header_lines rest)))

-- addHTTPResponseInfo
unfoldable pub add_http_response_info : PocoResult → HttpResponse → Text → PocoResult
add_http_response_info r response response_content = record r {
  response = record {
    status = response.status;
    header_info = header_lines response.headers;
    content = response_content;
  };
}

-- addWebSocketFrameInfo
unfoldable pub add_websocket_frame_info : PocoResult → ℕ → Text → PocoResult
add_websocket_frame_info r flags frame_content = record r {
  websocket = record { flags = flags; frame_content = frame_content };
}

-- `flags & WebSocket::FRAME_OP_BITMASK`, the low four bits, and the opcodes of RFC 6455
abbrev pub opcode : ℕ → ℕ
opcode flags = flags % 16

abbrev pub op_close : ℕ
op_close = 8

abbrev pub op_ping : ℕ
op_ping = 9

-- POCOResult::mapWebSocketOpcode
unfoldable pub map_websocket_opcode : PocoResult → Text
map_websocket_opcode r =
    let op = opcode r.websocket.flags in
    if op == 0
    then codes "FRAME_OP_CONT"
    else if op == 1
    then codes "FRAME_OP_TEXT"
    else if op == 2
    then codes "FRAME_OP_BINARY"
    else if op == op_close
    then codes "FRAME_OP_CLOSE"
    else if op == op_ping
    then codes "FRAME_OP_PING"
    else if op == 10
    then codes "FRAME_OP_PONG"
    else codes "FRAME_OP_UNDEFINED"
