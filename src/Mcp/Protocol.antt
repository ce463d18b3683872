-- ===== src/Mcp/Protocol.antt =====
-- mcp/protocol.py: `Dispatcher.handle`, which answers one message of an authenticated caller. The
-- texts of the errors are left out.
use any2helios_db.Prelude.{
  String, Bool, true, false, ◌||◌, Option, none, some, List, if◌then◌else◌, str_eq,
}
use any2helios_db.Mcp.Auth.{Role}
use any2helios_db.Json.{Json, null, text, object, Members, member_of, or_null, or_object, is_text}
use any2helios_db.Mcp.Tools.{
  Handled, returned, forbidden, key_error, failed, ToolRegistry, call, visible_to,
}

-- The codes of JSON-RPC; `forbidden_code` is FORBIDDEN, which carries the status 403.
pub data Code : Type 0 where
  parse_error invalid_request method_not_found invalid_params internal_error forbidden_code : Code

-- A response to the id of its request.
pub data Reply : Type 0 where
  initialized pong : Json → Reply
  tool_list : Json → List String → Reply
  tool_result : Json → Json → Reply
  -- `isError` is set, with the type and the text of the exception.
  tool_failed : Json → String → String → Reply
  rpc_error : Json → Code → Reply

-- What a handler raised or returned, as a response.
unfoldable pub reply_of : Json → Handled → Reply
reply_of id (returned result) = tool_result id result
reply_of id forbidden = rpc_error id forbidden_code
reply_of id key_error = rpc_error id method_not_found
reply_of id (failed kind message) = tool_failed id kind message

module _ {S : Type 0} (tools : ToolRegistry S) (role : Role) where
  -- The end of `_call`, with a name and the arguments.
  abbrev pub call_named : Json → String → Json → S → S × Option (Option Reply)
  call_named id name arguments s =
      let ran = call tools role name arguments s in (ran.0, some (some (reply_of id ran.1)))

  -- The arguments are checked to be an object.
  abbrev pub call_with : Json → String → Json → S → S × Option (Option Reply)
  call_with id name (object arguments) s = call_named id name (object arguments) s
  call_with id name _ s = (s, some (some (rpc_error id invalid_params)))

  -- The name is checked to be a text that is not empty.
  abbrev pub call_name : Json → Json → Json → S → S × Option (Option Reply)
  call_name id (text name) arguments s =
      let ran = call_with id name arguments s in
      if str_eq name "" then (s, some (some (rpc_error id invalid_params))) else ran
  call_name id _ arguments s = (s, some (some (rpc_error id invalid_params)))

  -- `_call`
  unfoldable pub call_tool : Json → Members → S → S × Option (Option Reply)
  unfolding call reply_of member_of
  call_tool id params =
      call_name id (or_null (member_of params "name"))
        (or_object (or_null (member_of params "arguments")))

  -- `params.get` of `message.get("params") or {}`; `none` outside is the `AttributeError` of
  -- parameters that are no object.
  abbrev pub call_params : Json → Json → S → S × Option (Option Reply)
  call_params id (object params) s = call_tool id params s
  call_params id _ s = (s, none)

  abbrev pub unless_notified : Bool → Reply → Option Reply
  unless_notified is_notification reply = if is_notification then none else some reply

  -- The methods, in the order of the tests. `none` inside is a message that needs no reply.
  unfoldable pub dispatch : Json → Json → Bool → Json → S → S × Option (Option Reply)
  unfolding call_tool visible_to
  dispatch id method is_notification params s =
      let called = call_params id params s in
      if is_text method "initialize"
      then (s, some (unless_notified is_notification (initialized id)))
      else if is_text method "notifications/initialized" || is_text method "initialized"
      then (s, some none)
      else if is_text method "ping"
      then (s, some (unless_notified is_notification (pong id)))
      else if is_text method "tools/list"
      then (s, some (some (tool_list id (visible_to tools role))))
      else if is_text method "tools/call"
      then called
      else (s, some (unless_notified is_notification (rpc_error id method_not_found)))

  abbrev pub is_absent : Option Json → Bool
  is_absent none = true
  is_absent (some v) = false

  abbrev pub handle_object : Members → S → S × Option (Option Reply)
  handle_object message s =
      let id = or_null (member_of message "id") in
      let answered =
        dispatch id (or_null (member_of message "method")) (is_absent (member_of message "id"))
          (or_object (or_null (member_of message "params"))) s in
      if is_text (or_null (member_of message "jsonrpc")) "2.0"
      then answered
      else (s, some (some (rpc_error id invalid_request)))

  -- `Dispatcher.handle`
  unfoldable pub handle : Json → S → S × Option (Option Reply)
  unfolding dispatch member_of
  handle (object message) s = handle_object message s
  handle _ s = (s, some (some (rpc_error null invalid_request)))
