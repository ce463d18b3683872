-- ===== src/Mcp/Server.antt =====
-- mcp/server.py: a POST request, and the lines of the local transport. The parser of JSON is a
-- parameter; `none` is a body that it refuses.
use any2helios_db.Prelude.{String, ◌||◌, Option, none, some, List, [], ◌∷◌, if◌then◌else◌, str_eq}
use any2helios_db.Record.Codec.{Text}
use any2helios_db.Trail.{strip, is_empty}
use any2helios_db.Mcp.Auth.{Role, Tokens, authenticate_header}
use any2helios_db.Json.{
  Json, null, array, object, Items, no_item, item, no_member, member_of, or_null,
}
use any2helios_db.Mcp.Tools.{ToolRegistry}
use any2helios_db.Mcp.Protocol.{Reply, rpc_error, parse_error, internal_error, handle}

-- The status of a response with its body.
pub data HttpReply : Type 0 where
  not_found_404 unauthorized_401 accepted_202 : HttpReply
  ok_200 : Reply → HttpReply
  batch_200 : List Reply → HttpReply

abbrev pub push_reply : Option Reply → List Reply → List Reply
push_reply none replies = replies
push_reply (some r) replies = r ∷ replies

module _ {S : Type 0} (loads : Text → Option Json) (tools : ToolRegistry S) where
  -- The rest of a batch, once a message is answered.
  abbrev pub after_message :
      S × Option (Option Reply) → (S → S × Option (List Reply)) → S × Option (List Reply)
  after_message (s, none) rest = (s, none)
  after_message (s, some r) rest =
      let m = rest s in (m.0, elim m.1 [ none ↦ none | some rs ↦ some (push_reply r rs) ])

  -- The comprehension over a batch; an exception ends it.
  unfoldable pub handle_batch : Role → Items → S → S × Option (List Reply)
  unfolding handle
  handle_batch role no_item s = (s, some [])
  handle_batch role (item m ms) s = after_message (handle tools role m s) (handle_batch role ms)

  abbrev pub batch_reply : Option (List Reply) → HttpReply
  batch_reply none = ok_200 (rpc_error null internal_error)
  batch_reply (some rs) = batch_200 rs

  abbrev pub single_reply : Json → Option (Option Reply) → HttpReply
  single_reply id none = ok_200 (rpc_error id internal_error)
  single_reply id (some none) = accepted_202
  single_reply id (some (some r)) = ok_200 r

  abbrev pub id_of : Json → Json
  id_of (object message) = or_null (member_of message "id")
  id_of _ = null

  -- A parsed body of an authenticated caller.
  abbrev pub answer : Role → Json → S → S × HttpReply
  answer role (array items) s = let m = handle_batch role items s in (m.0, batch_reply m.1)
  answer role message s =
      let m = handle tools role message s in (m.0, single_reply (id_of message) m.1)

  abbrev pub answer_body : Role → Option Json → S → S × HttpReply
  answer_body role none s = (s, ok_200 (rpc_error null parse_error))
  answer_body role (some message) s = answer role message s

  -- `json.loads(...) if raw else {}`
  abbrev pub parse_body : Text → Option Json
  parse_body raw = if is_empty raw then some (object no_member) else loads raw

  abbrev pub answer_caller : Option Role → Text → S → S × HttpReply
  answer_caller none raw s = (s, unauthorized_401)
  answer_caller (some role) raw s = answer_body role (parse_body raw) s

  -- `do_POST`, with the path before "?", the header and the body that was read.
  unfoldable pub do_post : Tokens → String → Option Text → Text → S → S × HttpReply
  unfolding handle_batch handle authenticate_header member_of
  do_post tokens path authorization raw s =
      let answered = answer_caller (authenticate_header tokens authorization) raw s in
      if str_eq path "/mcp" || str_eq path "/" || str_eq path "/rpc"
      then answered
      else (s, not_found_404)

  -- What an answered line of the local transport writes, and what comes after it.
  abbrev pub after_line :
      S × Option (Option Reply) → (S → S × Option (List Reply)) → S × Option (List Reply)
  after_line m rest = after_message m rest

  abbrev pub answer_line : Role → Option Json → S → S × Option (Option Reply)
  answer_line role none s = (s, some (some (rpc_error null parse_error)))
  answer_line role (some message) s = handle tools role message s

  -- `serve_stdio` over the lines of its input; `none` is an exception, which ends the server.
  unfoldable pub serve_stdio : Role → List Text → S → S × Option (List Reply)
  unfolding handle strip
  serve_stdio role [] s = (s, some [])
  serve_stdio role (line ∷ lines) s =
      let next = after_line (answer_line role (loads (strip line)) s) (serve_stdio role lines) in
      let skip = serve_stdio role lines s in if is_empty (strip line) then skip else next
