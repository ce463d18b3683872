-- ===== src/Mcp/Access.antt =====
-- What a request may change: only what the handlers that its role clears change.
use any2helios_db.Prelude.{
  String, ◌≡◌, refl, Bool, true, false, Option, none, some, List, [], ◌∷◌, if◌then◌else◌, str_eq,
  Bool-cases, inl, inr, ◌||◌,
}
use any2helios_db.Record.Codec.{Text}
use any2helios_db.Ledger.Chunks.Rows.{All}
use any2helios_db.Replicat.Follows.{Rule}
use any2helios_db.Mcp.Auth.{Role, can, Tokens, authenticate_header}
use any2helios_db.Json.{
  Json, null, boolean, int, float, text, array, object, Items, no_item, item, Members, member_of,
  or_null, or_object, is_text,
}
use any2helios_db.Mcp.Tools.{
  Handler, Tool, ToolRegistry, add, find_tool, run_tool, call, add_each, catalog, build_catalog,
}
use any2helios_db.Mcp.Protocol.{
  Reply, rpc_error, invalid_request, is_absent, call_name, call_tool, call_with, call_params,
  dispatch, handle,
}
use any2helios_db.Mcp.Server.{
  after_message, handle_batch, answer, answer_body, parse_body, answer_caller, do_post,
}

-- From `s`, the run leads to a state that the relation allows.
pub record Leads {S A : Type 0} (R : S → S → Type 0) (s : S) (m : S × A) : Type 0 where
  pub leads : R s m.0

-- A tool that the role clears has a handler that respects the relation.
abbrev pub Respects : {S : Type 0} → (S → S → Type 0) → Role → Tool S → Type 0
Respects {S} R role t = can role t.role ≡ true → (args : Json) (s : S) → R s (t.handler args s).0

-- So does the handler of an entry of the catalog.
abbrev pub EntryRespects :
    {S : Type 0} → (S → S → Type 0) → (String → Handler S) → Role → String × Role → Type 0
EntryRespects {S} R h role e = can role e.1 ≡ true → (args : Json) (s : S) → R s (h e.0 args s).0

module _ {S : Type 0} (R : S → S → Type 0) (rule : Rule R) where
  here-Leads : {A : Type 0} (s : S) (a : A) → Leads R s (s, a)
  here-Leads s a = record { leads = rule.stay s }

  if-Leads :
      {A : Type 0} (s : S) (b : Bool) (m n : S × A)
      → Leads R s m
      → Leads R s n
      → Leads R s (if b then m else n)
  if-Leads s true m n h k = h
  if-Leads s false m n h k = k

  module _ (tools : ToolRegistry S) (role : Role) (ok : All (Respects R role) tools) where
    find_tool-Leads :
        (ts : ToolRegistry S) (name : String) (args : Json) (s : S)
        → All (Respects R role) ts
        → Leads R s (run_tool (find_tool ts name) role args s)
    unfolding find_tool
    find_tool-Leads [] name args s h = here-Leads s _
    find_tool-Leads (t ∷ ts) name args s h = elim (Bool-cases (str_eq t.name name)) [
      | inl is ↦ elim (Bool-cases (can role t.role)) [
        | inl cleared ↦ rw (is, cleared) (record { leads = h.0 cleared args s })
        | inr barred ↦ rw (is, barred) (here-Leads s _)
      ]
      | inr isnt ↦ rw isnt (find_tool-Leads ts name args s h.1)
    ]

    call-Leads : (name : String) (args : Json) (s : S) → Leads R s (call tools role name args s)
    unfolding call
    call-Leads name args s = find_tool-Leads tools name args s ok

    call_with-Leads :
        (id : Json) (name : String) (args : Json) (s : S)
        → Leads R s (call_with tools role id name args s)
    call_with-Leads id name (object arguments) s = record {
      leads = (call-Leads name (object arguments) s).leads;
    }
    call_with-Leads id name null s = here-Leads s _
    call_with-Leads id name (boolean b) s = here-Leads s _
    call_with-Leads id name (int z) s = here-Leads s _
    call_with-Leads id name (float n z) s = here-Leads s _
    call_with-Leads id name (text t) s = here-Leads s _
    call_with-Leads id name (array items) s = here-Leads s _

    call_name-Leads :
        (id name args : Json) (s : S) → Leads R s (call_name tools role id name args s)
    call_name-Leads id (text name) args s =
        if-Leads s (str_eq name "") _ _ (here-Leads s _) (call_with-Leads id name args s)
    call_name-Leads id null args s = here-Leads s _
    call_name-Leads id (boolean b) args s = here-Leads s _
    call_name-Leads id (int z) args s = here-Leads s _
    call_name-Leads id (float n z) args s = here-Leads s _
    call_name-Leads id (array items) args s = here-Leads s _
    call_name-Leads id (object members) args s = here-Leads s _

    call_tool-Leads :
        (id : Json) (params : Members) (s : S) → Leads R s (call_tool tools role id params s)
    unfolding call_tool
    call_tool-Leads id params s =
        call_name-Leads id (or_null (member_of params "name"))
          (or_object (or_null (member_of params "arguments"))) s

    call_params-Leads : (id params : Json) (s : S) → Leads R s (call_params tools role id params s)
    call_params-Leads id (object params) s = call_tool-Leads id params s
    call_params-Leads id null s = here-Leads s _
    call_params-Leads id (boolean b) s = here-Leads s _
    call_params-Leads id (int z) s = here-Leads s _
    call_params-Leads id (float n z) s = here-Leads s _
    call_params-Leads id (text t) s = here-Leads s _
    call_params-Leads id (array items) s = here-Leads s _

    dispatch-Leads :
        (id method : Json) (is_notification : Bool) (params : Json) (s : S)
        → Leads R s (dispatch tools role id method is_notification params s)
    unfolding dispatch
    dispatch-Leads id method is_notification params s =
        if-Leads s (is_text method "initialize") _ _ (here-Leads s _) (
          if-Leads s (is_text method "notifications/initialized" || is_text method "initialized") _
            _ (here-Leads s _)
            (if-Leads s (is_text method "ping") _ _ (here-Leads s _) (
              if-Leads s (is_text method "tools/list") _ _ (here-Leads s _) (
                if-Leads s (is_text method "tools/call") _ _ (call_params-Leads id params s)
                  (here-Leads s _)))))

    pub handle-Leads : (message : Json) (s : S) → Leads R s (handle tools role message s)
    unfolding handle
    handle-Leads (object message) s =
        if-Leads s (is_text (or_null (member_of message "jsonrpc")) "2.0") _ _
          (dispatch-Leads (or_null (member_of message "id")) (or_null (member_of message "method"))
            (is_absent tools role (member_of message "id"))
            (or_object (or_null (member_of message "params"))) s)
          (here-Leads s
            (some (some (rpc_error (or_null (member_of message "id")) invalid_request))))
    handle-Leads null s = here-Leads s _
    handle-Leads (boolean b) s = here-Leads s _
    handle-Leads (int z) s = here-Leads s _
    handle-Leads (float n z) s = here-Leads s _
    handle-Leads (text t) s = here-Leads s _
    handle-Leads (array items) s = here-Leads s _

    after_message-Leads :
        (loads : Text → Option Json) (s : S) (m : S × Option (Option Reply))
        (rest : S → S × Option (List Reply))
        → Leads R s m
        → ((s' : S) → Leads R s' (rest s'))
        → Leads R s (after_message loads tools m rest)
    after_message-Leads loads s (s', none) rest h next = record { leads = h.leads }
    after_message-Leads loads s (s', some r) rest h next = record {
      leads = rule.chain s s' (rest s').0 h.leads (next s').leads;
    }

    handle_batch-Leads :
        (loads : Text → Option Json) (items : Items) (s : S)
        → Leads R s (handle_batch loads tools role items s)
    unfolding handle_batch
    handle_batch-Leads loads no_item s = here-Leads s _
    handle_batch-Leads loads (item m ms) s =
        after_message-Leads loads s _ _ (handle-Leads m s) (handle_batch-Leads loads ms)

    answer-Leads :
        (loads : Text → Option Json) (message : Json) (s : S)
        → Leads R s (answer loads tools role message s)
    answer-Leads loads (array items) s = record { leads = (handle_batch-Leads loads items s).leads }
    answer-Leads loads null s = record { leads = (handle-Leads null s).leads }
    answer-Leads loads (boolean b) s = record { leads = (handle-Leads (boolean b) s).leads }
    answer-Leads loads (int z) s = record { leads = (handle-Leads (int z) s).leads }
    answer-Leads loads (float n z) s = record { leads = (handle-Leads (float n z) s).leads }
    answer-Leads loads (text t) s = record { leads = (handle-Leads (text t) s).leads }
    answer-Leads loads (object members) s = record {
      leads = (handle-Leads (object members) s).leads;
    }

    answer_body-Leads :
        (loads : Text → Option Json) (body : Option Json) (s : S)
        → Leads R s (answer_body loads tools role body s)
    answer_body-Leads loads none s = here-Leads s _
    answer_body-Leads loads (some message) s = answer-Leads loads message s

  answer_caller-Leads :
      (loads : Text → Option Json) (tools : ToolRegistry S) (caller : Option Role) (raw : Text)
      (s : S)
      → ((role : Role) → caller ≡ some role → All (Respects R role) tools)
      → Leads R s (answer_caller loads tools caller raw s)
  answer_caller-Leads loads tools none raw s ok = here-Leads s _
  answer_caller-Leads loads tools (some role) raw s ok =
      answer_body-Leads tools role (ok role refl) loads (parse_body loads tools raw) s

  -- What the catalog's handlers respect, its registry does.
  All-add :
      (role : Role) (t : Tool S) (tools : ToolRegistry S)
      → Respects R role t
      → All (Respects R role) tools
      → All (Respects R role) (add t tools)
  unfolding add
  All-add role t [] h hs = (h, tt)
  All-add role t (u ∷ tools) h hs = elim (Bool-cases (str_eq u.name t.name)) [
    | inl same ↦ rw same (h, hs.1)
    | inr other ↦ rw other (hs.0, All-add role t tools h hs.1)
  ]

  All-add_each :
      (h : String → Handler S) (role : Role) (entries : List (String × Role))
      (tools : ToolRegistry S)
      → All (EntryRespects R h role) entries
      → All (Respects R role) tools
      → All (Respects R role) (add_each h entries tools)
  unfolding add_each
  All-add_each h role [] tools hs ts = ts
  All-add_each h role (e ∷ entries) tools hs ts =
      All-add_each h role entries _ hs.1 (All-add role _ tools hs.0 ts)

-- Whatever a POST request changes, a handler changed that the caller's role clears. Take any
-- relation between the state before and after that holds of no change and of two changes in a row.
-- If every tool of the catalog that the role of the bearer's token clears respects the relation, then
-- the whole request does, for any path, header and body: a batch, a malformed message and a tool
-- that is refused included. Without a known token nothing is asked of any handler.
pub do_post-Respects :
    {S : Type 0} (R : S → S → Type 0) (loads : Text → Option Json) (h : String → Handler S)
    (tokens : Tokens) (path : String) (authorization : Option Text) (raw : Text) (s : S)
    → Rule R
    → ((role : Role)
        → authenticate_header tokens authorization ≡ some role
        → All (EntryRespects R h role) catalog)
    → R s (do_post loads (build_catalog h) tokens path authorization raw s).0
unfolding do_post build_catalog
do_post-Respects R loads h tokens path authorization raw s rule ok =
    (if-Leads R rule s (str_eq path "/mcp" || str_eq path "/" || str_eq path "/rpc") _ _
      (answer_caller-Leads R rule loads (build_catalog h) (authenticate_header tokens authorization)
        raw s (λ role known. All-add_each R rule h role catalog [] (ok role known) tt))
      (here-Leads R rule s _)).leads
