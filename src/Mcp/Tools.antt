-- ===== src/Mcp/Tools.antt =====
-- mcp/tools.py: the registry of the tools, which enforces the roles, and the catalog.
use any2helios_db.Prelude.{
  String, Bool, true, false, Option, none, some, List, [], ◌∷◌, if◌then◌else◌, str_eq,
}
use Prim.Native.String.{compare}
use Prim.Native.Nat.{Ordering}
use any2helios_db.Mcp.Auth.{Role, viewer, operator, admin, can}
use any2helios_db.Json.{Json}

abbrev pub is_lt : Ordering → Bool
is_lt Ordering.lt = true
is_lt _ = false

-- What a handler ends with: a result, a `ForbiddenError`, a `KeyError` or another exception with its
-- type and its text.
pub data Handled : Type 0 where
  returned : Json → Handled
  forbidden key_error : Handled
  failed : String → String → Handled

-- A handler works on the state behind the server: the databases and the files.
abbrev pub Handler : Type 0 → Type 0
Handler S = Json → S → S × Handled

-- The parts of `Tool` that the server looks at.
pub record Tool (S : Type 0) : Type 0 where
  pub name : String
  pub role : Role
  pub handler : Handler S

-- `ToolRegistry`, in the order in which the names were added.
abbrev pub ToolRegistry : Type 0 → Type 0
ToolRegistry S = List (Tool S)

-- `add`: a tool of the same name is replaced in its place.
unfoldable pub add : {S : Type 0} → Tool S → ToolRegistry S → ToolRegistry S
add tool [] = tool ∷ []
add tool (t ∷ tools) =
    let rest = add tool tools in if str_eq t.name tool.name then tool ∷ tools else t ∷ rest

-- `get`
unfoldable pub find_tool : {S : Type 0} → ToolRegistry S → String → Option (Tool S)
find_tool [] name = none
find_tool (t ∷ tools) name =
    let rest = find_tool tools name in if str_eq t.name name then some t else rest

-- `call`, for an unknown name, a role below the bar of the tool, and else.
abbrev pub run_tool : {S : Type 0} → Option (Tool S) → Role → Json → S → S × Handled
run_tool none role args s = (s, key_error)
run_tool (some tool) role args s =
    let result = tool.handler args s in if can role tool.role then result else (s, forbidden)

-- `ToolRegistry.call`
unfoldable pub call : {S : Type 0} → ToolRegistry S → Role → String → Json → S → S × Handled
unfolding find_tool can
call tools role name args = run_tool (find_tool tools name) role args

-- The order of Python's `sorted` on texts.
abbrev pub insert_name : String → List String → List String
insert_name n [] = n ∷ []
insert_name n (m ∷ ms) =
    let rest = insert_name n ms in if is_lt (compare m n) then m ∷ rest else n ∷ m ∷ ms

abbrev pub sort_names : List String → List String
sort_names [] = []
sort_names (n ∷ ns) = insert_name n (sort_names ns)

abbrev pub tool_names : {S : Type 0} → ToolRegistry S → List String
tool_names [] = []
tool_names (t ∷ tools) = t.name ∷ tool_names tools

-- `names`
unfoldable pub names : {S : Type 0} → ToolRegistry S → List String
names tools = sort_names (tool_names tools)

-- `principal.role.can(t.role)` of a tool that is there
abbrev pub permits : {S : Type 0} → Option (Tool S) → Role → Bool
permits none role = false
permits (some t) role = can role t.role

abbrev pub keep_permitted : {S : Type 0} → ToolRegistry S → Role → List String → List String
keep_permitted tools role [] = []
keep_permitted tools role (n ∷ ns) =
    let rest = keep_permitted tools role ns in
    if permits (find_tool tools n) role then n ∷ rest else rest

-- `visible_to`, by the names of the tools.
unfoldable pub visible_to : {S : Type 0} → ToolRegistry S → Role → List String
unfolding names
visible_to tools role = keep_permitted tools role (names tools)

-- `reg.add(Tool(name, role, ...))`, one after the other.
unfoldable pub add_each :
    {S : Type 0} → (String → Handler S) → List (String × Role) → ToolRegistry S → ToolRegistry S
unfolding add
add_each h [] reg = reg
add_each h ((name, role) ∷ rest) reg =
    add_each h rest (add (record { name = name; role = role; handler = h name }) reg)

-- The names and the roles of `build_catalog`.
abbrev pub catalog : List (String × Role)
catalog =
    ("doctor", viewer)
    ∷ ("smoke_test", viewer)
    ∷ ("assess", viewer)
    ∷ ("status", viewer)
    ∷ ("extracts", viewer)
    ∷ ("test", viewer)
    ∷ ("test_count", viewer)
    ∷ ("test_data", viewer)
    ∷ ("test_index", viewer)
    ∷ ("export", viewer)
    ∷ ("list_config", viewer)
    ∷ ("validate_config", viewer)
    ∷ ("migrate", operator)
    ∷ ("load", operator)
    ∷ ("resume", operator)
    ∷ ("extract", admin)
    ∷ ("replicat", admin)
    ∷ ("wizard", admin)
    ∷ []

-- `build_catalog`, with the handler of every name.
unfoldable pub build_catalog : {S : Type 0} → (String → Handler S) → ToolRegistry S
unfolding add_each
build_catalog h = add_each h catalog []
