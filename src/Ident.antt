-- ===== src/Ident.antt =====
-- core/identifiers.py: case folding and quoting of SQL identifiers.
-- `lower` is Python's `str.lower` on the ASCII letters; other letters are left alone.
pub mod Quoting
pub mod Token
use Prim.Native.Char.{Char, code}
use any2helios_db.Prelude.{
  ℕ, String, ◌<>◌, Bool, true, false, not, ◌&&◌, ◌||◌, List, [], ◌∷◌, str_eq, leb, ◌==◌,
  if◌then◌else◌,
}

-- Each upper-case letter of a text of pairs stands before its lower-case letter.
lower_in : String → Char → Char
lower_in (String.◌∷◌ upper (String.◌∷◌ small rest)) c =
    let found = lower_in rest c in if code upper == code c then small else found
lower_in _ c = c

lower_char : Char → Char
lower_char = lower_in "AaBbCcDdEeFfGgHhIiJjKkLlMmNnOoPpQqRrSsTtUuVvWwXxYyZz"

-- `name.lower()`
unfoldable pub lower : String → String
unfolding lower_char lower_in
lower String.[] = ""
lower (String.◌∷◌ c s) = String.◌∷◌ (lower_char c) (lower s)

-- `fold`
unfoldable pub fold : String → Bool → String
unfolding lower
fold name preserve_case = if preserve_case then name else lower name

-- `_RESERVED`
abbrev pub reserved : List String
reserved =
    "all" ∷ "analyse" ∷ "analyze" ∷ "and" ∷ "any" ∷ "array" ∷ "as" ∷ "asc" ∷ "asymmetric" ∷ "both"
    ∷ "case" ∷ "cast" ∷ "check" ∷ "collate" ∷ "column" ∷ "constraint" ∷ "create" ∷ "current_catalog"
    ∷ "current_date" ∷ "current_role" ∷ "current_time" ∷ "current_timestamp" ∷ "current_user"
    ∷ "default" ∷ "deferrable" ∷ "desc" ∷ "distinct" ∷ "do" ∷ "else" ∷ "end" ∷ "except" ∷ "false"
    ∷ "fetch" ∷ "for" ∷ "foreign" ∷ "from" ∷ "grant" ∷ "group" ∷ "having" ∷ "in" ∷ "initially"
    ∷ "intersect" ∷ "into" ∷ "lateral" ∷ "leading" ∷ "limit" ∷ "localtime" ∷ "localtimestamp"
    ∷ "not" ∷ "null" ∷ "offset" ∷ "on" ∷ "only" ∷ "or" ∷ "order" ∷ "placing" ∷ "primary"
    ∷ "references" ∷ "returning" ∷ "select" ∷ "session_user" ∷ "some" ∷ "symmetric" ∷ "table"
    ∷ "then" ∷ "to" ∷ "trailing" ∷ "true" ∷ "union" ∷ "unique" ∷ "user" ∷ "using" ∷ "variadic"
    ∷ "when" ∷ "where" ∷ "window" ∷ "with" ∷ []

-- `name in names`
unfoldable pub is_member : String → List String → Bool
is_member name [] = false
is_member name (x ∷ xs) = str_eq x name || is_member name xs

is_head : ℕ → Bool
is_head c = (leb b'a' c && leb c b'z') || c == b'_'

is_tail : ℕ → Bool
unfolding is_head
is_tail c = is_head c || (leb b'0' c && leb c b'9')

-- What follows the first character in `_SAFE_IDENT`. The `$` of a Python pattern also matches
-- before a newline that ends the text.
safe_tail : String → Bool
safe_tail String.[] = true
safe_tail (String.◌∷◌ c String.[]) = is_tail (code c) || code c == 10
safe_tail (String.◌∷◌ c s) = is_tail (code c) && safe_tail s

-- `_SAFE_IDENT.match(name)`
unfoldable pub is_safe : String → Bool
unfolding safe_tail is_head is_tail
is_safe String.[] = false
is_safe (String.◌∷◌ c s) = is_head (code c) && safe_tail s

-- `name.replace('"', '""')`
unfoldable pub double_quotes : String → String
double_quotes String.[] = ""
double_quotes (String.◌∷◌ c s) =
    let rest = double_quotes s in
    if code c == 34 then String.◌∷◌ c (String.◌∷◌ c rest) else String.◌∷◌ c rest

-- `'"{}"'.format(name.replace('"', '""'))`
unfoldable pub quoted : String → String
unfolding double_quotes
quoted name = "\"" <> (double_quotes name <> "\"")

-- `quote_ident`
unfoldable pub quote_ident : String → String
unfolding is_safe is_member quoted
quote_ident name = if is_safe name && not (is_member name reserved) then name else quoted name

-- `render_ident`
unfoldable pub render_ident : String → Bool → String
unfolding fold quote_ident
render_ident name preserve_case = quote_ident (fold name preserve_case)
