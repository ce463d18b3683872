-- ===== src/Ident/Token.antt =====
-- How PostgreSQL reads an identifier token: quoted, or a word that is no key word.
use Prim.Native.Char.{Char, code}
use any2helios_db.Prelude.{
  ℕ, Bool, List, [], ◌∷◌, leb, ◌&&◌, ◌||◌, String, true, Option, none, some, ◌==◌, if◌then◌else◌,
}
use any2helios_db.Ident.{lower, is_member}

abbrev pub prefixed : Char → Option String → Option String
prefixed c none = none
prefixed c (some s) = some (String.◌∷◌ c s)

-- Inside quotes: two quotes stand for one, and a quote at the end closes.
unfoldable pub unquote : String → Option String
unquote String.[] = none
unquote (String.◌∷◌ c String.[]) = if code c == 34 then some "" else none
unquote (String.◌∷◌ c (String.◌∷◌ d s)) =
    let doubled = unquote s in
    let plain = unquote (String.◌∷◌ d s) in
    if code c == 34 then (if code d == 34 then prefixed c doubled else none) else prefixed c plain

-- The key words that PostgreSQL reserves, and those that it lets name a type or a function, but no
-- table or column.
abbrev pub key_words : List String
key_words =
    "all" ∷ "analyse" ∷ "analyze" ∷ "and" ∷ "any" ∷ "array" ∷ "as" ∷ "asc" ∷ "asymmetric" ∷ "both"
    ∷ "case" ∷ "cast" ∷ "check" ∷ "collate" ∷ "column" ∷ "constraint" ∷ "create" ∷ "current_catalog"
    ∷ "current_date" ∷ "current_role" ∷ "current_time" ∷ "current_timestamp" ∷ "current_user"
    ∷ "default" ∷ "deferrable" ∷ "desc" ∷ "distinct" ∷ "do" ∷ "else" ∷ "end" ∷ "except" ∷ "false"
    ∷ "fetch" ∷ "for" ∷ "foreign" ∷ "from" ∷ "grant" ∷ "group" ∷ "having" ∷ "in" ∷ "initially"
    ∷ "intersect" ∷ "into" ∷ "lateral" ∷ "leading" ∷ "limit" ∷ "localtime" ∷ "localtimestamp"
    ∷ "not" ∷ "null" ∷ "offset" ∷ "on" ∷ "only" ∷ "or" ∷ "order" ∷ "placing" ∷ "primary"
    ∷ "references" ∷ "returning" ∷ "select" ∷ "session_user" ∷ "some" ∷ "symmetric" ∷ "table"
    ∷ "then" ∷ "to" ∷ "trailing" ∷ "true" ∷ "union" ∷ "unique" ∷ "user" ∷ "using" ∷ "variadic"
    ∷ "when" ∷ "where" ∷ "window" ∷ "with" ∷ []

abbrev pub function_words : List String
function_words =
    "authorization" ∷ "binary" ∷ "collation" ∷ "concurrently" ∷ "cross" ∷ "current_schema"
    ∷ "freeze" ∷ "full" ∷ "ilike" ∷ "inner" ∷ "is" ∷ "isnull" ∷ "join" ∷ "left" ∷ "like" ∷ "natural"
    ∷ "notnull" ∷ "outer" ∷ "overlaps" ∷ "right" ∷ "similar" ∷ "tablesample" ∷ "verbose" ∷ []

abbrev pub is_letter : ℕ → Bool
is_letter c = (leb b'a' c && leb c b'z') || ((leb b'A' c && leb c b'Z') || (c == b'_' || leb 128 c))

-- A letter, a digit or a dollar sign.
abbrev pub is_ident_char : ℕ → Bool
is_ident_char c = is_letter c || ((leb b'0' c && leb c b'9') || c == b'$')

unfoldable pub all_ident_chars : String → Bool
all_ident_chars String.[] = true
all_ident_chars (String.◌∷◌ c s) = let more = all_ident_chars s in is_ident_char (code c) && more

-- A quoted name may not be empty.
abbrev pub not_blank : Option String → Option String
not_blank none = none
not_blank (some String.[]) = none
not_blank (some (String.◌∷◌ c s)) = some (String.◌∷◌ c s)

-- A word stands for itself in lower case, unless it is a key word.
abbrev pub word_name : String → Option String
word_name word =
    if is_member word key_words
    then none
    else if is_member word function_words
    then none
    else some word

-- The table or column that an identifier token of PostgreSQL names; `none` is a syntax error.
unfoldable pub ident_name : String → Option String
unfolding unquote all_ident_chars
ident_name String.[] = none
ident_name (String.◌∷◌ c s) =
    if code c == 34
    then not_blank (unquote s)
    else if is_letter (code c) && all_ident_chars s
    then word_name (lower (String.◌∷◌ c s))
    else none
