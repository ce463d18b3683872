-- ===== src/Mcp/Auth.antt =====
-- mcp/auth.py: the tokens, their roles and the authentication of a request. A text is the list of its
-- characters; an exception is `none`.
use any2helios_db.Prelude.{
  ℕ, ◌+◌, Bool, true, false, not, ◌&&◌, ◌||◌, Option, none, some, List, [], ◌∷◌, ◌++◌, map, leb,
  ◌==◌, if◌then◌else◌,
}
use any2helios_db.Record.Codec.{Text}
use any2helios_db.Trail.{is_space, strip_left, strip, is_empty}
use any2helios_db.CopyCodec.{text_eq}

pub data Role : Type 0 where
  viewer operator admin : Role

-- `_ROLE_RANK`
abbrev pub rank : Role → ℕ
rank viewer = 0
rank operator = 1
rank admin = 2

-- `Role.can`
unfoldable pub can : Role → Role → Bool
can role required = leb (rank required) (rank role)

-- `Role.value`
abbrev pub role_value : Role → Text
role_value viewer = b'v' ∷ b'i' ∷ b'e' ∷ b'w' ∷ b'e' ∷ b'r' ∷ []
role_value operator = b'o' ∷ b'p' ∷ b'e' ∷ b'r' ∷ b'a' ∷ b't' ∷ b'o' ∷ b'r' ∷ []
role_value admin = b'a' ∷ b'd' ∷ b'm' ∷ b'i' ∷ b'n' ∷ []

-- `Role(role_s)`
unfoldable pub role_of : Text → Option Role
role_of s =
    if text_eq s (role_value viewer)
    then some viewer
    else if text_eq s (role_value operator)
    then some operator
    else if text_eq s (role_value admin)
    then some admin
    else none

-- `str.lower` as far as the words that it is compared with can tell: no other character becomes one
-- of their letters.
abbrev pub lower_char : ℕ → ℕ
lower_char c = if leb 65 c && leb c 90 then c + 32 else c

abbrev pub lower_text : Text → Text
lower_text s = map lower_char s

-- Where `str.splitlines` cuts. The empty line that this finds inside "\r\n" is passed over as blank.
abbrev pub is_line_break : ℕ → Bool
is_line_break c =
    (leb 10 c && leb c 13) || (leb 28 c && leb c 30) || c == 133 || c == 8232 || c == 8233

-- The pieces of a text between the characters of a kind, empty ones too.
unfoldable pub cut_at : (ℕ → Bool) → Text → Text → List Text
cut_at is_cut piece [] = piece ∷ []
cut_at is_cut piece (c ∷ s) =
    let next = cut_at is_cut [] s in
    let longer = cut_at is_cut (piece ++ c ∷ []) s in if is_cut c then piece ∷ next else longer

-- `text.splitlines()`, and `text.replace(",", " ").split()`; blank pieces are passed over later.
unfoldable pub chunks_of : Bool → Text → List Text
unfolding cut_at is_space
chunks_of true text = cut_at is_line_break [] text
chunks_of false text = cut_at (λ c. is_space c || c == 44) [] text

-- An exception ends what would follow.
abbrev pub and_then : {A B : Type 0} → Option A → (A → Option B) → Option B
and_then none k = none
and_then (some a) k = k a

abbrev pub or_else : {A : Type 0} → Option A → Option A → Option A
or_else none b = b
or_else (some a) b = some a

abbrev pub push_front : ℕ → Option (Text × Text) → Option (Text × Text)
push_front c none = none
push_front c (some (a, b)) = some (c ∷ a, b)

-- `line.partition(delim)` where the delimiter occurs: what is before the first one and behind it.
unfoldable pub partition : ℕ → Text → Option (Text × Text)
partition delim [] = none
partition delim (c ∷ s) =
    let rest = partition delim s in if c == delim then some ([], s) else push_front c rest

-- The delimiter is ":", else "=", else the first space.
unfoldable pub split_pair : Text → Option (Text × Text)
unfolding partition
split_pair line =
    or_else (partition 58 line)
      (or_else (partition 61 line) (or_else (partition 32 line) (some (line, []))))

-- A dictionary of tokens, the last written first.
abbrev pub Tokens : Type 0
Tokens = List (Text × Role)

-- `out[token] = Role(role_s)`, or the error.
unfoldable pub add_pair : Text × Text → Tokens → Option Tokens
unfolding role_of strip strip_left
add_pair (token, role_s) out =
    if is_empty (strip token) || is_empty (strip role_s)
    then none
    else and_then (role_of (lower_text (strip role_s))) (λ role. some ((strip token, role) ∷ out))

abbrev pub starts_with : ℕ → Text → Bool
starts_with c [] = false
starts_with c (d ∷ s) = d == c

-- One round of the loop: a blank line and a comment are passed over.
unfoldable pub parse_line : Text → Tokens → Option Tokens
unfolding add_pair split_pair strip strip_left
parse_line raw out =
    let line = strip raw in
    if is_empty line || starts_with 35 line
    then some out
    else and_then (split_pair line) (λ pair. add_pair pair out)

unfoldable pub parse_loop : List Text → Tokens → Option Tokens
unfolding parse_line
parse_loop [] out = some out
parse_loop (raw ∷ raws) out = and_then (parse_line raw out) (parse_loop raws)

-- `_parse_pairs`
unfoldable pub parse_pairs : Bool → Text → Option Tokens
unfolding parse_loop chunks_of
parse_pairs sep_lines text = parse_loop (chunks_of sep_lines text) []

-- The file's tokens go before those of the environment; `some none` is a file that is not found.
unfoldable pub and_file : Option (Option Text) → Tokens → Option Tokens
unfolding parse_pairs
and_file none mapping = some mapping
and_file (some none) mapping = none
and_file (some (some contents)) mapping =
    and_then (parse_pairs true contents) (λ from_file. some (from_file ++ mapping))

-- `load_tokens`, with the text of the environment variable and that of the file, if a path is set.
unfoldable pub load_tokens : Text → Option (Option Text) → Option Tokens
unfolding parse_pairs and_file
load_tokens env file = and_then (parse_pairs false env) (λ mapping. and_file file mapping)

-- `self._tokens.get(token)`
unfoldable pub role_for : Tokens → Text → Option Role
role_for [] token = none
role_for ((t, role) ∷ tokens) token =
    let rest = role_for tokens token in if text_eq t token then some role else rest

-- The first word of a text without leading space, and what is behind it.
abbrev pub first_word : Text → Text × Text
first_word [] = ([], [])
first_word (c ∷ s) =
    let rest = first_word s in if is_space c then ([], c ∷ s) else (c ∷ rest.0, rest.1)

abbrev pub bearer : Text
bearer = b'b' ∷ b'e' ∷ b'a' ∷ b'r' ∷ b'e' ∷ b'r' ∷ []

-- `extract_bearer`; `none` is the `AuthError`. A second part that is blank does not come up, since
-- `split` takes leading space off and `strip` leaves the rest.
unfoldable pub extract_bearer : Option Text → Option Text
extract_bearer none = none
extract_bearer (some authorization) =
    let parts = first_word (strip_left authorization) in
    if text_eq (lower_text parts.0) bearer && not (is_empty (strip parts.1))
    then some (strip parts.1)
    else none

-- `authenticate`; the token's fingerprint is left out, as only the role decides.
unfoldable pub authenticate : Tokens → Text → Option Role
unfolding role_for
authenticate tokens token = role_for tokens token

-- `authenticate_header`
unfoldable pub authenticate_header : Tokens → Option Text → Option Role
unfolding extract_bearer authenticate
authenticate_header tokens authorization =
    and_then (extract_bearer authorization) (authenticate tokens)

-- What `write_token_file` leaves in the file, which held `contents`.
unfoldable pub write_token_file : Text → Role → Bool → Text → Text
write_token_file token role append contents =
    (if append then contents else []) ++ (token ++ 58 ∷ (role_value role ++ 10 ∷ []))
