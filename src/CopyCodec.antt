-- ===== src/CopyCodec.antt =====
-- target/copy_codec.py: the text format of COPY, over lists of code points. The delimiter is one
-- character. A row is refused where a text holds a NUL.
pub mod RoundTrip
use any2helios_db.Prelude.{
  ℕ, ◌+◌, ◌/◌, ◌%◌, Bool, true, false, ◌&&◌, ◌||◌, Option, none, some, List, [], ◌∷◌, ◌++◌, ltb,
  ◌==◌, if◌then◌else◌,
}
use any2helios_db.Record.Codec.{Text}
use any2helios_db.Trail.{push_char, is_empty}

-- `shown` is a value of another type, with its `str`.
pub data CopyValue : Type 0 where
  null : CopyValue
  bytes : List ℕ → CopyValue
  text shown : Text → CopyValue

-- `DEFAULT_NULL`
abbrev pub default_null : Text
default_null = b'\\' ∷ b'N' ∷ []

-- `DEFAULT_DELIMITER`
abbrev pub default_delimiter : ℕ
default_delimiter = 9

-- One round of `escape_copy_text`.
abbrev pub escape_char : ℕ → Text
escape_char c =
    if c == b'\\'
    then b'\\' ∷ b'\\' ∷ []
    else if c == 10
    then b'\\' ∷ b'n' ∷ []
    else if c == 9
    then b'\\' ∷ b't' ∷ []
    else if c == 13
    then b'\\' ∷ b'r' ∷ []
    else c ∷ []

-- `escape_copy_text`
unfoldable pub escape_copy_text : Text → Text
escape_copy_text [] = []
escape_copy_text (c ∷ s) = escape_char c ++ escape_copy_text s

-- What `unescape_copy_text` appends for a backslash and the character after it.
abbrev pub unescape_pair : ℕ → Text
unescape_pair c =
    if c == b'n'
    then 10 ∷ []
    else if c == b't'
    then 9 ∷ []
    else if c == b'r'
    then 13 ∷ []
    else if c == b'\\'
    then b'\\' ∷ []
    else b'\\' ∷ c ∷ []

-- `unescape_copy_text`; a backslash at the end stays.
unfoldable pub unescape_copy_text : Text → Text
unescape_copy_text [] = []
unescape_copy_text (c ∷ []) = c ∷ []
unescape_copy_text (c ∷ d ∷ s) =
    let pair = unescape_pair d ++ unescape_copy_text s in
    let plain = c ∷ unescape_copy_text (d ∷ s) in if c == b'\\' then pair else plain

abbrev pub hex_digit : ℕ → ℕ
hex_digit n = if ltb n 10 then b'0' + n else 87 + n

-- `bytes(value).hex()`
unfoldable pub hex : List ℕ → Text
hex [] = []
hex (b ∷ bs) = hex_digit (b / 16) ∷ hex_digit (b % 16) ∷ hex bs

-- `"\x00" in value`
abbrev pub has_nul : Text → Bool
has_nul [] = false
has_nul (c ∷ s) = c == 0 || has_nul s

-- `encode_field`; `none` is its `ValueError`.
unfoldable pub encode_field : Text → CopyValue → Option Text
unfolding escape_copy_text hex
encode_field null_string null = some null_string
encode_field null_string (bytes b) = some (b'\\' ∷ b'\\' ∷ b'x' ∷ hex b)
encode_field null_string (text s) = if has_nul s then none else some (escape_copy_text s)
encode_field null_string (shown s) = some (escape_copy_text s)

abbrev pub cons_field : Option Text → Option (List Text) → Option (List Text)
cons_field none fields = none
cons_field (some f) none = none
cons_field (some f) (some fields) = some (f ∷ fields)

unfoldable pub encode_fields : Text → List CopyValue → Option (List Text)
unfolding encode_field
encode_fields null_string [] = some []
encode_fields null_string (v ∷ vs) =
    let rest = encode_fields null_string vs in cons_field (encode_field null_string v) rest

-- `delimiter.join(fields)`
unfoldable pub join_fields : ℕ → List Text → Text
join_fields delimiter [] = []
join_fields delimiter (f ∷ []) = f
join_fields delimiter (f ∷ g ∷ fs) = f ++ delimiter ∷ join_fields delimiter (g ∷ fs)

unfoldable pub finish_row : ℕ → Option (List Text) → Option Text
unfolding join_fields
finish_row delimiter none = none
finish_row delimiter (some fields) = some (join_fields delimiter fields ++ 10 ∷ [])

-- `encode_row`
unfoldable pub encode_row : ℕ → Text → List CopyValue → Option Text
unfolding encode_fields finish_row
encode_row delimiter null_string vs = finish_row delimiter (encode_fields null_string vs)

-- `line.rstrip("\n")`
unfoldable pub rstrip_newlines : Text → Text
rstrip_newlines [] = []
rstrip_newlines (c ∷ s) =
    let rest = rstrip_newlines s in if is_empty rest && c == 10 then [] else c ∷ rest

-- `line.split(delimiter)`
unfoldable pub split_fields : ℕ → Text → List Text
split_fields delimiter [] = [] ∷ []
split_fields delimiter (c ∷ s) =
    let rest = split_fields delimiter s in if c == delimiter then [] ∷ rest else push_char c rest

abbrev pub text_eq : Text → Text → Bool
text_eq [] [] = true
text_eq (c ∷ s) (d ∷ t) = c == d && text_eq s t
text_eq _ _ = false

unfoldable pub decode_field : Text → Text → Option Text
unfolding unescape_copy_text
decode_field null_string raw =
    if text_eq raw null_string then none else some (unescape_copy_text raw)

unfoldable pub decode_fields : Text → List Text → List (Option Text)
unfolding decode_field
decode_fields null_string [] = []
decode_fields null_string (raw ∷ raws) =
    decode_field null_string raw ∷ decode_fields null_string raws

-- `decode_row`
unfoldable pub decode_row : ℕ → Text → Text → List (Option Text)
unfolding decode_fields split_fields rstrip_newlines
decode_row delimiter null_string line =
    decode_fields null_string (split_fields delimiter (rstrip_newlines line))
