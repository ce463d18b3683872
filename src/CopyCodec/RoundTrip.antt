-- ===== src/CopyCodec/RoundTrip.antt =====
-- A row that is written is read back as it was.
use any2helios_db.Prelude.{
  ℕ, ◌≤◌, ◌/◌, ◌%◌, ◌≡◌, refl, ap, ◌∙◌, false, Option, none, some, List, [], ◌∷◌, ◌++◌, ◌==◌, arith,
  Bool-cases, inl, inr,
}
use any2helios_db.Record.Codec.{Text}
use any2helios_db.Trail.{is_empty}
use any2helios_db.CopyCodec.{
  CopyValue, null, bytes, text, shown, default_null, default_delimiter, escape_char,
  escape_copy_text, unescape_copy_text, hex_digit, hex, has_nul, encode_field, encode_fields,
  join_fields, finish_row, encode_row, rstrip_newlines, split_fields, text_eq, decode_field,
  decode_fields, decode_row,
}

-- What a reader of the row sees: NULL, the text, or the bytes as `\x` and hexadecimal digits.
abbrev pub seen : CopyValue → Option Text
seen null = none
seen (bytes b) = some (b'\\' ∷ b'x' ∷ hex b)
seen (text s) = some s
seen (shown s) = some s

abbrev pub seen_row : List CopyValue → List (Option Text)
seen_row [] = []
seen_row (v ∷ vs) = seen v ∷ seen_row vs

-- The value can be written: a text has no NUL.
abbrev IsWritable : CopyValue → Type 0
IsWritable null = Unit
IsWritable (bytes b) = Unit
IsWritable (text s) = has_nul s ≡ false
IsWritable (shown s) = Unit

abbrev pub AreWritable : List CopyValue → Type 0
AreWritable [] = Unit
AreWritable (v ∷ vs) = IsWritable v × AreWritable vs

-- Neither the delimiter nor a newline stands in a field.
abbrev IsField : Text → Type 0
IsField [] = Unit
IsField (c ∷ s) = (((c == 9) ≡ false) × ((c == 10) ≡ false)) × IsField s

IsField-escape_copy_text : (s : Text) → IsField (escape_copy_text s)
unfolding escape_copy_text
IsField-escape_copy_text [] = tt
IsField-escape_copy_text (c ∷ s) = ground (arith, IsField-escape_copy_text s)

unescape_copy_text-plain :
    (c : ℕ) (s : Text)
    → (c == b'\\') ≡ false
    → unescape_copy_text (c ∷ s) ≡ c ∷ unescape_copy_text s
unfolding unescape_copy_text
unescape_copy_text-plain c [] h = refl
unescape_copy_text-plain c (d ∷ s) h = rw h refl

-- One character, whatever follows.
unescape-escape_char :
    (c : ℕ) (t : Text) → unescape_copy_text (escape_char c ++ t) ≡ c ∷ unescape_copy_text t
unescape-escape_char c t = elim (Bool-cases (c == b'\\')) [
  | inl is ↦
      let e : b'\\' ≡ c = ground arith in
      rw is (unfold unescape_copy_text in ap (λ (d : ℕ). d ∷ unescape_copy_text t) e)
  | inr not_backslash ↦ elim (Bool-cases (c == 10)) [
    | inl is ↦
        let e : 10 ≡ c = ground arith in
        rw (not_backslash, is)
          (unfold unescape_copy_text in ap (λ (d : ℕ). d ∷ unescape_copy_text t) e)
    | inr not_newline ↦ elim (Bool-cases (c == 9)) [
      | inl is ↦
          let e : 9 ≡ c = ground arith in
          rw (not_backslash, not_newline, is)
            (unfold unescape_copy_text in ap (λ (d : ℕ). d ∷ unescape_copy_text t) e)
      | inr not_tab ↦ elim (Bool-cases (c == 13)) [
        | inl is ↦
            let e : 13 ≡ c = ground arith in
            rw (not_backslash, not_newline, not_tab, is)
              (unfold unescape_copy_text in ap (λ (d : ℕ). d ∷ unescape_copy_text t) e)
        | inr not_return ↦
            rw (not_backslash, not_newline, not_tab, not_return)
              (unescape_copy_text-plain c t not_backslash)
      ]
    ]
  ]
]

-- `unescape_copy_text` undoes `escape_copy_text` on every text.
pub unescape-escape : (s : Text) → unescape_copy_text (escape_copy_text s) ≡ s
unfolding escape_copy_text
unescape-escape [] = unfold unescape_copy_text in refl
unescape-escape (c ∷ s) =
    unescape-escape_char c (escape_copy_text s) ∙ ap (λ (t : Text). c ∷ t) (unescape-escape s)

-- No escaped text is the mark of a NULL.
escape-ne-null : (s : Text) → text_eq (escape_copy_text s) default_null ≡ false
unfolding escape_copy_text
escape-ne-null [] = refl
escape-ne-null (c ∷ s) = ground arith

hex_digit-plain : (n : ℕ) → (b'0' ≤ hex_digit n) × ((hex_digit n == b'\\') ≡ false)
hex_digit-plain n = ground arith

IsField-hex : (b : List ℕ) → IsField (hex b)
unfolding hex
IsField-hex [] = tt
IsField-hex (c ∷ b) =
    ground (arith, hex_digit-plain (c / 16), hex_digit-plain (c % 16), IsField-hex b)

unescape-hex : (b : List ℕ) → unescape_copy_text (hex b) ≡ hex b
unfolding hex
unescape-hex [] = unfold unescape_copy_text in refl
unescape-hex (c ∷ b) =
    unescape_copy_text-plain (hex_digit (c / 16)) (hex_digit (c % 16) ∷ hex b)
      (hex_digit-plain (c / 16)).1
    ∙ ap (λ (t : Text). hex_digit (c / 16) ∷ t)
        (unescape_copy_text-plain (hex_digit (c % 16)) (hex b) (hex_digit-plain (c % 16)).1
          ∙ ap (λ (t : Text). hex_digit (c % 16) ∷ t) (unescape-hex b))

-- A field by itself.
abbrev Written : CopyValue → Type 0
Written v =
    (f : Text) × (encode_field default_null v ≡ some f)
    × IsField f
    × (decode_field default_null f ≡ seen v)

encode_field-Written : (v : CopyValue) → IsWritable v → Written v
unfolding encode_field decode_field
encode_field-Written null h = (default_null, refl, ground arith, refl)
encode_field-Written (bytes b) h = (
  b'\\' ∷ b'\\' ∷ b'x' ∷ hex b,
  refl,
  ground (arith, IsField-hex b),
  ap (λ (t : Text). some (b'\\' ∷ t))
      (unescape_copy_text-plain b'x' (hex b) refl ∙ ap (λ (t : Text). b'x' ∷ t) (unescape-hex b)),
)
encode_field-Written (text s) h = (
  escape_copy_text s,
  rw h refl,
  IsField-escape_copy_text s,
  rw (escape-ne-null s) (ap some (unescape-escape s)),
)
encode_field-Written (shown s) h = (
  escape_copy_text s,
  refl,
  IsField-escape_copy_text s,
  rw (escape-ne-null s) (ap some (unescape-escape s)),
)

split_fields-field :
    (f rest : Text)
    → IsField f
    → split_fields default_delimiter (f ++ 9 ∷ rest) ≡ f ∷ split_fields default_delimiter rest
unfolding split_fields
split_fields-field [] rest h = refl
split_fields-field (c ∷ f) rest h = rw (h.0.0, split_fields-field f rest h.1) refl

split_fields-last : (f : Text) → IsField f → split_fields default_delimiter f ≡ f ∷ []
unfolding split_fields
split_fields-last [] h = refl
split_fields-last (c ∷ f) h = rw (h.0.0, split_fields-last f h.1) refl

-- No newline stands in the text.
abbrev Lacks : Text → Type 0
Lacks [] = Unit
Lacks (c ∷ s) = ((c == 10) ≡ false) × Lacks s

is_empty-rstrip_newlines :
    (c : ℕ) (s : Text) → ((c == 10) ≡ false) → rstrip_newlines (c ∷ s) ≡ c ∷ rstrip_newlines s
unfolding rstrip_newlines
is_empty-rstrip_newlines c s h = elim (Bool-cases (is_empty (rstrip_newlines s))) [
  | inl e ↦ rw (e, h) refl
  | inr e ↦ rw (e) refl
]

rstrip_newlines-line : (s : Text) → Lacks s → rstrip_newlines (s ++ 10 ∷ []) ≡ s
rstrip_newlines-line [] h = unfold rstrip_newlines in refl
rstrip_newlines-line (c ∷ s) h =
    is_empty-rstrip_newlines c (s ++ 10 ∷ []) h.0
    ∙ ap (λ (t : Text). c ∷ t) (rstrip_newlines-line s h.1)

Lacks-field : (f : Text) → IsField f → Lacks f
Lacks-field [] h = tt
Lacks-field (c ∷ f) h = (h.0.1, Lacks-field f h.1)

Lacks-append : (s t : Text) → Lacks s → Lacks t → Lacks (s ++ t)
Lacks-append [] t hs ht = ht
Lacks-append (c ∷ s) t hs ht = (hs.0, Lacks-append s t hs.1 ht)

-- The fields of a row, joined and split again.
abbrev AllWritten : List CopyValue → Type 0
AllWritten vs =
    (f : Text) × (fs : List Text) × (encode_fields default_null vs ≡ some (f ∷ fs))
    × Lacks (join_fields default_delimiter (f ∷ fs))
    × (decode_fields default_null
          (split_fields default_delimiter (join_fields default_delimiter (f ∷ fs)))
        ≡ seen_row vs)

encode_fields-AllWritten :
    (v : CopyValue) (vs : List CopyValue) → AreWritable (v ∷ vs) → AllWritten (v ∷ vs)
unfolding encode_fields decode_fields join_fields
encode_fields-AllWritten v [] h =
    let (f, e, is_field, back) = encode_field-Written v h.0 in
    (f, [], rw e refl, Lacks-field f is_field, rw (split_fields-last f is_field, back) refl)
encode_fields-AllWritten v (w ∷ vs) h =
    let (f, e, is_field, back) = encode_field-Written v h.0 in
    let (g, gs, es, lacks, backs) = encode_fields-AllWritten w vs h.1 in
    let rest = join_fields default_delimiter (g ∷ gs) in
    (
      f,
      g ∷ gs,
      rw (e, es) refl,
      Lacks-append f (9 ∷ rest) (Lacks-field f is_field) (refl, lacks),
      rw (split_fields-field f rest is_field, back, backs) refl,
    )

-- A row of at least one value whose texts have no NUL is encoded, and decoding the line gives back
-- each value: NULL as NULL, a text as itself, bytes as `\x` and their hexadecimal digits.
pub decode_row-encode_row :
    (v : CopyValue) (vs : List CopyValue)
    → AreWritable (v ∷ vs)
    → (line : Text) × (encode_row default_delimiter default_null (v ∷ vs) ≡ some line)
      × (decode_row default_delimiter default_null line ≡ seen_row (v ∷ vs))
unfolding encode_row decode_row finish_row
decode_row-encode_row v vs h =
    let (f, fs, e, lacks, back) = encode_fields-AllWritten v vs h in
    let body = join_fields default_delimiter (f ∷ fs) in
    (
      body ++ 10 ∷ [],
      ap (finish_row default_delimiter) e,
      rw (rstrip_newlines-line body lacks) back,
    )
