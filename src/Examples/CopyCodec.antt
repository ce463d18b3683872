-- ===== src/Examples/CopyCodec.antt =====
-- The row codec at one row, and on the characters that it escapes.
use any2helios_db.Prelude.{◌≡◌, refl, some, none, [], ◌∷◌}
use any2helios_db.Record.Codec.{Text}
use any2helios_db.CopyCodec.{
  null, bytes, text, default_null, default_delimiter, encode_row, decode_row, encode_fields,
  finish_row,
}
use any2helios_db.CopyCodec.RoundTrip.{seen_row, decode_row-encode_row}

decode_row-encode_row_example :
    (line : Text) × (encode_row default_delimiter default_null
        (text (65 ∷ 9 ∷ b'\\' ∷ []) ∷ null ∷ bytes (222 ∷ []) ∷ [])
      ≡ some line)
    × (decode_row default_delimiter default_null line
        ≡ seen_row (text (65 ∷ 9 ∷ b'\\' ∷ []) ∷ null ∷ bytes (222 ∷ []) ∷ []))
decode_row-encode_row_example =
    decode_row-encode_row (text (65 ∷ 9 ∷ b'\\' ∷ [])) (null ∷ bytes (222 ∷ []) ∷ [])
      (refl, (tt, (tt, tt)))

-- A text with a NUL is refused.
encode_row-nul : encode_row default_delimiter default_null (text (65 ∷ 0 ∷ []) ∷ []) ≡ none
unfolding encode_row encode_fields finish_row
encode_row-nul = refl

-- A delimiter of the caller's own, here a comma, is not escaped: one value comes back as two.
decode_row-comma :
    (line : Text) × (encode_row b',' default_null (text (65 ∷ b',' ∷ 66 ∷ []) ∷ []) ≡ some line)
    × (decode_row b',' default_null line ≡ some (65 ∷ []) ∷ some (66 ∷ []) ∷ [])
unfolding encode_row encode_fields finish_row decode_row
decode_row-comma = (65 ∷ b',' ∷ 66 ∷ 10 ∷ [], refl, refl)
