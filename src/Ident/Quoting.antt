-- ===== src/Ident/Quoting.antt =====
-- The server reads back from a rendered identifier the name that was rendered.
use Prim.Native.Char.{Char, code}
use any2helios_db.Prelude.{ℕ, Bool, List, [], ◌∷◌, leb, ◌&&◌, String, true, false, ◌==◌}
use any2helios_db.Ident.{is_member}

abbrev pub ends_newline : String → Bool
ends_newline String.[] = false
ends_newline (String.◌∷◌ c String.[]) = code c == 10
ends_newline (String.◌∷◌ c (String.◌∷◌ d s)) = ends_newline (String.◌∷◌ d s)

abbrev is_upper : ℕ → Bool
is_upper c = leb b'A' c && leb c b'Z'

-- Every other character is an upper-case letter.
are_pairs : String → Bool
are_pairs (String.◌∷◌ upper (String.◌∷◌ small rest)) =
    let more = are_pairs rest in is_upper (code upper) && more
are_pairs _ = true

all_members : List String → List String → Bool
all_members [] names = true
all_members (w ∷ ws) names = let more = all_members ws names in is_member w names && more
