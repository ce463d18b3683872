-- ===== src/Json.antt =====
-- The values that `json.loads` returns and `json.dumps` takes.
use any2helios_db.Prelude.Int.{ℤ, pos, negsuc}
use any2helios_db.Prelude.{
  ◌==◌, String, Bool, true, false, not, Option, none, some, if◌then◌else◌, str_eq,
}

-- A float is its text and whether it is zero; the items of a list and of an object are in order.
mutual
  pub data Json : Type 0 where
    null : Json
    boolean : Bool → Json
    int : ℤ → Json
    float : String → Bool → Json
    text : String → Json
    array : Items → Json
    object : Members → Json

  pub data Items : Type 0 where
    no_item : Items
    item : Json → Items → Items

  pub data Members : Type 0 where
    no_member : Members
    member : String → Json → Members → Members

-- `message.get(key)` of an object; a key that comes twice has its last value.
abbrev pub or_before : Option Json → Option Json → Option Json
or_before none b = b
or_before (some a) b = some a

unfoldable pub member_of : Members → String → Option Json
member_of no_member key = none
member_of (member k v members) key =
    or_before (member_of members key) (if str_eq k key then some v else none)

abbrev pub or_null : Option Json → Json
or_null none = null
or_null (some v) = v

abbrev is_zero_int : ℤ → Bool
is_zero_int (pos n) = n == 0
is_zero_int (negsuc n) = false

-- The truth value of a value.
abbrev pub is_truthy : Json → Bool
is_truthy null = false
is_truthy (boolean b) = b
is_truthy (int z) = not (is_zero_int z)
is_truthy (float s is_zero) = not is_zero
is_truthy (text s) = not (str_eq s "")
is_truthy (array no_item) = false
is_truthy (array (item v items)) = true
is_truthy (object no_member) = false
is_truthy (object (member k v members)) = true

-- `v or {}`
abbrev pub or_object : Json → Json
or_object v = if is_truthy v then v else object no_member

abbrev pub is_text : Json → String → Bool
is_text (text s) t = str_eq s t
is_text _ t = false
