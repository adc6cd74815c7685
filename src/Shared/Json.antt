-- ===== src/Shared/Json.antt =====
-- JSON values as the code meets them at run time: what `JSON.parse` returns and `JSON.stringify`
-- takes.
use vulnseal.Prelude.{
  ℕ, String, Bool, false, not, ◌&&◌, ◌==◌, Option, none, some, List, [], ◌∷◌, leb, ◌=ᵇ◌,
  if◌then◌else◌,
}
use vulnseal.Contract.Types.{ascii}
use vulnseal.Shared.Hex.{Text}

-- A JavaScript number: an integer by its sign and magnitude, -0 among them.
pub data Number : Type 0 where
  not_finite : Number
  fraction : Number
  integer : Bool → ℕ → Number

-- A JSON value as the code meets it at run time, `undefined` included; the fields of an object
-- stand in the order of `Object.keys`.
mutual
  pub data Json : Type 0 where
    undefined : Json
    null : Json
    boolean : Bool → Json
    number : Number → Json
    string : Text → Json
    array : Items → Json
    object : Fields → Json

  pub data Items : Type 0 where
    no_items : Items
    item : Json → Items → Items

  pub data Fields : Type 0 where
    no_fields : Fields
    field : Text → Json → Fields → Fields

-- 2 ^ 53 - 1
abbrev pub max_safe_integer : ℕ
max_safe_integer = 9007199254740991

abbrev pub is_safe_integer : Number → Bool
is_safe_integer (integer _ n) = leb n max_safe_integer
is_safe_integer _ = false

-- `fields.key`
unfoldable pub get_field : Text → Fields → Json
unfolding ◌=ᵇ◌
get_field k no_fields = undefined
get_field k (field j v rest) = if j =ᵇ k then v else get_field k rest

-- `Object.keys`
abbrev pub field_keys : Fields → List Text
field_keys no_fields = []
field_keys (field k v rest) = k ∷ field_keys rest

-- `value === 1`
abbrev pub is_one : Json → Bool
is_one (number (integer negative n)) = not negative && (n == 1)
is_one _ = false

-- `typeof value === "string"`
abbrev pub is_text : Json → Option Text
is_text (string t) = some t
is_text _ = none

-- `value === expected`
abbrev pub is_exactly : String → Json → Bool
is_exactly expected (string t) = t =ᵇ ascii expected
is_exactly expected _ = false
