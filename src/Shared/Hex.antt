-- ===== src/Shared/Hex.antt =====
-- packages/shared/src/encoding.ts: bytes as hexadecimal text, and the 32-byte check. A text is the
-- list of its UTF-16 code units; a byte is a number below 256.
pub mod RoundTrip
use vulnseal.Prelude.{
  ℕ, ◌+◌, ◌-◌, ◌*◌, ◌/◌, ◌%◌, ◌<◌, Bool, ◌&&◌, ◌||◌, List, [], ◌∷◌, ◌++◌, map, Bytes, All, all,
  length, ltb, leb, ◌==◌, if◌then◌else◌, Result, ok, err, ◌>>=◌, ◌>>◌, guard,
}

abbrev pub Text : Type 0
Text = List ℕ

pub data EncodingError : Type 0 where
  invalid_hex : EncodingError
  not_32_bytes : EncodingError

abbrev pub IsByte : ℕ → Type 0
IsByte b = b < 256

-- One digit of `toString(16)`.
abbrev pub hex_digit : ℕ → ℕ
hex_digit n = if ltb n 10 then 48 + n else 87 + n

-- `byte.toString(16).padStart(2, "0")`
abbrev pub byte_to_hex : ℕ → Text
byte_to_hex b =
    if ltb b 16 then b'0' ∷ hex_digit b ∷ [] else hex_digit (b / 16) ∷ hex_digit (b % 16) ∷ []

unfoldable pub bytes_to_hex : Bytes → Text
bytes_to_hex [] = []
bytes_to_hex (b ∷ bs) = byte_to_hex b ++ bytes_to_hex bs

-- `toLowerCase`, of an ASCII letter. No other letter becomes a hexadecimal digit or an `x`.
abbrev pub to_lower : ℕ → ℕ
to_lower c = if leb b'A' c && leb c b'Z' then c + 32 else c

-- `replace(/^0x/, "")`
unfoldable pub strip_0x : Text → Text
strip_0x (z ∷ x ∷ rest) = if (z == b'0') && (x == b'x') then rest else z ∷ x ∷ rest
strip_0x s = s

-- `[0-9a-f]`
abbrev pub is_hex : ℕ → Bool
is_hex c = (leb b'0' c && leb c b'9') || (leb b'a' c && leb c b'f')

-- `parseInt` of one digit.
abbrev pub hex_value : ℕ → ℕ
hex_value c = if leb c b'9' then c - 48 else c - 87

-- The pairs of `match(/.{2}/g)`, each through `parseInt(pair, 16)`.
unfoldable pub parse_pairs : Text → Bytes
parse_pairs (a ∷ b ∷ rest) = (16 * hex_value a + hex_value b) ∷ parse_pairs rest
parse_pairs _ = []

unfoldable pub hex_to_bytes : Text → Result EncodingError Bytes
unfolding strip_0x parse_pairs
hex_to_bytes value =
    let normalized = strip_0x (map to_lower value) in
    if all is_hex normalized && (length normalized % 2 == 0)
    then ok (parse_pairs normalized)
    else err invalid_hex

unfoldable pub assert_bytes32 : Bytes → Result EncodingError Bytes
assert_bytes32 value = if length value == 32 then ok value else err not_32_bytes
