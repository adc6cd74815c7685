-- ===== src/Shared/Base64.antt =====
-- packages/shared/src/encoding.ts: bytes as base64url text. `btoa` and `atob` are JavaScript's:
-- six-bit groups of a byte string as letters, filled up with `=` to a multiple of four.
pub mod RoundTrip
use vulnseal.Prelude.{
  ℕ, ◌+◌, ◌-◌, ◌*◌, ◌/◌, ◌%◌, ◌<◌, Bool, true, false, not, ◌&&◌, ◌||◌, Option, none, some, List, [],
  ◌∷◌, ◌++◌, map, Bytes, all, length, replicate, ltb, leb, ◌==◌, ◌=ᵇ◌, if◌then◌else◌, Result, ok,
  err,
}
use vulnseal.Shared.Hex.{Text}

pub data Base64Error : Type 0 where
  invalid_text : Base64Error
  invalid_character : Base64Error
  noncanonical : Base64Error

-- The six-bit groups of a byte string, the last one filled up with zero bits.
unfoldable pub sextets : Bytes → List ℕ
sextets (a ∷ b ∷ c ∷ rest) =
    a / 4 ∷ (a % 4 * 16 + b / 16) ∷ (b % 16 * 4 + c / 64) ∷ c % 64 ∷ sextets rest
sextets (a ∷ b ∷ []) = a / 4 ∷ (a % 4 * 16 + b / 16) ∷ b % 16 * 4 ∷ []
sextets (a ∷ []) = a / 4 ∷ a % 4 * 16 ∷ []
sextets [] = []

-- The bytes of six-bit groups; what is left of the last byte is dropped.
unfoldable pub octets : List ℕ → Bytes
octets (a ∷ b ∷ c ∷ d ∷ rest) =
    (a * 4 + b / 16) ∷ (b % 16 * 16 + c / 4) ∷ (c % 4 * 64 + d) ∷ octets rest
octets (a ∷ b ∷ c ∷ []) = (a * 4 + b / 16) ∷ (b % 16 * 16 + c / 4) ∷ []
octets (a ∷ b ∷ []) = (a * 4 + b / 16) ∷ []
octets _ = []

-- The letter of six bits.
abbrev pub letter : ℕ → ℕ
letter n =
    if ltb n 26
    then n + 65
    else if ltb n 52
    then n + 71
    else if ltb n 62
    then n - 4
    else if n == 62
    then b'+'
    else b'/'

-- The six bits of a letter.
abbrev pub letter_value : ℕ → ℕ
letter_value c =
    if c == b'+'
    then 62
    else if c == b'/'
    then 63
    else if ltb c 65
    then c + 4
    else if ltb c 97
    then c - 65
    else c - 71

abbrev pub is_alphanumeric : ℕ → Bool
is_alphanumeric c =
    (leb b'A' c && leb c b'Z') || (leb b'a' c && leb c b'z') || (leb b'0' c && leb c b'9')

abbrev pub is_letter : ℕ → Bool
is_letter c = is_alphanumeric c || (c == b'+') || (c == b'/')

-- `[A-Za-z0-9_-]`
abbrev pub is_base64url : ℕ → Bool
is_base64url c = is_alphanumeric c || (c == b'_') || (c == b'-')

-- How many `=` a text of this length lacks: `(4 - (length % 4)) % 4`.
abbrev pub padding : ℕ → List ℕ
padding n = replicate ((4 - n % 4) % 4) b'='

unfoldable pub btoa : Bytes → Text
unfolding sextets
btoa bs = let letters = map letter (sextets bs) in letters ++ padding (length letters)

-- One `=` at the end is removed, if there is one.
unfoldable pub drop_pad : Text → Text
drop_pad [] = []
drop_pad (c ∷ []) = if c == b'=' then [] else c ∷ []
drop_pad (c ∷ d ∷ rest) = c ∷ drop_pad (d ∷ rest)

unfoldable pub atob : Text → Option Bytes
unfolding drop_pad octets
atob t =
    let bare = if length t % 4 == 0 then drop_pad (drop_pad t) else t in
    if not (length bare % 4 == 1) && all is_letter bare
    then some (octets (map letter_value bare))
    else none

-- `replaceAll("+", "-").replaceAll("/", "_")`, and back.
abbrev pub to_url : ℕ → ℕ
to_url c = if c == b'+' then b'-' else if c == b'/' then b'_' else c

abbrev pub from_url : ℕ → ℕ
from_url c = if c == b'-' then b'+' else if c == b'_' then b'/' else c

-- `replace(/=+$/, "")`
unfoldable pub strip_padding : Text → Text
strip_padding [] = []
strip_padding (c ∷ t) = elim (strip_padding t) [
  | [] ↦ if c == b'=' then [] else c ∷ []
  | d ∷ rest ↦ c ∷ d ∷ rest
]

unfoldable pub bytes_to_base64url : Bytes → Text
unfolding btoa strip_padding
bytes_to_base64url value = strip_padding (map to_url (btoa value))

abbrev pub nonempty : Text → Bool
nonempty [] = false
nonempty (_ ∷ _) = true

unfoldable pub base64url_to_bytes : Text → Result Base64Error Bytes
unfolding atob bytes_to_base64url ◌=ᵇ◌
base64url_to_bytes value =
    if nonempty value && all is_base64url value
    then elim (atob (map from_url value ++ padding (length value))) [
      | none ↦ err invalid_character
      | some bytes ↦ if bytes_to_base64url bytes =ᵇ value then ok bytes else err noncanonical
    ]
    else err invalid_text
