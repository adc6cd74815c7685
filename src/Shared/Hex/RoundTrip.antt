-- ===== src/Shared/Hex/RoundTrip.antt =====
-- Hexadecimal text and bytes determine each other.
use vulnseal.Prelude.{
  ℕ, ◌+◌, ◌*◌, ◌/◌, ◌%◌, ◌<◌, ◌≡◌, refl, sym, ap, ◌∙◌, true, ◌&&◌, [], ◌∷◌, map, arith, Bytes, All,
  all, length, ◌==◌, if◌then◌else◌, ok, err,
}
use vulnseal.Shared.Hex.{
  Text, IsByte, hex_digit, byte_to_hex, bytes_to_hex, to_lower, strip_0x, is_hex, hex_value,
  parse_pairs, hex_to_bytes, invalid_hex,
}

-- One byte as two digits, and back.
hex_digit-facts :
    (n : ℕ)
    → n < 16
    → (is_hex (hex_digit n) ≡ true)
      × (to_lower (hex_digit n) ≡ hex_digit n)
      × (hex_value (hex_digit n) ≡ n)
hex_digit-facts n h = ground arith

byte_to_hex-eq : (b : ℕ) → byte_to_hex b ≡ hex_digit (b / 16) ∷ hex_digit (b % 16) ∷ []
byte_to_hex-eq b = ground arith

bytes_to_hex-cons :
    (b : ℕ) (bs : Bytes)
    → bytes_to_hex (b ∷ bs) ≡ hex_digit (b / 16) ∷ hex_digit (b % 16) ∷ bytes_to_hex bs
unfolding bytes_to_hex
bytes_to_hex-cons b bs = rw byte_to_hex-eq

-- The text of a byte string: lower-case digits, two for each byte, with no `0x`.
module _ (b : ℕ) (bs : Bytes) (byte : IsByte b) where
  high :
      (is_hex (hex_digit (b / 16)) ≡ true)
      × (to_lower (hex_digit (b / 16)) ≡ hex_digit (b / 16))
      × (hex_value (hex_digit (b / 16)) ≡ b / 16)
  high = hex_digit-facts (b / 16) (omega arith)

  low :
      (is_hex (hex_digit (b % 16)) ≡ true)
      × (to_lower (hex_digit (b % 16)) ≡ hex_digit (b % 16))
      × (hex_value (hex_digit (b % 16)) ≡ b % 16)
  low = hex_digit-facts (b % 16) (omega arith)

  strip-cons : strip_0x (bytes_to_hex (b ∷ bs)) ≡ bytes_to_hex (b ∷ bs)
  unfolding strip_0x
  strip-cons = rw bytes_to_hex-cons (ground arith)

pub all_hex-bytes_to_hex : (bs : Bytes) → All IsByte bs → all is_hex (bytes_to_hex bs) ≡ true
unfolding bytes_to_hex
all_hex-bytes_to_hex [] h = refl
all_hex-bytes_to_hex (b ∷ bs) h =
    rw (byte_to_hex-eq, (high b bs h.0).0, (low b bs h.0).0) (all_hex-bytes_to_hex bs h.1)

map_lower-bytes_to_hex :
    (bs : Bytes) → All IsByte bs → map to_lower (bytes_to_hex bs) ≡ bytes_to_hex bs
unfolding bytes_to_hex
map_lower-bytes_to_hex [] h = refl
map_lower-bytes_to_hex (b ∷ bs) h =
    rw byte_to_hex-eq (cc ((high b bs h.0).1, (low b bs h.0).1, map_lower-bytes_to_hex bs h.1))

pub length-bytes_to_hex : (bs : Bytes) → length (bytes_to_hex bs) ≡ 2 * length bs
unfolding bytes_to_hex
length-bytes_to_hex [] = refl
length-bytes_to_hex (b ∷ bs) = rw byte_to_hex-eq (omega (arith, length-bytes_to_hex bs))

strip-bytes_to_hex : (bs : Bytes) → All IsByte bs → strip_0x (bytes_to_hex bs) ≡ bytes_to_hex bs
unfolding bytes_to_hex strip_0x
strip-bytes_to_hex [] h = refl
strip-bytes_to_hex (b ∷ bs) h = strip-cons b bs h.0

parse-bytes_to_hex : (bs : Bytes) → All IsByte bs → parse_pairs (bytes_to_hex bs) ≡ bs
unfolding bytes_to_hex parse_pairs
parse-bytes_to_hex [] h = refl
parse-bytes_to_hex (b ∷ bs) h =
    let value : 16 * hex_value (hex_digit (b / 16)) + hex_value (hex_digit (b % 16)) ≡ b =
      rw ((high b bs h.0).2, (low b bs h.0).2) (omega arith) in
    rw byte_to_hex-eq (cc (value, parse-bytes_to_hex bs h.1))

-- Any byte string is read back from its hexadecimal text.
pub hex_to_bytes-bytes_to_hex :
    (bs : Bytes) → All IsByte bs → hex_to_bytes (bytes_to_hex bs) ≡ ok bs
unfolding hex_to_bytes
hex_to_bytes-bytes_to_hex bs h =
    rw
      (
        map_lower-bytes_to_hex bs h,
        strip-bytes_to_hex bs h,
        all_hex-bytes_to_hex bs h,
        parse-bytes_to_hex bs h,
        length-bytes_to_hex bs,
      )
      (ground arith)

-- Two byte strings with one text are one.
pub bytes_to_hex_injective :
    (a b : Bytes) → All IsByte a → All IsByte b → bytes_to_hex a ≡ bytes_to_hex b → a ≡ b
bytes_to_hex_injective a b ha hb e =
    sym (parse-bytes_to_hex a ha) ∙ ap parse_pairs e ∙ parse-bytes_to_hex b hb

digit_of_value : (c : ℕ) → is_hex c ≡ true → (hex_digit (hex_value c) ≡ c) × (hex_value c < 16)
digit_of_value c h = ground arith

hex-parse_pairs :
    (t : Text)
    → all is_hex t ≡ true
    → length t % 2 ≡ 0
    → (bytes_to_hex (parse_pairs t) ≡ t) × All IsByte (parse_pairs t)
unfolding bytes_to_hex parse_pairs
hex-parse_pairs [] h e = (refl, tt)
hex-parse_pairs (a ∷ []) h e = absurd (omega arith)
hex-parse_pairs (a ∷ b ∷ rest) h e =
    let va = digit_of_value a (ground arith) in
    let vb = digit_of_value b (ground arith) in
    let ih = hex-parse_pairs rest (ground arith) (omega arith) in
    let first : (16 * hex_value a + hex_value b) / 16 ≡ hex_value a = omega (arith, va.1, vb.1) in
    let second : (16 * hex_value a + hex_value b) % 16 ≡ hex_value b = omega (arith, va.1, vb.1) in
    (rw (byte_to_hex-eq, first, second, va.0, vb.0, ih.0), (omega (arith, va.1, vb.1), ih.1))

accepted_text :
    (t : Text) (bs : Bytes)
    → (if all is_hex t && (length t % 2 == 0) then ok (parse_pairs t) else err invalid_hex) ≡ ok bs
    → (all is_hex t ≡ true) × (length t % 2 ≡ 0) × (parse_pairs t ≡ bs)
accepted_text t bs h = ground arith

-- What is accepted is the lower-case hexadecimal text of what comes back, after an optional `0x`.
hex_to_bytes_sound :
    (s : Text) (bs : Bytes)
    → hex_to_bytes s ≡ ok bs
    → (bytes_to_hex bs ≡ strip_0x (map to_lower s)) × All IsByte bs
unfolding hex_to_bytes
hex_to_bytes_sound s bs h =
    let (digits, even, parsed) = accepted_text (strip_0x (map to_lower s)) bs h in
    rw (← parsed) (hex-parse_pairs _ digits even)
