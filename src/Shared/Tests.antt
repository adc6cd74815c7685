-- ===== src/Shared/Tests.antt =====
-- The encodings' theorems at concrete bytes and texts.
use vulnseal.Prelude.{◌≡◌, refl, [], ◌∷◌, arith, Bytes, All, ok, ◌=ᵇ◌}
use vulnseal.Contract.Types.{ascii}
use vulnseal.Shared.Hex.{IsByte, bytes_to_hex, hex_to_bytes, strip_0x, parse_pairs}
use vulnseal.Shared.Base64.{
  bytes_to_base64url, base64url_to_bytes, sextets, octets, btoa, atob, drop_pad, strip_padding,
}

abbrev some_bytes : Bytes
some_bytes = 0 ∷ 15 ∷ 171 ∷ 255 ∷ []

some_bytes-IsByte : All IsByte some_bytes
some_bytes-IsByte = (omega arith, (omega arith, (omega arith, (omega arith, tt))))

written : bytes_to_hex some_bytes ≡ ascii "000fabff"
unfolding bytes_to_hex
written = refl

read : hex_to_bytes (ascii "0x000FABff") ≡ ok some_bytes
unfolding hex_to_bytes strip_0x parse_pairs
read = refl

encoded : bytes_to_base64url some_bytes ≡ ascii "AA-r_w"
unfolding bytes_to_base64url sextets btoa strip_padding
encoded = refl

decoded : base64url_to_bytes (ascii "AA-r_w") ≡ ok some_bytes
unfolding base64url_to_bytes bytes_to_base64url sextets octets btoa atob drop_pad strip_padding ◌=ᵇ◌
decoded = refl
