-- ===== src/Shared/Sample.antt =====
-- A concrete platform: a toy cipher with a tag, white space of three kinds, one of which has another
-- as its normal form, and the JSON texts of one report and of its envelope.
use vulnseal.Prelude.{
  ℕ, zero, suc, ◌+◌, ◌%◌, ◌≡◌, refl, ap, ◌∙◌, arith, true, ◌||◌, Option, none, some, [], ◌∷◌, ◌++◌,
  Bytes, All, all, length, length-append, replicate, ◌==◌, if◌then◌else◌,
}
use vulnseal.Contract.Types.{ascii}
use vulnseal.Shared.Hex.{Text, IsByte, is_hex}
use vulnseal.Shared.Json.{Json, object, field}
use vulnseal.Shared.Envelope.{CiphertextEnvelope, write_envelope}
use vulnseal.Shared.Report.{VulnerabilityReport, write_report}
use vulnseal.Shared.Report.Settled.{TextLaws, is_ascii}
use vulnseal.Shared.Crypto.{Platform}
use vulnseal.Shared.Crypto.Laws.{CipherLaws}

unfoldable pub toy_nfc : Text → Text
toy_nfc [] = []
toy_nfc (c ∷ t) = (if c == 8192 then 8194 else c) ∷ toy_nfc t

-- Spaces in front.
unfoldable pub toy_trim : Text → Text
toy_trim [] = []
toy_trim (c ∷ t) =
    let rest = toy_trim t in if (c == 32) || (c == 8192) || (c == 8194) then rest else c ∷ t

pub toy_nfc_idempotent : (t : Text) → toy_nfc (toy_nfc t) ≡ toy_nfc t
unfolding toy_nfc
toy_nfc_idempotent [] = refl
toy_nfc_idempotent (c ∷ t) = ground (arith, toy_nfc_idempotent t)

toy_trim_idempotent : (t : Text) → toy_trim (toy_trim t) ≡ toy_trim t
unfolding toy_trim
toy_trim_idempotent [] = refl
toy_trim_idempotent (c ∷ t) = ground (arith, toy_trim_idempotent t)

toy_nfc_trim : (t : Text) → toy_nfc (toy_trim (toy_nfc t)) ≡ toy_trim (toy_nfc t)
unfolding toy_nfc toy_trim
toy_nfc_trim [] = refl
toy_nfc_trim (c ∷ t) = ground (arith, toy_nfc_trim t, toy_nfc_idempotent t)

toy_nfc_ascii : (t : Text) → all is_ascii t ≡ true → toy_nfc t ≡ t
unfolding toy_nfc
toy_nfc_ascii [] h = refl
toy_nfc_ascii (c ∷ t) h = ground (arith, toy_nfc_ascii t)

toy_nfc_around : (t : Text) → all is_ascii (toy_trim t) ≡ true → toy_trim (toy_nfc t) ≡ toy_trim t
unfolding toy_nfc toy_trim
toy_nfc_around [] h = refl
toy_nfc_around (c ∷ t) h = ground (arith, toy_nfc_around t, toy_nfc_ascii t)

toy_trim_hex : (t : Text) → all is_hex t ≡ true → toy_trim t ≡ t
unfolding toy_trim
toy_trim_hex [] h = refl
toy_trim_hex (c ∷ t) h = ground (arith, h)

pub toy_texts : TextLaws toy_nfc toy_trim
toy_texts = record {
  nfc_idempotent = toy_nfc_idempotent;
  trim_idempotent = toy_trim_idempotent;
  nfc_trim = toy_nfc_trim;
  nfc_ascii = toy_nfc_ascii;
  nfc_around = toy_nfc_around;
  trim_hex = toy_trim_hex;
}

-- The cipher writes a number in strokes, after a tag of sixteen bytes.
unfoldable pub strokes : Bytes → Bytes
strokes [] = []
strokes (n ∷ m) = replicate n 1 ++ (0 ∷ strokes m)

unfoldable pub unstrokes : ℕ → Bytes → Bytes
unstrokes n [] = []
unstrokes n (zero ∷ m) = n ∷ unstrokes zero m
unstrokes n (suc c ∷ m) = unstrokes (suc n) m

unstrokes-replicate :
    (k n : ℕ) (m : Bytes) → unstrokes n (replicate k 1 ++ (0 ∷ m)) ≡ (n + k) ∷ unstrokes 0 m
unfolding unstrokes
unstrokes-replicate zero n m = ap (λ x. x ∷ unstrokes 0 m) (omega arith)
unstrokes-replicate (suc k) n m =
    unstrokes-replicate k (suc n) m ∙ ap (λ x. x ∷ unstrokes 0 m) (omega arith)

zero_plus : (n : ℕ) → 0 + n ≡ n
zero_plus n = omega arith

unstrokes-strokes : (m : Bytes) → unstrokes 0 (strokes m) ≡ m
unfolding strokes unstrokes
unstrokes-strokes [] = refl
unstrokes-strokes (n ∷ m) =
    unstrokes-replicate n 0 (strokes m) ∙ cc (unstrokes-strokes m, zero_plus n)

replicate-IsByte : (k : ℕ) (m : Bytes) → All IsByte m → All IsByte (replicate k 1 ++ m)
replicate-IsByte zero m h = h
replicate-IsByte (suc k) m h = (omega arith, replicate-IsByte k m h)

strokes-IsByte : (m : Bytes) → All IsByte (strokes m)
unfolding strokes
strokes-IsByte [] = tt
strokes-IsByte (n ∷ m) = replicate-IsByte n (0 ∷ strokes m) (omega arith, strokes-IsByte m)

abbrev pub tag : Bytes
tag = replicate 16 1

unfoldable pub drop_tag : ℕ → Bytes → Bytes
drop_tag zero m = m
drop_tag (suc k) [] = []
drop_tag (suc k) (c ∷ m) = drop_tag k m

abbrev pub some_report : VulnerabilityReport
some_report = record {
  title = ascii "t";
  summary = ascii "s";
  affected_asset = ascii "a";
  weakness = ascii "w";
  reproduction_steps = ascii "one" ∷ [];
  impact = ascii "i";
  suggested_remediation = [];
  attachments = [];
  researcher_contact = [];
}

-- The envelope of that report's text, `[1]`, for the program `p`, with a nonce of zeros.
abbrev pub some_envelope : CiphertextEnvelope
some_envelope = record {
  iv = ascii "AAAAAAAAAAAAAAAA";
  aad = ascii "vulnseal:ciphertext:v1:p";
  ciphertext = ascii "AQEBAQEBAQEBAQEBAQEBAQEA";
}

-- The text of an envelope begins with 2, that of anything else is `[1]`.
abbrev pub toy_stringify : Json → Text
toy_stringify (object (field (c ∷ d ∷ rest) v _)) = if d == b'a' then 2 ∷ [] else 1 ∷ []
toy_stringify _ = 1 ∷ []

abbrev pub toy_parse : Text → Option Json
toy_parse [] = none
toy_parse (c ∷ t) =
    if c == 2 then some (write_envelope some_envelope) else some (write_report some_report)

abbrev pub toy : Platform
toy = record {
  sha256 = λ m. length m % 256 ∷ replicate 31 0;
  encrypt = λ key iv aad m. tag ++ strokes m;
  decrypt = λ key iv aad c. some (unstrokes 0 (drop_tag 16 c));
  get_random_values = λ n. replicate n 0;
  utf8 = λ t. t;
  from_utf8 = λ m. some m;
  nfc = toy_nfc;
  trim = toy_trim;
  stringify = toy_stringify;
  parse_json = toy_parse;
}

zeros-IsByte : (n : ℕ) → All IsByte (replicate n 0)
zeros-IsByte zero = tt
zeros-IsByte (suc n) = (omega arith, zeros-IsByte n)

pub toy_laws : CipherLaws toy
unfolding drop_tag
toy_laws = record {
  sha256_width = λ m. refl;
  sha256_bytes = λ m. (omega arith, zeros-IsByte 31);
  decrypt_encrypt = λ key iv aad m. ap some (unstrokes-strokes m);
  encrypt_tag = λ key iv aad m. omega (arith, length-append tag (strokes m));
  encrypt_bytes = λ key iv aad m. replicate-IsByte 16 (strokes m) (strokes-IsByte m);
  random_values = λ n. zeros-IsByte n;
}
