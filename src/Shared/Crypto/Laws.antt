-- ===== src/Shared/Crypto/Laws.antt =====
-- packages/shared/src/crypto.ts: what a sealed report is made of.
use vulnseal.Prelude.{
  ℕ, ◌≤◌, ◌≡◌, refl, ap, true, false, Option, none, some, ◌++◌, Bytes, All, length, ltb, ◌==◌, ◌=ᵇ◌,
  Result, ok, err, >>=-ok, guard-ok, ok-injective, arith, ==_iff,
}
use mathlib.Core.Path.{subst}
use vulnseal.Shared.Hex.{Text, IsByte, assert_bytes32}
use vulnseal.Shared.Base64.{base64url_to_bytes}
use vulnseal.Shared.Order.{text_le}
use vulnseal.Shared.Json.{Json, get_field}
use vulnseal.Shared.Report.{canonicalize_report, ReportError}
use vulnseal.Shared.Envelope.{
  CiphertextEnvelope, write_envelope, serialize_ciphertext_envelope, parse_ciphertext_envelope,
  is_program_id, is_aad, after, has_envelope_keys, sort, same_texts,
}
use vulnseal.Shared.Crypto.{
  Platform, SealedReport, invalid_program_id, wrong_iv_length, measured, reported, given_or,
  seal_report, random_bytes, sealed_of, envelope_of, ciphertext_prefix,
}

-- `JSON.parse` gives a value back from its text.
abbrev pub Reads : Platform → Json → Type 0
Reads platform v = platform.parse_json (platform.stringify v) ≡ some v

-- What the code relies on of Web Crypto.
pub record CipherLaws (platform : Platform) : Type 0 where
  pub sha256_width : (m : Bytes) → length (platform.sha256 m) ≡ 32
  pub sha256_bytes : (m : Bytes) → All IsByte (platform.sha256 m)
  pub decrypt_encrypt :
      (key iv aad m : Bytes) → platform.decrypt key iv aad (platform.encrypt key iv aad m) ≡ some m
  pub encrypt_tag : (key iv aad m : Bytes) → 16 ≤ length (platform.encrypt key iv aad m)
  pub encrypt_bytes : (key iv aad m : Bytes) → All IsByte (platform.encrypt key iv aad m)
  pub random_values : (n : ℕ) → All IsByte (platform.get_random_values n)

pub le-not_ltb : (n m : ℕ) → m ≤ n → ltb n m ≡ false
le-not_ltb n m h = ground arith

-- An envelope that is read back as JSON, decodes and is bound to a program, is read back.
pub parse_ciphertext_envelope-serialize :
    (platform : Platform) (e : CiphertextEnvelope) (nonce sealed : Bytes)
    → Reads platform (write_envelope e)
    → base64url_to_bytes e.iv ≡ ok nonce
    → length nonce ≡ 12
    → base64url_to_bytes e.ciphertext ≡ ok sealed
    → 16 ≤ length sealed
    → is_aad e.aad ≡ true
    → parse_ciphertext_envelope platform.parse_json
        (serialize_ciphertext_envelope platform.stringify e)
      ≡ ok e
unfolding parse_ciphertext_envelope has_envelope_keys get_field ◌=ᵇ◌ sort same_texts text_le
parse_ciphertext_envelope-serialize platform e nonce sealed reads iv n ciphertext m bound =
    let long : ltb (length sealed) 16 ≡ false = le-not_ltb (length sealed) 16 m in
    rw (reads, iv, n, ciphertext, long, bound) refl

pub is_program_id-is_aad :
    (t : Text) → is_program_id t ≡ true → is_aad (ciphertext_prefix ++ t) ≡ true
unfolding is_aad after
is_program_id-is_aad t h = h

reported-ok {ℓ} : {A : Type ℓ} (r : Result ReportError A) {a : A} → reported r ≡ ok a → r ≡ ok a
reported-ok (ok b) e = ap ok (ok-injective e)
reported-ok (err x) e = cc

-- The parts of a sealed report.
pub record IsSealed (platform : Platform) (report : Json) (program_id : Text) (s : SealedReport)
    : Type 0 where
  pub text : Text
  pub iv : Bytes
  pub program : is_program_id program_id ≡ true
  pub canonical : canonicalize_report platform.nfc platform.trim platform.stringify report ≡ ok text
  pub key_width : length s.key ≡ 32
  pub iv_width : length iv ≡ 12
  pub iv_bytes : All IsByte iv
  pub whole : s ≡ sealed_of platform text s.key (envelope_of platform text program_id s.key iv)

module _ (platform : Platform) (laws : CipherLaws platform) where
  iv_bytes_of :
      (provided : Option Bytes) {iv : Bytes}
      → ((given : Bytes) → provided ≡ some given → All IsByte given)
      → given_or (random_bytes platform 12) provided ≡ ok iv
      → All IsByte iv
  unfolding random_bytes
  iv_bytes_of none h e = subst (All IsByte) (ok-injective e) (laws.random_values 12)
  iv_bytes_of (some given) h e = subst (All IsByte) (ok-injective e) (h given refl)

  measured-width :
      (given : Bytes) {key : Bytes} → measured (assert_bytes32 given) ≡ ok key → length key ≡ 32
  unfolding assert_bytes32
  measured-width given h = ground (arith, h)

  pub seal_report-IsSealed :
      (report : Json) (program_id : Text) (provided_key provided_iv : Option Bytes)
      {s : SealedReport}
      → ((given : Bytes) → provided_iv ≡ some given → All IsByte given)
      → seal_report platform report program_id provided_key provided_iv ≡ ok s
      → IsSealed platform report program_id s
  unfolding seal_report
  seal_report-IsSealed report program_id provided_key provided_iv bytes h =
      guard-ok (is_program_id program_id) invalid_program_id _ h λ e₀ h₀.
        >>=-ok (reported (canonicalize_report platform.nfc platform.trim platform.stringify report))
          _ h₀
          λ text e₁ h₁.
            >>=-ok (given_or (random_bytes platform 32) provided_key) _ h₁ λ chosen e₂ h₂.
              >>=-ok (measured (assert_bytes32 chosen)) _ h₂ λ key e₃ h₃.
                >>=-ok (given_or (random_bytes platform 12) provided_iv) _ h₃ λ iv e₄ h₄.
                  guard-ok (length iv == 12) wrong_iv_length _ h₄ λ e₅ h₅.
                    subst (IsSealed platform report program_id) (ok-injective h₅) (record {
                      text = text;
                      iv = iv;
                      program = e₀;
                      canonical = reported-ok _ e₁;
                      key_width = measured-width chosen e₃;
                      iv_width = (==_iff (length iv) 12).0 e₅;
                      iv_bytes = iv_bytes_of provided_iv bytes e₄;
                      whole = refl;
                    })
