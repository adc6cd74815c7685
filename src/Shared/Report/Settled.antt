-- ===== src/Shared/Report/Settled.antt =====
-- packages/shared/src/canonicalize.ts: what `canonicalizeReport` has made of a report it read.
use vulnseal.Prelude.{
  ℕ, suc, String, ◌≡◌, refl, sym, ap, ◌∙◌, Bool, true, List, [], ◌∷◌, map, all, length, ltb, ok,
  >>=-ok, arith, Bool-cases, inl, inr,
}
use mathlib.Core.Path.{subst}
use vulnseal.Shared.Hex.{Text, to_lower, is_hex}
use vulnseal.Shared.Base64.{nonempty}
use vulnseal.Shared.Json.{Json, undefined, null, boolean, number, string, array, object}
use vulnseal.Shared.Report.{
  Name, named, require_text, optional_text, text_at, get, is_sha256, has_sha256,
}

abbrev pub is_ascii : ℕ → Bool
is_ascii c = ltb c 128

-- What the code relies on of `normalize("NFC")` and `trim`. Normal forms are closed under taking
-- parts, ASCII is in normal form, and no white space becomes a letter or joins one.
pub record TextLaws (nfc trim : Text → Text) : Type 0 where
  pub nfc_idempotent : (t : Text) → nfc (nfc t) ≡ nfc t
  pub trim_idempotent : (t : Text) → trim (trim t) ≡ trim t
  pub nfc_trim : (t : Text) → nfc (trim (nfc t)) ≡ trim (nfc t)
  pub nfc_ascii : (t : Text) → all is_ascii t ≡ true → nfc t ≡ t
  pub nfc_around : (t : Text) → all is_ascii (trim t) ≡ true → trim (nfc t) ≡ trim t
  pub trim_hex : (t : Text) → all is_hex t ≡ true → trim t ≡ t

-- A digit of a digest in lower case is one, and ASCII.
all_hex_lower :
    (t : Text) → all (λ c. is_hex (to_lower c)) t ≡ true → all is_hex (map to_lower t) ≡ true
all_hex_lower [] h = refl
all_hex_lower (c ∷ t) h = ground (arith, all_hex_lower t)

all_hex-ascii : (t : Text) → all (λ c. is_hex (to_lower c)) t ≡ true → all is_ascii t ≡ true
all_hex-ascii [] h = refl
all_hex-ascii (c ∷ t) h = ground (arith, all_hex-ascii t)

pub all_lower : (t : Text) → all is_hex t ≡ true → map to_lower t ≡ t
all_lower [] h = refl
all_lower (c ∷ t) h = ground (arith, all_lower t)

all_hex_again : (t : Text) → all is_hex t ≡ true → all (λ c. is_hex (to_lower c)) t ≡ true
all_hex_again [] h = refl
all_hex_again (c ∷ t) h = ground (arith, all_hex_again t)

length-map {ℓ κ} : {A : Type ℓ} {B : Type κ} (f : A → B) (t : List A) → length (map f t) ≡ length t
length-map f [] = refl
length-map f (c ∷ t) = ap suc (length-map f t)

-- A digest as it stands in a report that was read.
abbrev pub IsDigest : Text → Type 0
IsDigest t = (all is_hex t ≡ true) × (length t ≡ 64)

lower-IsDigest : (t : Text) → is_sha256 t ≡ true → IsDigest (map to_lower t)
lower-IsDigest t h = (all_hex_lower t (ground (arith, h)), ground (arith, h, length-map to_lower t))

hex_ascii : (t : Text) → all is_hex t ≡ true → all is_ascii t ≡ true
hex_ascii t h = all_hex-ascii t (all_hex_again t h)

nonempty_by_length : (t : Text) → length t ≡ 64 → nonempty t ≡ true
nonempty_by_length [] h = ground arith
nonempty_by_length (c ∷ t) h = refl

module _ (nfc trim : Text → Text) (laws : TextLaws nfc trim) where
  -- A text that reading leaves alone; and one that is not empty.
  abbrev pub IsLoose : Text → Type 0
  IsLoose t = (trim t ≡ t) × (nfc t ≡ t)

  abbrev pub IsLine : Text → Type 0
  IsLine t = IsLoose t × (nonempty t ≡ true)

  read-IsLoose : (t : Text) → IsLoose (trim (nfc t))
  read-IsLoose t = (laws.trim_idempotent (nfc t), laws.nfc_trim t)

  -- What a successful reading says, and that reading the result again changes nothing.
  pub require_text-IsLine :
      (name : Name) (v : Json) {t : Text} → require_text nfc trim name v ≡ ok t → IsLine t
  unfolding require_text
  require_text-IsLine name (string s) {t} h = elim (Bool-cases (nonempty (trim (nfc s)))) [
    | inl e ↦
        let same : trim (nfc s) ≡ t = ground (arith, e, h) in
        (subst IsLoose same (read-IsLoose s), ap nonempty (sym same) ∙ e)
    | inr e ↦ ground (arith, e, h)
  ]
  require_text-IsLine name undefined h = cc
  require_text-IsLine name null h = cc
  require_text-IsLine name (boolean b) h = cc
  require_text-IsLine name (number n) h = cc
  require_text-IsLine name (array xs) h = cc
  require_text-IsLine name (object fs) h = cc

  pub IsLine-require_text :
      (name : Name) (t : Text) → IsLine t → require_text nfc trim name (string t) ≡ ok t
  unfolding require_text
  IsLine-require_text name t h = let (loose, n) = h in let (e, f) = loose in rw (f, e, n) refl

  pub optional_text-IsLoose : (v : Json) {t : Text} → optional_text nfc trim v ≡ ok t → IsLoose t
  unfolding optional_text
  optional_text-IsLoose (string s) {t} h =
      let same : trim (nfc s) ≡ t = ground (arith, h) in subst IsLoose same (read-IsLoose s)
  optional_text-IsLoose undefined h = cc
  optional_text-IsLoose null h = cc
  optional_text-IsLoose (boolean b) h = cc
  optional_text-IsLoose (number n) h = cc
  optional_text-IsLoose (array xs) h = cc
  optional_text-IsLoose (object fs) h = cc

  pub IsLoose-optional_text : (t : Text) → IsLoose t → optional_text nfc trim (string t) ≡ ok t
  unfolding optional_text
  IsLoose-optional_text t h = let (e, f) = h in rw (f, e) refl

  -- The digest of an attachment, once it has passed the test and been lowered.
  pub has_sha256-IsDigest :
      (name : Name) (v : Json) {t : Text}
      → has_sha256 trim v ≡ true
      → require_text nfc trim name v ≡ ok t
      → IsDigest (map to_lower t)
  unfolding require_text
  has_sha256-IsDigest name (string s) {t} d h =
      let ascii_s = all_hex-ascii (trim s) (ground (arith, d)) in
      let same : trim s ≡ t = sym (laws.nfc_around s ascii_s) ∙ ground (arith, h) in
      lower-IsDigest t (ap is_sha256 (sym same) ∙ d)
  has_sha256-IsDigest name undefined d h = cc
  has_sha256-IsDigest name null d h = cc
  has_sha256-IsDigest name (boolean b) d h = cc
  has_sha256-IsDigest name (number n) d h = cc
  has_sha256-IsDigest name (array xs) d h = cc
  has_sha256-IsDigest name (object fs) d h = cc

  pub IsDigest-IsLine : (t : Text) → IsDigest t → IsLine t
  IsDigest-IsLine t h =
      let (e, n) = h in
      ((laws.trim_hex t e, laws.nfc_ascii t (hex_ascii t e)), nonempty_by_length t n)

  pub IsDigest-has_sha256 : (t : Text) → IsDigest t → has_sha256 trim (string t) ≡ true
  IsDigest-has_sha256 t h =
      let (e, n) = h in rw (laws.trim_hex t e) (ground (arith, e, n, all_hex_again t e))

  pub text_at-IsLine :
      (key : String) (v : Json) {t : Text} → text_at nfc trim key v ≡ ok t → IsLine t
  unfolding text_at
  text_at-IsLine key v h =
      >>=-ok (get key v) _ h (λ w e rest. require_text-IsLine (named key) w rest)
