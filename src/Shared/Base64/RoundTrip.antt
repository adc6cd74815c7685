-- ===== src/Shared/Base64/RoundTrip.antt =====
-- Base64url text and bytes determine each other.
use vulnseal.Prelude.{
  ℕ, ◌+◌, ◌-◌, ◌%◌, ◌<◌, ◌≡◌, refl, Bool, true, false, ◌&&◌, Option, none, some, List, [], ◌∷◌,
  ◌++◌, map, arith, Bytes, All, all, length, replicate, ◌==◌, ◌=ᵇ◌, if◌then◌else◌, ok, err,
  bytes_eq-to_eq, Bool-cases, zero, suc, ◌≢◌, bytes_eq_refl, ap, sym, ◌∙◌, length-append, inl, inr,
}
use mathlib.Core.List.{append-nil, append_assoc}
use vulnseal.Shared.Hex.{Text, IsByte}
use vulnseal.Shared.Base64.{
  sextets, octets, letter, letter_value, is_letter, is_base64url, padding, btoa, drop_pad, atob,
  to_url, from_url, strip_padding, bytes_to_base64url, nonempty, base64url_to_bytes, invalid_text,
  invalid_character, noncanonical,
}

pub octets-sextets : (bs : Bytes) → All IsByte bs → octets (sextets bs) ≡ bs
unfolding octets sextets
octets-sextets [] h = refl
octets-sextets (a ∷ []) h = ground arith
octets-sextets (a ∷ b ∷ []) h = ground arith
octets-sextets (a ∷ b ∷ c ∷ rest) h = ground (arith, octets-sextets rest h.1.1.1)

pub sextets_bound : (bs : Bytes) → All IsByte bs → All (λ n. n < 64) (sextets bs)
unfolding sextets
sextets_bound [] h = tt
sextets_bound (a ∷ []) h = (omega arith, (omega arith, tt))
sextets_bound (a ∷ b ∷ []) h = (omega arith, (omega arith, (omega arith, tt)))
sextets_bound (a ∷ b ∷ c ∷ rest) h =
    (omega arith, (omega arith, (omega arith, (omega arith, sextets_bound rest h.1.1.1))))

length-sextets : (bs : Bytes) → length (sextets bs) % 4 ≢ 1
unfolding sextets
length-sextets [] = λ e. omega arith
length-sextets (a ∷ []) = λ e. omega arith
length-sextets (a ∷ b ∷ []) = λ e. omega arith
length-sextets (a ∷ b ∷ c ∷ rest) = λ e. length-sextets rest (omega arith)

-- One letter, as text and back.
pub letter-facts :
    (n : ℕ)
    → n < 64
    → (is_base64url (to_url (letter n)) ≡ true)
      × (from_url (to_url (letter n)) ≡ letter n)
      × (is_letter (letter n) ≡ true)
      × (letter_value (letter n) ≡ n)
      × ((to_url (letter n) == b'=') ≡ false)
      × ((letter n == b'=') ≡ false)
letter-facts n h = ground arith

-- The text without its padding.
unfoldable pub plain : List ℕ → Text
plain [] = []
plain (n ∷ ns) = to_url (letter n) ∷ plain ns

pub plain-is_base64url : (ns : List ℕ) → All (λ n. n < 64) ns → all is_base64url (plain ns) ≡ true
unfolding plain
plain-is_base64url [] h = refl
plain-is_base64url (n ∷ ns) h = rw ((letter-facts n h.0).0) (plain-is_base64url ns h.1)

from_url-plain : (ns : List ℕ) → All (λ n. n < 64) ns → map from_url (plain ns) ≡ map letter ns
unfolding plain
from_url-plain [] h = refl
from_url-plain (n ∷ ns) h = cc ((letter-facts n h.0).1, from_url-plain ns h.1)

letters_are_letters : (ns : List ℕ) → All (λ n. n < 64) ns → all is_letter (map letter ns) ≡ true
letters_are_letters [] h = refl
letters_are_letters (n ∷ ns) h = rw ((letter-facts n h.0).2) (letters_are_letters ns h.1)

values-letters : (ns : List ℕ) → All (λ n. n < 64) ns → map letter_value (map letter ns) ≡ ns
values-letters [] h = refl
values-letters (n ∷ ns) h = cc ((letter-facts n h.0).3, values-letters ns h.1)

length-map : {A B : Type 0} (f : A → B) (xs : List A) → length (map f xs) ≡ length xs
length-map f [] = refl
length-map f (x ∷ xs) = ap suc (length-map f xs)

length-replicate : (k : ℕ) → length {A = ℕ} (replicate k b'=') ≡ k
length-replicate zero = refl
length-replicate (suc k) = ap suc (length-replicate k)

strip-pads : (k : ℕ) → strip_padding (map to_url (replicate k b'=')) ≡ []
unfolding strip_padding
strip-pads zero = refl
strip-pads (suc k) = rw (strip-pads k) refl

strip-plain :
    (ns : List ℕ) (k : ℕ)
    → All (λ n. n < 64) ns
    → strip_padding (map to_url (map letter ns ++ replicate k b'=')) ≡ plain ns
unfolding strip_padding plain
strip-plain [] k h = strip-pads k
strip-plain (n ∷ ns) k h =
    rw (strip-plain ns k h.1) (kept (to_url (letter n)) (plain ns) (letter-facts n h.0).4)
  where
    kept :
        (c : ℕ) (t : Text)
        → (c == b'=') ≡ false
        → ◌≡◌ {A = Text}
            (elim t [ [] ↦ if c == b'=' then [] else c ∷ [] | d ∷ rest ↦ c ∷ d ∷ rest ])
            (c ∷ t)
    kept c [] e = rw e refl
    kept c (d ∷ rest) e = refl

-- Padding off the end.
drop_pad-append : (t : Text) → drop_pad (t ++ b'=' ∷ []) ≡ t
unfolding drop_pad
drop_pad-append [] = refl
drop_pad-append (c ∷ []) = refl
drop_pad-append (c ∷ d ∷ t) = ap (λ u. c ∷ u) (drop_pad-append (d ∷ t))

drop_pad-letters : (ns : List ℕ) → All (λ n. n < 64) ns → drop_pad (map letter ns) ≡ map letter ns
unfolding drop_pad
drop_pad-letters [] h = refl
drop_pad-letters (n ∷ []) h = rw ((letter-facts n h.0).5) refl
drop_pad-letters (n ∷ m ∷ ns) h = ap (λ u. letter n ∷ u) (drop_pad-letters (m ∷ ns) h.1)

-- The text that `atob` is given, and what it reads from it.
module _ (ns : List ℕ) (h : All (λ n. n < 64) ns) where
  drops : (k : ℕ) → k < 3 → drop_pad (drop_pad (map letter ns ++ replicate k b'=')) ≡ map letter ns
  drops zero small = rw (append-nil (map letter ns), drop_pad-letters ns h) (drop_pad-letters ns h)
  drops (suc zero) small = rw (drop_pad-append (map letter ns)) (drop_pad-letters ns h)
  drops (suc (suc zero)) small =
      ap drop_pad (
        ap drop_pad (sym (append_assoc (map letter ns) (b'=' ∷ []) (b'=' ∷ [])))
        ∙ drop_pad-append (map letter ns ++ b'=' ∷ []))
      ∙ drop_pad-append (map letter ns)
  drops (suc (suc (suc k))) small = absurd (omega arith)

  full : (k : ℕ) → (length ns + k) % 4 ≡ 0 → length (map letter ns ++ replicate k b'=') % 4 ≡ 0
  full k e = omega (
    arith,
    length-append (map letter ns) (replicate k b'='),
    length-map letter ns,
    length-replicate k,
  )

  bare :
      (k : ℕ)
      → (length ns + k) % 4 ≡ 0
      → k < 3
      → (if length (map letter ns ++ replicate k b'=') % 4 == 0
          then drop_pad (drop_pad (map letter ns ++ replicate k b'='))
          else map letter ns ++ replicate k b'=')
        ≡ map letter ns
  bare k e small = rw (full k e) (drops k small)

  atob-letters : length ns % 4 ≢ 1 → atob (map letter ns ++ padding (length ns)) ≡ some (octets ns)
  unfolding atob
  atob-letters odd =
      rw
        (
          bare ((4 - length ns % 4) % 4) (omega arith) (ground (arith, odd)),
          letters_are_letters ns h,
          values-letters ns h,
          length-map letter ns,
        )
        (ground (arith, odd))

pub nonempty-plain : (ns : List ℕ) → ns ≢ [] → nonempty (plain ns) ≡ true
unfolding plain
nonempty-plain [] some_letter = absurd (some_letter refl)
nonempty-plain (n ∷ ns) some_letter = refl

pub sextets_nonempty : (bs : Bytes) → bs ≢ [] → sextets bs ≢ []
unfolding sextets
sextets_nonempty [] h = absurd (h refl)
sextets_nonempty (a ∷ []) h = λ e. cc
sextets_nonempty (a ∷ b ∷ []) h = λ e. cc
sextets_nonempty (a ∷ b ∷ c ∷ rest) h = λ e. cc

length-plain : (ns : List ℕ) → length (plain ns) ≡ length ns
unfolding plain
length-plain [] = refl
length-plain (n ∷ ns) = ap suc (length-plain ns)

pub text_of : (bs : Bytes) → All IsByte bs → bytes_to_base64url bs ≡ plain (sextets bs)
unfolding bytes_to_base64url btoa
text_of bs h = strip-plain (sextets bs) _ (sextets_bound bs h)

-- Any byte string but the empty one is read back from its base64url text.
pub base64url_to_bytes-bytes_to_base64url :
    (bs : Bytes) → bs ≢ [] → All IsByte bs → base64url_to_bytes (bytes_to_base64url bs) ≡ ok bs
unfolding base64url_to_bytes
base64url_to_bytes-bytes_to_base64url bs some_byte h =
    let ns = sextets bs in
    let small = sextets_bound bs h in
    let read : atob (map from_url (plain ns) ++ padding (length (plain ns))) ≡ some bs =
      rw (from_url-plain ns small, length-plain ns, atob-letters ns small (length-sextets bs))
        (ap some (octets-sextets bs h)) in
    rw
      (
        text_of bs h,
        read,
        nonempty-plain ns (sextets_nonempty bs some_byte),
        plain-is_base64url ns small,
        text_of bs h,
        bytes_eq_refl (plain ns),
      )
      refl

-- What is accepted is the base64url text of what comes back, of at least one letter.
base64url_to_bytes_sound :
    (s : Text) (bs : Bytes)
    → base64url_to_bytes s ≡ ok bs
    → (bytes_to_base64url bs ≡ s) × (nonempty s ≡ true) × (all is_base64url s ≡ true)
unfolding base64url_to_bytes
base64url_to_bytes_sound s bs e = checked (nonempty s && all is_base64url s) refl e
  where
    split : (a b : Bool) → (a && b) ≡ true → (a ≡ true) × (b ≡ true)
    split a b e = ground arith

    read :
        (o : Option Bytes)
        → elim o [
          | none ↦ err invalid_character
          | some v ↦ if bytes_to_base64url v =ᵇ s then ok v else err noncanonical
        ]
          ≡ ok bs
        → bytes_to_base64url bs ≡ s
    read none e = cc
    read (some v) e = elim (Bool-cases (bytes_to_base64url v =ᵇ s)) [
      | inl same ↦
          let v≡bs : v ≡ bs = cc (rw same at e) in
          rw (← v≡bs) (bytes_eq-to_eq (bytes_to_base64url v) s same)
      | inr apart ↦ absurd (cc (rw apart at e))
    ]

    checked :
        (t : Bool)
        → (nonempty s && all is_base64url s) ≡ t
        → (if t
            then elim (atob (map from_url s ++ padding (length s))) [
              | none ↦ err invalid_character
              | some v ↦ if bytes_to_base64url v =ᵇ s then ok v else err noncanonical
            ]
            else err invalid_text)
          ≡ ok bs
        → (bytes_to_base64url bs ≡ s) × (nonempty s ≡ true) × (all is_base64url s ≡ true)
    checked true f e =
        (read (atob (map from_url s ++ padding (length s))) e, (split _ _ f).0, (split _ _ f).1)
    checked false f e = cc
