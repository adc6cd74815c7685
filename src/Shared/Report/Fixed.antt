-- ===== src/Shared/Report/Fixed.antt =====
-- packages/shared/src/canonicalize.ts: a report that was read is read again as it is.
use vulnseal.Prelude.{
  ℕ, suc, ◌≡◌, refl, not, ◌&&◌, List, [], ◌∷◌, All, ◌==◌, ◌=ᵇ◌, ok, ◌>>=◌, >>=-ok, ok-injective,
  guard-ok, arith, Bool-cases, inl, inr,
}
use mathlib.Core.Path.{subst}
use vulnseal.Shared.Hex.{Text}
use vulnseal.Shared.Json.{
  Json, Items, undefined, null, boolean, number, string, array, object, no_items, item, Number,
  not_finite, fraction, integer, is_safe_integer,
}
use vulnseal.Shared.Canonical.{normalize_number}
use vulnseal.Shared.Json.{get_field}
use vulnseal.Shared.Report.{
  AttachmentDigest, VulnerabilityReport, named, numbered, require_text, text_at, get, as_size,
  has_sha256, read_steps, read_attachment, read_attachments, write_attachment, write_attachments,
  write_steps, bad_digest,
}
use vulnseal.Shared.Report.Settled.{
  TextLaws, text_at-IsLine, IsDigest-has_sha256, IsLine, IsDigest, IsDigest-IsLine,
  has_sha256-IsDigest, require_text-IsLine, IsLine-require_text, all_lower,
}

-- `Object.is(size, -0) ? 0 : size`
abbrev pub settle_size : Number → Number
settle_size (integer negative n) = integer (negative && not (n == 0)) n
settle_size n = n

abbrev pub settle_attachments : List AttachmentDigest → List AttachmentDigest
settle_attachments [] = []
settle_attachments (a ∷ rest) = record a { size = settle_size a.size } ∷ settle_attachments rest

abbrev pub settle : VulnerabilityReport → VulnerabilityReport
settle r = record r { attachments = settle_attachments r.attachments }

-- A size digests it stands in a report that was read.
abbrev pub IsSize : Number → Type 0
IsSize n =
    (normalize_number n ≡ ok (number (settle_size n)))
    × (as_size (number (settle_size n)) ≡ ok (settle_size n))

as_size-IsSize : (v : Json) {n : Number} → as_size v ≡ ok n → IsSize n
unfolding normalize_number
as_size-IsSize (number (integer negative m)) {n} h =
    let test = is_safe_integer (integer negative m) && not (negative && not (m == 0)) in
    elim (Bool-cases test) [
      | inl e ↦
          let same : integer negative m ≡ n = ground (arith, e, h) in
          subst IsSize same (ground (arith, e), ground (arith, e))
      | inr e ↦ ground (arith, e, h)
    ]
as_size-IsSize (number not_finite) h = cc
as_size-IsSize (number fraction) h = cc
as_size-IsSize (string t) h = cc
as_size-IsSize undefined h = cc
as_size-IsSize null h = cc
as_size-IsSize (boolean b) h = cc
as_size-IsSize (array xs) h = cc
as_size-IsSize (object fs) h = cc

module _ (nfc trim : Text → Text) (laws : TextLaws nfc trim) where
  abbrev pub IsLine_ : Text → Type 0
  IsLine_ = IsLine nfc trim laws

  -- An attachment digests it stands in a report that was read.
  pub record IsAttachment (a : AttachmentDigest) : Type 0 where
    pub filename_line : IsLine_ a.filename
    pub media_type_line : IsLine_ a.media_type
    pub sha256_digest : IsDigest a.sha256
    pub size_whole : IsSize a.size

  pub read_attachment-IsAttachment :
      (v : Json) {a : AttachmentDigest} → read_attachment nfc trim v ≡ ok a → IsAttachment a
  unfolding read_attachment text_at
  read_attachment-IsAttachment v h = >>=-ok (get "size" v >>= as_size) _ h λ size e₀ h₁.
      >>=-ok (get "sha256" v) _ h₁ λ digest e₁ h₂.
        guard-ok (has_sha256 trim digest) bad_digest _ h₂ λ e₂ h₃.
          >>=-ok (text_at nfc trim "filename" v) _ h₃ λ filename e₃ h₄.
            >>=-ok (text_at nfc trim "mediaType" v) _ h₄ λ media_type e₄ h₅.
              >>=-ok (require_text nfc trim (named "sha256") digest) _ h₅ λ sha256 e₅ h₆.
                subst IsAttachment (ok-injective h₆) (record {
                  filename_line = text_at-IsLine nfc trim laws "filename" v e₃;
                  media_type_line = text_at-IsLine nfc trim laws "mediaType" v e₄;
                  sha256_digest = has_sha256-IsDigest nfc trim laws (named "sha256") digest e₂ e₅;
                  size_whole = >>=-ok (get "size" v) as_size e₀ (λ w f g. as_size-IsSize w g);
                })

  IsAttachment-read_attachment :
      (a : AttachmentDigest)
      → IsAttachment a
      → read_attachment nfc trim (write_attachment (record a { size = settle_size a.size }))
        ≡ ok (record a { size = settle_size a.size })
  unfolding read_attachment text_at get get_field ◌=ᵇ◌
  IsAttachment-read_attachment a h =
      let (d, n) = h.sha256_digest in
      let (z, y) = h.size_whole in
      rw
        (
          y,
          IsDigest-has_sha256 nfc trim laws a.sha256 h.sha256_digest,
          IsLine-require_text nfc trim laws (named "filename") a.filename h.filename_line,
          IsLine-require_text nfc trim laws (named "mediaType") a.media_type h.media_type_line,
          IsLine-require_text nfc trim laws (named "sha256") a.sha256
              (IsDigest-IsLine nfc trim laws a.sha256 h.sha256_digest),
          all_lower a.sha256 d,
        )
        refl

  pub read_attachments-IsAttachment :
      (xs : Items) {digests : List AttachmentDigest}
      → read_attachments nfc trim xs ≡ ok digests
      → All IsAttachment digests
  unfolding read_attachments
  read_attachments-IsAttachment no_items h = subst (All IsAttachment) (ok-injective h) tt
  read_attachments-IsAttachment (item v xs) h = >>=-ok (read_attachment nfc trim v) _ h λ a e₀ h₁.
      >>=-ok (read_attachments nfc trim xs) _ h₁ λ digests e₁ h₂.
        subst (All IsAttachment) (ok-injective h₂)
          (read_attachment-IsAttachment v e₀, read_attachments-IsAttachment xs e₁)

  pub IsAttachment-read_attachments :
      (digests : List AttachmentDigest)
      → All IsAttachment digests
      → read_attachments nfc trim (write_attachments (settle_attachments digests))
        ≡ ok (settle_attachments digests)
  unfolding read_attachments
  IsAttachment-read_attachments [] h = refl
  IsAttachment-read_attachments (a ∷ digests) h =
      let (here, rest) = h in
      rw (IsAttachment-read_attachment a here, IsAttachment-read_attachments digests rest) refl

  pub read_steps-IsLine :
      (n : ℕ) (xs : Items) {steps : List Text}
      → read_steps nfc trim n xs ≡ ok steps
      → All IsLine_ steps
  unfolding read_steps
  read_steps-IsLine n no_items h = subst (All IsLine_) (ok-injective h) tt
  read_steps-IsLine n (item v xs) h = >>=-ok (require_text nfc trim (numbered n) v) _ h λ s e₀ h₁.
      >>=-ok (read_steps nfc trim (suc n) xs) _ h₁ λ steps e₁ h₂.
        subst (All IsLine_) (ok-injective h₂)
          (require_text-IsLine nfc trim laws (numbered n) v e₀, read_steps-IsLine (suc n) xs e₁)

  pub IsLine-read_steps :
      (n : ℕ) (steps : List Text)
      → All IsLine_ steps
      → read_steps nfc trim n (write_steps steps) ≡ ok steps
  unfolding read_steps
  IsLine-read_steps n [] h = refl
  IsLine-read_steps n (s ∷ steps) h =
      let (here, rest) = h in
      rw
        (
          IsLine-require_text nfc trim laws (numbered n) s here,
          IsLine-read_steps (suc n) steps rest,
        )
        refl
