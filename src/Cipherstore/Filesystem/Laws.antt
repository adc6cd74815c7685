-- ===== src/Cipherstore/Filesystem/Laws.antt =====
-- cipherstore/src/filesystem-storage.ts: the documented behaviour of the file system, and what
-- a `put` may leave in the directory.
use vulnseal.Prelude.{
  ◌≡◌, ◌≢◌, refl, sym, ap, ◌∙◌, ◌⊎◌, inl, inr, arith, Bool-cases, Bool, false, Option, none, some,
  [], ◌∷◌, ◌++◌, Bytes, length, length-append, ◌=ᵇ◌, Result, ok, err, bytes_eq-to_eq,
  bytes_eq-false,
}
use mathlib.Core.Path.{subst}
use vulnseal.Contract.Types.{ascii}
use vulnseal.Shared.Hex.{Text}
use vulnseal.Cipherstore.Storage.{StorageError, validate_digest, not_found}
use vulnseal.Cipherstore.Filesystem.{
  FileSystem, linked, and_then, after_cleanup, blob_name, temporary, compare_existing,
}

-- The documented behaviour of the calls, on the files by their names; a call that fails may have
-- done its work on the file it names, and on no other.
pub record FileSystemLaws (F : Type 0) (fs : FileSystem F) : Type 0 where
  pub contents : F → Text → Option Bytes
  pub mkdir_keeps : (n : Text) (s : F) → contents (fs.mkdir s).1 n ≡ contents s n
  pub sync_keeps : (m n : Text) (s : F) → contents (fs.sync m s).1 n ≡ contents s n
  pub close_keeps : (m n : Text) (s : F) → contents (fs.close m s).1 n ≡ contents s n
  pub read_finds : (n : Text) (s : F) {b : Bytes} → fs.read_file n s ≡ ok b → contents s n ≡ some b
  pub read_misses : (n : Text) (s : F) → fs.read_file n s ≡ err not_found → contents s n ≡ none
  pub open_keeps : (m n : Text) (s : F) → n ≢ m → contents (fs.open_new m s).1 n ≡ contents s n
  pub write_keeps :
      (m n : Text) (b : Bytes) (s : F) → n ≢ m → contents (fs.write_file m b s).1 n ≡ contents s n
  pub written :
      (m : Text) (b : Bytes) (s : F)
      → (fs.write_file m b s).0 ≡ ok tt
      → contents (fs.write_file m b s).1 m ≡ some b
  pub unlink_keeps : (m n : Text) (s : F) → n ≢ m → contents (fs.unlink m s).1 n ≡ contents s n
  pub link_keeps : (old m n : Text) (s : F) → n ≢ m → contents (fs.link old m s).1 n ≡ contents s n
  pub link_makes :
      (old m : Text) (s : F)
      → (fs.link old m s).0 ≡ linked
      → (contents s m ≡ none) × (contents (fs.link old m s).1 m ≡ contents s old)
  pub link_refuses :
      (old m : Text) (s : F)
      → (fs.link old m s).0 ≢ linked
      → contents (fs.link old m s).1 m ≡ contents s m

abbrev pub IsStored : Text → Type 0
IsStored digest = validate_digest digest ≡ ok tt

pub IsStored-length : (d : Text) → IsStored d → length d ≡ 64
unfolding validate_digest
IsStored-length d h = ground (arith, h)

-- The name of a blob is not a temporary name of one.
pub blob_name-temporary :
    (e d uuid : Text) → IsStored e → IsStored d → blob_name e ≢ temporary (blob_name d) uuid
blob_name-temporary e d uuid he hd = λ same.
    let le = IsStored-length e he in
    let ld = IsStored-length d hd in
    absurd (
      omega (
        arith,
        ap length same,
        le,
        ld,
        length-append e (ascii ".ciphertext.json"),
        length-append d (ascii ".ciphertext.json"),
        length-append (blob_name d) (b'.' ∷ uuid ++ ascii ".tmp"),
      ))

append-injective : (a b t : Text) → length a ≡ length b → (a ++ t) ≡ (b ++ t) → a ≡ b
append-injective [] [] t n e = refl
append-injective [] (c ∷ b) t n e = absurd (omega arith)
append-injective (c ∷ a) [] t n e = absurd (omega arith)
append-injective (c ∷ a) (d ∷ b) t n e = ground (arith, n, e, append-injective a b t)

pub blob_name-injective : (e d : Text) → IsStored e → IsStored d → blob_name e ≡ blob_name d → e ≡ d
blob_name-injective e d he hd same =
    append-injective e d (ascii ".ciphertext.json")
      (IsStored-length e he ∙ sym (IsStored-length d hd)) same

pub apart : (d e : Text) → IsStored e → IsStored d → (e =ᵇ d) ≡ false → blob_name e ≢ blob_name d
apart d e he hd differs = λ same. bytes_eq-false e d differs (blob_name-injective e d he hd same)

pub compare_existing-ok :
    (body : Bytes) (r : Result StorageError Bytes) {fresh : Bool}
    → compare_existing body r ≡ ok fresh
    → r ≡ ok body
compare_existing-ok body (ok existing) e = elim (Bool-cases (existing =ᵇ body)) [
  | inl same ↦ ap ok (bytes_eq-to_eq existing body same)
  | inr differs ↦ ground (arith, differs, e)
]
compare_existing-ok body (err x) e = cc

module _ {F : Type 0} (fs : FileSystem F) (laws : FileSystemLaws F fs) where
  -- The blob of a digest.
  abbrev pub blob : F → Text → Option Bytes
  blob s d = laws.contents s (blob_name d)

  -- Two states with the same blobs.
  abbrev pub Same : F → F → Type 0
  Same s s' = (e : Text) → IsStored e → blob s' e ≡ blob s e

  module _ (d : Text) (body : Bytes) where
    -- Each blob is as it was, or it is the one stored now, which was not there.
    abbrev pub Adds : F → F → Type 0
    Adds s s' =
        (e : Text)
        → IsStored e
        → (blob s' e ≡ blob s e) ⊎ ((e ≡ d) × (blob s d ≡ none) × (blob s' d ≡ some body))

    -- And an outcome other than an error means that it is there.
    pub record IsPublished (s : F) (r : Result StorageError Bool × F) : Type 0 where
      pub adds : Adds s r.1
      pub there : (fresh : Bool) → r.0 ≡ ok fresh → blob r.1 d ≡ some body

    unchanged_before :
        (s s₁ : F) (r : Result StorageError Bool × F)
        → Same s s₁
        → IsPublished s₁ r
        → IsPublished s r
    unchanged_before s s₁ r same p = record {
      adds = λ e h. elim (p.adds e h) [
        | inl kept ↦ inl (kept ∙ same e h)
        | inr (eq, absent, stored) ↦
            inr (eq, sym (subst (λ x. blob s₁ x ≡ blob s x) eq (same e h)) ∙ absent, stored)
      ];
      there = p.there;
    }

    pub and_then-IsPublished :
        {A : Type 0} (s : F) (x : Result StorageError A × F)
        (k : A → F → Result StorageError Bool × F)
        → Same s x.1
        → ((a : A) → x.0 ≡ ok a → IsPublished x.1 (k a x.1))
        → IsPublished s (and_then x k)
    and_then-IsPublished s (ok a, s₁) k same h = unchanged_before s s₁ (k a s₁) same (h a refl)
    and_then-IsPublished s (err e, s₁) k same h = record {
      adds = λ e h. inl (same e h);
      there = λ fresh e. cc;
    }

    pub after_cleanup-IsPublished :
        (digest : IsStored d) (s s₁ : F) (r : Result StorageError Bool)
        (y : Result StorageError (Unit {0}) × F)
        → IsPublished s (r, s₁)
        → Same s₁ y.1
        → IsPublished s (after_cleanup r y)
    after_cleanup-IsPublished digest s s₁ r (ok u, s₂) p same = record {
      adds = later;
      there = λ fresh e. same d digest ∙ p.there fresh e;
    }
      where
        later : Adds s s₂
        later e h = elim (p.adds e h) [
          | inl kept ↦ inl (same e h ∙ kept)
          | inr (eq, absent, stored) ↦ inr (eq, absent, same d digest ∙ stored)
        ]
    after_cleanup-IsPublished digest s s₁ r (err x, s₂) p same = record {
      adds = later;
      there = λ fresh e. cc;
    }
      where
        later : Adds s s₂
        later e h = elim (p.adds e h) [
          | inl kept ↦ inl (same e h ∙ kept)
          | inr (eq, absent, stored) ↦ inr (eq, absent, same d digest ∙ stored)
        ]
