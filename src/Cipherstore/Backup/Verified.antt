-- ===== src/Cipherstore/Backup/Verified.antt =====
-- cipherstore/src/backup.ts, `verifyCipherstoreBackup`: what a verified backup holds.
use vulnseal.Prelude.{
  ℕ, ◌*◌, ◌≡◌, ◌≢◌, arith, Bool, true, false, not, ◌||◌, Option, List, [], ◌∷◌, ◌++◌, Bytes, All,
  length, ◌==◌, ◌=ᵇ◌, Result, ok, >>=-ok, guard-ok, ok-injective, bytes_eq_iff, bytes_eq-to_eq,
}
use mathlib.Core.Path.{subst}
use vulnseal.Contract.Types.{ascii}
use vulnseal.Shared.Hex.{Text}
use vulnseal.Shared.Json.{Json, Items, no_items, item, get_field, string}
use vulnseal.Cipherstore.Storage.{StorageError, other, validate_digest}
use vulnseal.Shared.Envelope.{sort, same_texts}
use vulnseal.Cipherstore.Upload.{max_ciphertext_bytes}
use vulnseal.Cipherstore.Envelope.{validate_envelope}
use vulnseal.Cipherstore.Filesystem.{blob_name}
use vulnseal.Cipherstore.Filesystem.Laws.{IsStored}
use vulnseal.Cipherstore.Retirement.{has}
use vulnseal.Cipherstore.Backup.{
  BackupEntry, Manifest, Reading, exact, digest_of, size_of, read_regular, read_blob, read_entry,
  read_entries, read_head, verify_cipherstore_backup, parsed, manifest_name, expected_names,
}

-- No two entries have one digest.
abbrev pub Distinct : List BackupEntry → Type 0
Distinct [] = Unit {0}
Distinct (e ∷ es) = All (λ x. x.digest ≢ e.digest) es × Distinct es

digest_of-ok : (value : Json) {d : Text} → digest_of value ≡ ok d → IsStored d
unfolding validate_digest
digest_of-ok (string t) {d} h = subst IsStored (ok-injective (accepted t h)) (valid t h)
  where
    accepted :
        (t : Text) {d : Text}
        → digest_of (string t) ≡ ok d
        → ◌≡◌ {A = Result StorageError Text} (ok t) (ok d)
    accepted t h = ground (arith, h)

    valid : (t : Text) {d : Text} → digest_of (string t) ≡ ok d → IsStored t
    valid t h = ground (arith, h)
digest_of-ok value h = cc

has-append : (ids : List Text) (d e : Text) → has (ids ++ d ∷ []) e ≡ (has ids e || (d =ᵇ e))
unfolding has
has-append [] d e = ground arith
has-append (i ∷ ids) d e = ground (arith, has-append ids d e)

pub same_size : (m n : ℕ) → (m == n) ≡ true → m ≡ n
same_size m n h = ground (arith, h)

is_new : (ids : List Text) (d : Text) → not (has ids d) ≡ true → has ids d ≡ false
is_new ids d h = ground (arith, h)

module _ (sha256 : Bytes → Text) (decode_utf8 : Bytes → Option Text)
    (parse_json : Text → Option Json) where
  -- What reading a blob tells of its bytes.
  pub record IsBlob (digest : Text) (bytes : Bytes) : Type 0 where
    pub matches : sha256 bytes ≡ digest
    pub sealed : validate_envelope decode_utf8 parse_json bytes ≡ ok tt

module _ (sha256 : Bytes → Text) (decode_utf8 : Bytes → Option Text)
    (parse_json : Text → Option Json) (is_date : Text → Bool) (directory : Reading) where
  -- An entry for a blob of the backup.
  pub record IsEntry (e : BackupEntry) : Type 0 where
    pub named : IsStored e.digest
    pub bytes : Bytes
    pub found : read_blob sha256 decode_utf8 parse_json is_date directory e.digest ≡ ok bytes
    pub counted : length bytes ≡ e.bytes

  pub read_blob-IsBlob :
      (digest : Text) {bytes : Bytes}
      → read_blob sha256 decode_utf8 parse_json is_date directory digest ≡ ok bytes
      → IsBlob sha256 decode_utf8 parse_json digest bytes
  unfolding read_blob
  read_blob-IsBlob digest h =
      >>=-ok (read_regular directory (blob_name digest) max_ciphertext_bytes) _ h λ b r h₁.
        guard-ok (sha256 b =ᵇ digest) other _ h₁ λ same h₂.
          >>=-ok (validate_envelope decode_utf8 parse_json b) _ h₂ λ u valid h₃.
            subst (IsBlob sha256 decode_utf8 parse_json digest) (ok-injective h₃)
              (record { matches = bytes_eq-to_eq (sha256 b) digest same; sealed = valid })

  read_entry-ok :
      (ids : List Text) (value : Json) {e : BackupEntry}
      → read_entry sha256 decode_utf8 parse_json is_date directory ids value ≡ ok e
      → IsEntry e × (has ids e.digest ≡ false)
  unfolding read_entry
  read_entry-ok ids value h =
      >>=-ok (exact (ascii "digest" ∷ ascii "bytes" ∷ []) value) _ h λ fields x h₁.
        >>=-ok (digest_of (get_field (ascii "digest") fields)) _ h₁ λ d named h₂.
          guard-ok (not (has ids d)) other _ h₂ λ fresh h₃.
            >>=-ok (size_of (get_field (ascii "bytes") fields)) _ h₃ λ n sized h₄.
              >>=-ok (read_blob sha256 decode_utf8 parse_json is_date directory d) _ h₄
                λ b found h₅. guard-ok (length b == n) other _ h₅ λ counted h₆.
                  subst (λ x. IsEntry x × (has ids x.digest ≡ false)) (ok-injective h₆)
                    (
                      record {
                        named = digest_of-ok (get_field (ascii "digest") fields) named;
                        bytes = b;
                        found = found;
                        counted = same_size (length b) n counted;
                      },
                      is_new ids d fresh,
                    )

  weaken :
      (ids : List Text) (d : Text) (es : List BackupEntry)
      → All (λ x. IsEntry x × (has (ids ++ d ∷ []) x.digest ≡ false)) es
      → All (λ x. IsEntry x × (has ids x.digest ≡ false)) es × All (λ x. x.digest ≢ d) es
  weaken ids d [] h = (tt, tt)
  weaken ids d (e ∷ es) ((entry, fresh), rest) =
      let (before, apart) = weaken ids d es rest in
      (
        ((entry, ground (arith, fresh, has-append ids d e.digest)), before),
        (ground (arith, fresh, has-append ids d e.digest, bytes_eq_iff d e.digest), apart),
      )

  read_entries-ok :
      (ids : List Text) (items : Items) {es : List BackupEntry}
      → read_entries sha256 decode_utf8 parse_json is_date directory ids items ≡ ok es
      → All (λ x. IsEntry x × (has ids x.digest ≡ false)) es × Distinct es
  unfolding read_entries
  read_entries-ok ids no_items h =
      subst (λ es. All (λ x. IsEntry x × (has ids x.digest ≡ false)) es × Distinct es)
        (ok-injective h) (tt, tt)
  read_entries-ok ids (item value rest) h =
      >>=-ok (read_entry sha256 decode_utf8 parse_json is_date directory ids value) _ h
        λ e first h₁.
          >>=-ok
            (read_entries sha256 decode_utf8 parse_json is_date directory (ids ++ e.digest ∷ [])
              rest)
            _ h₁
            λ es later h₂.
              let (all_entries, distinct) = read_entries-ok (ids ++ e.digest ∷ []) rest later in
              let (before, apart) = weaken ids e.digest es all_entries in
              subst (λ es. All (λ x. IsEntry x × (has ids x.digest ≡ false)) es × Distinct es)
                (ok-injective h₂) ((read_entry-ok ids value first, before), (apart, distinct))

  -- A verified manifest has an entry for each of its digests, no digest twice, and each entry's blob
  -- is in the backup, under its SHA-256, as long as the entry says, and a sealed report.
  pub record IsVerified (es : List BackupEntry) : Type 0 where
    pub distinct : Distinct es
    pub entries : All IsEntry es

  forget :
      (es : List BackupEntry) → All (λ x. IsEntry x × (has [] x.digest ≡ false)) es → All IsEntry es
  forget [] h = tt
  forget (e ∷ es) ((entry, fresh), rest) = (entry, forget es rest)

  pub verify-IsVerified :
      (to_text : Bytes → Text) {m : Manifest}
      → verify_cipherstore_backup sha256 decode_utf8 parse_json is_date to_text directory ≡ ok m
      → IsVerified m.blobs
  unfolding verify_cipherstore_backup
  verify-IsVerified to_text {m} h =
      >>=-ok (read_regular directory manifest_name (16 * 1024 * 1024)) _ h λ bytes r₁ h₁.
        >>=-ok (parsed sha256 decode_utf8 parse_json is_date (parse_json (to_text bytes))) _ h₁
          λ value r₂ h₂.
            >>=-ok (read_head sha256 decode_utf8 parse_json is_date value) _ h₂ λ head r₃ h₃.
              >>=-ok (read_entries sha256 decode_utf8 parse_json is_date directory [] head.1) _ h₃
                λ es r₄ h₄. >>=-ok directory.names _ h₄ λ names r₅ h₅.
                  guard-ok
                    (same_texts (sort names)
                      (sort (expected_names sha256 decode_utf8 parse_json is_date es)))
                    other _ h₅
                    λ same h₆.
                      let (all_entries, distinct) = read_entries-ok [] head.1 r₄ in
                      subst (λ x. IsVerified x.blobs) (ok-injective h₆)
                        (record { distinct = distinct; entries = forget es all_entries })
