-- ===== src/Cipherstore/Backup.antt =====
-- cipherstore/src/backup.ts and cipherstore/src/restore-state.ts: the check of a backup and its
-- restoration to files. SHA-256 as hexadecimal text, the decoder, `JSON.parse` and `Date.parse` are
-- parameters, and so are what the calls on the backup find, when it is checked and again when it is
-- restored, and the lease of the new directory. An error without a code is `other`.
pub mod Verified
pub mod Restored
pub mod Safety
mod Trials
use vulnseal.Prelude.{
  ℕ, ◌+◌, ◌*◌, Bool, true, false, not, ◌&&◌, ◌||◌, Option, none, some, List, [], ◌∷◌, ◌++◌, map,
  Bytes, any, all, length, ltb, leb, ◌==◌, ◌=ᵇ◌, if◌then◌else◌, Result, ok, err, ◌>>=◌, ◌>>◌, guard,
}
use vulnseal.Contract.Types.{ascii}
use vulnseal.Shared.Hex.{Text, is_hex}
use vulnseal.Shared.Json.{
  Json, Items, Fields, object, array, number, integer, string, no_items, item, get_field,
  field_keys, is_one, is_exactly,
}
use vulnseal.Shared.Envelope.{sort, same_texts}
use vulnseal.Cipherstore.Storage.{StorageError, Action, other, not_found}
use vulnseal.Cipherstore.Upload.{max_ciphertext_bytes}
use vulnseal.Cipherstore.Envelope.{validate_envelope, decode}
use vulnseal.Cipherstore.Filesystem.{FileSystem, and_then, finally, reading, blob_name, write_out}
use vulnseal.Cipherstore.Retirement.{has}

abbrev pub manifest_name : Text
manifest_name = ascii "vulnseal-cipherstore-manifest.json"

abbrev pub incomplete_restore_name : Text
incomplete_restore_name = ascii ".vulnseal-restore-incomplete"

abbrev pub incomplete_text : Bytes
incomplete_text =
    ascii "Restore has not completed. Restore the verified backup into a new directory.\n"

pub record BackupEntry : Type 0 where
  pub digest : Text
  pub bytes : ℕ

pub record Manifest : Type 0 where
  pub created_at : Text
  pub blobs : List BackupEntry

pub record FileInfo : Type 0 where
  pub is_file : Bool
  pub size : ℕ

-- What the calls on a directory find; `read_file` is from the opening of a file to its closing.
pub record Reading : Type 0 where
  pub lstat : Text → Result StorageError FileInfo
  pub read_file : Text → Result StorageError Bytes
  pub names : Result StorageError (List Text)

-- `exact`
abbrev pub exact : List Text → Json → Result StorageError Fields
unfolding sort same_texts
exact keys (object fields) =
    if same_texts (sort (field_keys fields)) (sort keys) then ok fields else err other
exact keys _ = err other

unfoldable pub read_regular : Reading → Text → ℕ → Result StorageError Bytes
read_regular directory filename max = do
  info ← directory.lstat filename
  guard (info.is_file && leb info.size max) other
  bytes ← directory.read_file filename
  guard (leb (length bytes) max) other
  ok bytes

abbrev pub is_digest : Text → Bool
is_digest digest = (length digest == 64) && all is_hex digest

-- The fields of an entry, before its blob is read.
abbrev pub size_of : Json → Result StorageError ℕ
size_of (number (integer negative n)) =
    if not negative && (leb 1 n && leb n max_ciphertext_bytes) then ok n else err other
size_of _ = err other

abbrev pub digest_of : Json → Result StorageError Text
digest_of (string t) = if is_digest t then ok t else err other
digest_of _ = err other

abbrev pub blobs_of : Json → Result StorageError Items
blobs_of (array items) = ok items
blobs_of _ = err other

abbrev pub count : Items → ℕ
count no_items = 0
count (item j rest) = 1 + count rest

abbrev pub digests : List BackupEntry → List Text
digests = map (λ e. e.digest)

module _ (sha256 : Bytes → Text) (decode_utf8 : Bytes → Option Text)
    (parse_json : Text → Option Json) (is_date : Text → Bool) where
  unfoldable pub read_blob : Reading → Text → Result StorageError Bytes
  unfolding read_regular validate_envelope ◌=ᵇ◌
  read_blob directory digest = do
    bytes ← read_regular directory (blob_name digest) max_ciphertext_bytes
    guard (sha256 bytes =ᵇ digest) other
    validate_envelope decode_utf8 parse_json bytes
    ok bytes

  unfoldable pub read_entry : Reading → List Text → Json → Result StorageError BackupEntry
  unfolding read_blob sort same_texts get_field has ◌=ᵇ◌
  read_entry directory ids value = do
    fields ← exact (ascii "digest" ∷ ascii "bytes" ∷ []) value
    digest ← digest_of (get_field (ascii "digest") fields)
    guard (not (has ids digest)) other
    size ← size_of (get_field (ascii "bytes") fields)
    bytes ← read_blob directory digest
    guard (length bytes == size) other
    ok (record { digest = digest; bytes = size })

  -- The loop over the entries, with the digests that it has seen.
  unfoldable pub read_entries : Reading → List Text → Items → Result StorageError (List BackupEntry)
  unfolding read_entry
  read_entries directory ids no_items = ok []
  read_entries directory ids (item value rest) = do
    entry ← read_entry directory ids value
    entries ← read_entries directory (ids ++ entry.digest ∷ []) rest
    ok (entry ∷ entries)

  abbrev pub parsed : Option Json → Result StorageError Json
  parsed none = err other
  parsed (some value) = ok value

  abbrev pub date_of : Json → Result StorageError Text
  date_of (string t) = if is_date t then ok t else err other
  date_of _ = err other

  -- The fields of the manifest, up to its entries.
  unfoldable pub read_head : Json → Result StorageError (Text × Items)
  unfolding sort same_texts get_field ◌=ᵇ◌
  read_head value = do
    fields ← exact (ascii "format" ∷ ascii "version" ∷ ascii "createdAt" ∷ ascii "blobs" ∷ []) value
    guard (is_exactly "vulnseal-cipherstore-backup" (get_field (ascii "format") fields)) other
    guard (is_one (get_field (ascii "version") fields)) other
    created_at ← date_of (get_field (ascii "createdAt") fields)
    blobs ← blobs_of (get_field (ascii "blobs") fields)
    guard (leb (count blobs) 100000) other
    ok (created_at, blobs)

  abbrev pub expected_names : List BackupEntry → List Text
  expected_names entries = manifest_name ∷ map blob_name (digests entries)

  module _ (to_text : Bytes → Text) where
    unfoldable pub verify_cipherstore_backup : Reading → Result StorageError Manifest
    unfolding read_regular read_head read_entries sort same_texts
    verify_cipherstore_backup directory = do
      bytes ← read_regular directory manifest_name (16 * 1024 * 1024)
      value ← parsed (parse_json (to_text bytes))
      head ← read_head value
      entries ← read_entries directory [] head.1
      names ← directory.names
      guard (same_texts (sort names) (sort (expected_names entries))) other
      ok (record { created_at = head.0; blobs = entries })

  module _ {F : Type 0} (fs : FileSystem F) where
    -- `writeExclusive`
    unfoldable pub write_exclusive : Text → Bytes → Action F (Unit {0})
    unfolding write_out
    write_exclusive filename bytes s =
        and_then (fs.open_new filename s) (λ _. write_out fs filename bytes)

    -- A blob that is read again, and must be as long as it was.
    unfoldable pub read_again : Reading → BackupEntry → Result StorageError Bytes
    unfolding read_blob
    read_again directory entry = do
      bytes ← read_blob directory entry.digest
      guard (length bytes == entry.bytes) other
      ok bytes

    unfoldable pub restore_blobs : Reading → List BackupEntry → Action F (Unit {0})
    unfolding read_again write_exclusive
    restore_blobs directory [] s = (ok tt, s)
    restore_blobs directory (entry ∷ entries) s =
        and_then (read_again directory entry, s)
          (λ bytes s₁.
            and_then (write_exclusive (blob_name entry.digest) bytes s₁)
              (λ _. restore_blobs directory entries))

    -- The `try` block, over files.
    unfoldable pub restore_all : Reading → List BackupEntry → Action F (Unit {0})
    unfolding write_exclusive restore_blobs
    restore_all directory entries s =
        and_then (write_exclusive incomplete_restore_name incomplete_text s) (λ _ s₁.
          and_then (restore_blobs directory entries s₁) (λ _. fs.unlink incomplete_restore_name))

    abbrev pub allowed : List Text → List BackupEntry → Result StorageError (Unit {0})
    unfolding has
    allowed retired entries = guard (not (any (λ e. has retired e.digest) entries)) other

    module _ (to_text : Bytes → Text) (acquire release : Action F (Unit {0})) where
      -- The making of the directory, its lease, and the restoration under it.
      unfoldable pub restore_into : Reading → List BackupEntry → Action F (Unit {0})
      unfolding restore_all
      restore_into directory entries s =
          and_then (fs.mkdir s)
            (λ _ s₁. and_then (acquire s₁) (λ _. finally (restore_all directory entries) release))

      abbrev pub with_manifest :
          Manifest → Result StorageError (Unit {0}) × F → Result StorageError Manifest × F
      with_manifest manifest (ok u, s) = (ok manifest, s)
      with_manifest manifest (err e, s) = (err e, s)

      -- `restoreCipherstoreBackup` with the backend of files. `retired` are the digests of a policy,
      -- none of them without one; `outside` is whether the destination lies outside the source.
      unfoldable pub restore_cipherstore_backup :
          (checked again : Reading) (retired : List Text) (outside : Bool) → Action F Manifest
      unfolding restore_into verify_cipherstore_backup has
      restore_cipherstore_backup checked again retired outside s =
          and_then (verify_cipherstore_backup to_text checked, s)
            (λ manifest s₁.
              and_then (allowed retired manifest.blobs >> guard outside other, s₁)
                (λ _ s₂. with_manifest manifest (restore_into again manifest.blobs s₂)))

-- `assertRestoreComplete`: what looking for the marker comes to.
unfoldable pub assert_restore_complete :
    (Text → Result StorageError FileInfo) → Result StorageError (Unit {0})
assert_restore_complete lstat = looked (lstat incomplete_restore_name)
  where
    looked : Result StorageError FileInfo → Result StorageError (Unit {0})
    looked (ok info) = err other
    looked (err not_found) = ok tt
    looked (err e) = err e
