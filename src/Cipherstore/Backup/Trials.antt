-- ===== src/Cipherstore/Backup/Trials.antt =====
-- The restoration of a backup of one blob.
use vulnseal.Prelude.{
  ◌≡◌, refl, true, false, Option, some, [], ◌∷◌, Bytes, ◌=ᵇ◌, if◌then◌else◌, insert, ok,
}
use vulnseal.Contract.Types.{ascii}
use vulnseal.Shared.Hex.{Text}
use vulnseal.Shared.Base64.{sextets, octets}
use vulnseal.Shared.Json.{
  Json, object, array, field, no_fields, string, number, integer, item, no_items, get_field,
}
use vulnseal.Shared.Envelope.{after, is_aad, sort, same_texts, has_envelope_keys}
use vulnseal.Shared.Order.{text_le}
use vulnseal.Cipherstore.Envelope.{parse, decode, validate_envelope}
use vulnseal.Cipherstore.Retirement.{has}
use vulnseal.Cipherstore.Filesystem.{write_out, blob_name}
use vulnseal.Cipherstore.Filesystem.Sample.{without, directory, directory_laws, no_files}
use vulnseal.Cipherstore.Sample.{digest, one_digest, decode_ascii, read_envelope}
use vulnseal.Cipherstore.Backup.{
  Manifest, Reading, manifest_name, read_regular, read_blob, read_entry, read_entries, read_head,
  verify_cipherstore_backup, write_exclusive, read_again, restore_blobs, restore_all, restore_into,
  restore_cipherstore_backup,
}
use vulnseal.Cipherstore.Backup.Restored.{Empty}
use vulnseal.Cipherstore.Backup.Safety.{Safe, Stand, restore_cipherstore_backup-Safe}

abbrev manifest_json : Json
manifest_json = object (
    field (ascii "format") (string (ascii "vulnseal-cipherstore-backup")) (
      field (ascii "version") (number (integer false 1)) (
        field (ascii "createdAt") (string (ascii "now")) (
          field (ascii "blobs")
            (array (
              item
                (object (
                  field (ascii "digest") (string digest)
                    (field (ascii "bytes") (number (integer false 3)) no_fields)))
                no_items))
            no_fields))))

abbrev read_json : Text → Option Json
unfolding ◌=ᵇ◌
read_json t = if t =ᵇ (1 ∷ []) then some manifest_json else read_envelope t

abbrev same_text : Bytes → Text
same_text t = t

abbrev backup : Reading
unfolding ◌=ᵇ◌
backup = record {
  lstat = λ n. ok (record { is_file = true; size = 3 });
  read_file = λ n. if n =ᵇ manifest_name then ok (1 ∷ []) else ok (7 ∷ 7 ∷ 7 ∷ []);
  names = ok (manifest_name ∷ blob_name digest ∷ []);
}

abbrev manifest : Manifest
manifest = record { created_at = ascii "now"; blobs = record { digest = digest; bytes = 3 } ∷ [] }

verified :
    verify_cipherstore_backup one_digest decode_ascii read_json (λ t. true) same_text backup
    ≡ ok manifest
unfolding read_json backup ◌=ᵇ◌ verify_cipherstore_backup read_regular read_head read_entries
    read_entry read_blob validate_envelope parse decode sextets octets has_envelope_keys is_aad
    after text_le sort same_texts get_field has
verified = refl

no_file : Empty one_digest decode_ascii read_json (λ t. true) directory directory_laws []
unfolding Empty
no_file = no_files

restore_cipherstore_backup-Safe_example :
    let r =
      restore_cipherstore_backup one_digest decode_ascii read_json
        (λ t. true)
        directory
        same_text
        (λ s. (ok tt, s))
        (λ s. (ok tt, s))
        backup
        backup
        []
        true
        [] in
    Safe one_digest decode_ascii read_json (λ t. true) directory directory_laws manifest.blobs r.1
    × ((m' : Manifest)
        → r.0 ≡ ok m'
        → (manifest ≡ m')
          × Stand one_digest decode_ascii read_json
              (λ t. true)
              directory
              directory_laws
              r.1
              manifest.blobs)
restore_cipherstore_backup-Safe_example =
    restore_cipherstore_backup-Safe one_digest decode_ascii read_json (λ t. true) directory
      directory_laws same_text (λ s. (ok tt, s)) (λ s. (ok tt, s)) (λ n s. refl) (λ n s. refl)
      backup backup [] true [] manifest verified no_file

-- The blob is there, and the marker is not.
restored :
    (restore_cipherstore_backup one_digest decode_ascii read_json
      (λ t. true)
      directory
      same_text
      (λ s. (ok tt, s))
      (λ s. (ok tt, s))
      backup
      backup
      []
      true
      [])
    ≡ (ok manifest, (blob_name digest, 7 ∷ 7 ∷ 7 ∷ []) ∷ [])
unfolding read_json backup ◌=ᵇ◌ verify_cipherstore_backup read_regular read_head read_entries
    read_entry read_blob validate_envelope parse decode sextets octets has_envelope_keys is_aad
    after text_le sort same_texts get_field has without insert write_out write_exclusive read_again
    restore_blobs restore_all restore_into restore_cipherstore_backup
restored = refl
