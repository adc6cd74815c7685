-- ===== src/Cipherstore/Filesystem/Published.antt =====
-- cipherstore/src/filesystem-storage.ts: what a `put` leaves in the directory, failures included.
use vulnseal.Prelude.{ℕ, ◌≡◌, refl, ◌∙◌, inl, Bytes, length, Result, ok, err}
use vulnseal.Shared.Hex.{Text}
use vulnseal.Cipherstore.Storage.{
  StorageError, validate_digest, not_found, invalid_digest, invalid_envelope, payload_too_large,
  immutable_conflict, capacity_exceeded, no_space, busy, probe_mismatch, unsupported, other,
}
use vulnseal.Cipherstore.Filesystem.{
  FileSystem, blob_name, temporary, store_immutable, has_room, prepare, put_found, put,
}
use vulnseal.Cipherstore.Filesystem.Laws.{
  FileSystemLaws, IsStored, blob_name-temporary, compare_existing-ok, IsPublished,
  and_then-IsPublished,
}
use vulnseal.Cipherstore.Filesystem.Written.{stored_through}

module _ {F : Type 0} (fs : FileSystem F) (laws : FileSystemLaws F fs) where
  module _ (d : Text) (body : Bytes) where
    module _ (max_bytes max_blobs : ℕ) where
      refused : (s : F) (x : StorageError) → IsPublished fs laws d body s (err x, s)
      refused s x = record { adds = λ e h. inl refl; there = λ fresh e. cc }

      put_found-IsPublished :
          (digest : IsStored d) (s : F) (r : Result StorageError Bytes)
          → fs.read_file (blob_name d) s ≡ r
          → IsPublished fs laws d body s (put_found fs max_bytes max_blobs (blob_name d) body r s)
      unfolding put_found store_immutable
      put_found-IsPublished digest s (ok existing) eq = record {
        adds = λ e h. inl refl;
        there = λ fresh e.
            laws.read_finds (blob_name d) s (eq ∙ compare_existing-ok body (ok existing) e);
      }
      put_found-IsPublished digest s (err not_found) eq =
          let temp = temporary (blob_name d) (fs.random_uuid s) in
          and_then-IsPublished fs laws d body s (has_room fs max_bytes max_blobs (length body) s, s)
            _ (λ e h. refl)
            (λ u room.
              stored_through fs laws d body temp
                (λ e h. blob_name-temporary e d (fs.random_uuid s) h digest) digest s)
      put_found-IsPublished digest s (err invalid_digest) eq = refused s invalid_digest
      put_found-IsPublished digest s (err invalid_envelope) eq = refused s invalid_envelope
      put_found-IsPublished digest s (err payload_too_large) eq = refused s payload_too_large
      put_found-IsPublished digest s (err immutable_conflict) eq = refused s immutable_conflict
      put_found-IsPublished digest s (err capacity_exceeded) eq = refused s capacity_exceeded
      put_found-IsPublished digest s (err no_space) eq = refused s no_space
      put_found-IsPublished digest s (err busy) eq = refused s busy
      put_found-IsPublished digest s (err probe_mismatch) eq = refused s probe_mismatch
      put_found-IsPublished digest s (err unsupported) eq = refused s unsupported
      put_found-IsPublished digest s (err other) eq = refused s other

      -- Whatever fails on the way, a `put` leaves every blob as it was, but for one that was not there
      -- and has the body now; and it says so only when the blob has that body.
      pub put-IsPublished :
          (s : F) → IsPublished fs laws d body s (put fs max_bytes max_blobs d body s)
      unfolding put prepare
      put-IsPublished s =
          and_then-IsPublished fs laws d body s (validate_digest d, s) _ (λ e h. refl)
            (λ u digest.
              and_then-IsPublished fs laws d body s (fs.mkdir s) _
                (λ e h. laws.mkdir_keeps (blob_name e) s)
                (λ v made.
                  let s₁ = (fs.mkdir s).1 in
                  put_found-IsPublished digest s₁ (fs.read_file (blob_name d) s₁) refl))
