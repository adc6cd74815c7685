-- ===== src/Cipherstore/Filesystem.antt =====
-- cipherstore/src/filesystem-storage.ts: the storage in a directory. The calls of the file system are
-- the fields of `FileSystem`: each may fail, and a failed call may have changed the state. The
-- queue of a directory's writers, which runs one of these actions at a time, is not modelled.
pub mod Laws
pub mod Writing
pub mod Written
pub mod Published
pub mod Sample
mod Trials
use vulnseal.Prelude.{
  ℕ, ◌≡◌, ◌≢◌, Bool, true, false, not, ◌&&◌, Option, none, some, List, [], ◌∷◌, ◌++◌, Bytes, length,
  all, leb, ltb, ◌==◌, ◌=ᵇ◌, if◌then◌else◌, Result, ok, err, guard, ◌>>=◌, ◌>>◌,
}
use vulnseal.Contract.Types.{ascii}
use vulnseal.Shared.Hex.{Text, is_hex}
use vulnseal.Shared.Json.{max_safe_integer}
use vulnseal.Cipherstore.Storage.{
  StorageError, Action, CiphertextStorage, validate_digest, immutable_conflict, not_found,
  probe_mismatch,
}
use vulnseal.Cipherstore.Capacity.{Entry, check_capacity}

-- What `link` comes to: `exists` is its error EEXIST.
pub data LinkOutcome : Type 0 where
  linked : LinkOutcome
  exists : LinkOutcome
  not_linked : StorageError → LinkOutcome

-- The directory: its calls, and the random part of a new name.
pub record FileSystem (F : Type 0) : Type 0 where
  pub mkdir : Action F (Unit {0})
  pub read_file : Text → F → Result StorageError Bytes
  pub open_new : Text → Action F (Unit {0})
  pub write_file : Text → Bytes → Action F (Unit {0})
  pub sync : Text → Action F (Unit {0})
  pub close : Text → Action F (Unit {0})
  pub link : Text → Text → F → LinkOutcome × F
  pub unlink : Text → Action F (Unit {0})
  pub entries : F → Result StorageError (List Entry)
  pub random_uuid : F → Text

abbrev pub and_then :
    {F A B : Type 0} → Result StorageError A × F → (A → Action F B) → Result StorageError B × F
and_then (ok a, s) k = k a s
and_then (err e, s) k = (err e, s)

-- The outcome of a `finally` block: its own error takes the place of what came before.
abbrev pub after_cleanup :
    {F A : Type 0}
    → Result StorageError A
    → Result StorageError (Unit {0}) × F
    → Result StorageError A × F
after_cleanup r (ok _, s) = (r, s)
after_cleanup r (err e, s) = (err e, s)

-- `try { action } finally { cleanup }`
abbrev pub finally : {F A : Type 0} → Action F A → Action F (Unit {0}) → Action F A
finally action cleanup s = after_cleanup (action s).0 (cleanup (action s).1)

-- A call that only reads.
abbrev pub reading : {F A : Type 0} → Result StorageError A → Action F A
reading r s = (r, s)

abbrev pub blob_name : Text → Text
blob_name digest = digest ++ ascii ".ciphertext.json"

abbrev pub temporary : Text → Text → Text
temporary name uuid = name ++ (b'.' ∷ uuid ++ ascii ".tmp")

abbrev pub probe_bytes : Bytes
probe_bytes = ascii "vulnseal-storage-probe"

-- An existing file against the body that was to be stored.
abbrev pub compare_existing : Bytes → Result StorageError Bytes → Result StorageError Bool
compare_existing body (ok existing) = if existing =ᵇ body then ok false else err immutable_conflict
compare_existing body (err e) = err e

-- An unlink for which ENOENT is no error.
abbrev pub absent_is_ok :
    {F : Type 0} → Result StorageError (Unit {0}) × F → Result StorageError (Unit {0}) × F
absent_is_ok (err not_found, s) = (ok tt, s)
absent_is_ok (r, s) = (r, s)

module _ {F : Type 0} (fs : FileSystem F) where
  -- `writeFile`, `sync`, and `close` in any case.
  unfoldable pub write_out : Text → Bytes → Action F (Unit {0})
  write_out temp body =
      finally (λ s. and_then (fs.write_file temp body s) (λ _. fs.sync temp)) (fs.close temp)

  abbrev pub after_link : Text → Bytes → LinkOutcome × F → Result StorageError Bool × F
  after_link name body (linked, s) = (ok true, s)
  after_link name body (exists, s) = (compare_existing body (fs.read_file name s), s)
  after_link name body (not_linked e, s) = (err e, s)

  -- The `try` of `storeImmutable`.
  unfoldable pub publish : Text → Text → Bytes → Action F Bool
  unfolding write_out ◌=ᵇ◌
  publish name temp body s =
      and_then (write_out temp body s) (λ _ s₁. after_link name body (fs.link temp name s₁))

  unfoldable pub store_immutable : Text → Bytes → Action F Bool
  unfolding publish
  store_immutable name body s =
      let temp = temporary name (fs.random_uuid s) in
      and_then (fs.open_new temp s) (λ _. finally (publish name temp body) (fs.unlink temp))

  module _ (max_bytes max_blobs : ℕ) where
    abbrev pub has_room : ℕ → F → Result StorageError (Unit {0})
    has_room incoming s = fs.entries s >>= check_capacity incoming max_bytes max_blobs 0 0

    unfoldable pub prepare : Action F (Unit {0})
    prepare s = fs.mkdir s

    unfoldable pub read : Text → Action F Bytes
    unfolding validate_digest
    read digest s = (validate_digest digest >>= λ _. fs.read_file (blob_name digest) s, s)

    -- `put` in its turn, with the outcome of looking for an existing file.
    unfoldable pub put_found : Text → Bytes → Result StorageError Bytes → Action F Bool
    unfolding store_immutable check_capacity ◌=ᵇ◌
    put_found name body (ok existing) s = (compare_existing body (ok existing), s)
    put_found name body (err not_found) s =
        and_then (has_room (length body) s, s) (λ _. store_immutable name body)
    put_found name body (err e) s = (err e, s)

    unfoldable pub put : Text → Bytes → Action F Bool
    unfolding validate_digest prepare put_found
    put digest body s =
        let name = blob_name digest in
        and_then (validate_digest digest, s)
          (λ _ s₁. and_then (prepare s₁) (λ _ s₂. put_found name body (fs.read_file name s₂) s₂))

    abbrev pub same_probe : Result StorageError Bytes → Result StorageError (Unit {0})
    same_probe (ok bytes) = guard (bytes =ᵇ probe_bytes) probe_mismatch
    same_probe (err e) = err e

    unfoldable pub write_probe : Text → Action F (Unit {0})
    unfolding store_immutable ◌=ᵇ◌
    write_probe name s =
        and_then (store_immutable name probe_bytes s)
          (λ _ s₁. (same_probe (fs.read_file name s₁), s₁))

    unfoldable pub check_readiness : Action F (Unit {0})
    unfolding prepare write_probe check_capacity
    check_readiness s = and_then (prepare s) (λ _ s₁.
        and_then (has_room 1 s₁, s₁)
          (λ _ s₂.
            let name = ascii ".readiness-" ++ (fs.random_uuid s₂ ++ ascii ".tmp") in
            finally (write_probe name) (λ s₃. absent_is_ok (fs.unlink name s₃)) s₂))

    abbrev pub filesystem_storage : CiphertextStorage F
    filesystem_storage = record {
      prepare = prepare;
      read = read;
      put = put;
      check_readiness = check_readiness;
    }

-- The constructor's check of the limits.
abbrev pub are_limits : ℕ → ℕ → Bool
are_limits max_bytes max_blobs = leb max_bytes max_safe_integer && leb max_blobs max_safe_integer
