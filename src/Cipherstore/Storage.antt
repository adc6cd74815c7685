-- ===== src/Cipherstore/Storage.antt =====
-- cipherstore/src/storage.ts: the interface of a blob storage, its errors and what it promises.
-- An operation takes the storage's state and returns its outcome with the next state; the promises
-- are those of the interface's comments.
use vulnseal.Prelude.{
  ◌≡◌, ◌≢◌, ◌⊎◌, Bool, true, false, ◌&&◌, Option, none, some, all, Bytes, length, ◌==◌,
  if◌then◌else◌, Result, ok, err,
}
use vulnseal.Shared.Hex.{Text, is_hex}

-- The errors that the storages throw and that the server tells apart.
pub data StorageError : Type 0 where
  invalid_digest : StorageError
  invalid_envelope : StorageError
  payload_too_large : StorageError
  immutable_conflict : StorageError
  capacity_exceeded : StorageError
  no_space : StorageError
  busy : StorageError
  not_found : StorageError
  probe_mismatch : StorageError
  unsupported : StorageError
  other : StorageError

-- `validateStorageDigest`
unfoldable pub validate_digest : Text → Result StorageError (Unit {0})
validate_digest digest =
    if (length digest == 64) && all is_hex digest then ok tt else err invalid_digest

-- An action of a storage with the states `S`.
abbrev pub Action : Type 0 → Type 0 → Type 0
Action S A = S → Result StorageError A × S

pub record CiphertextStorage (S : Type 0) : Type 0 where
  pub prepare : Action S (Unit {0})
  pub read : Text → Action S Bytes
  pub put : Text → Bytes → Action S Bool
  pub check_readiness : Action S (Unit {0})

-- Two states that hold the same blobs.
abbrev pub SameBlobs : {S : Type 0} → (S → Text → Option Bytes) → S → S → Type 0
SameBlobs blob s s' = (d : Text) → blob s' d ≡ blob s d

-- What each outcome of `put` says of the blobs before and after.
abbrev pub PutOutcome :
    {S : Type 0}
    → (S → Text → Option Bytes)
    → Text
    → Bytes
    → S
    → S
    → Result StorageError Bool
    → Type 0
PutOutcome blob digest body s s' (ok true) =
    (blob s digest ≡ none)
    × (blob s' digest ≡ some body)
    × ((d : Text) → d ≢ digest → blob s' d ≡ blob s d)
PutOutcome blob digest body s s' (ok false) = (blob s digest ≡ some body) × SameBlobs blob s s'
PutOutcome blob digest body s s' (err e) = SameBlobs blob s s'

-- What every storage promises of `put`: that, but for an error after which the blob may stand all the
-- same, as in a directory where it was linked and the call after that failed.
abbrev pub PutPromise :
    {S : Type 0}
    → (S → Text → Option Bytes)
    → Text
    → Bytes
    → S
    → S
    → Result StorageError Bool
    → Type 0
PutPromise blob digest body s s' (ok fresh) = PutOutcome blob digest body s s' (ok fresh)
PutPromise blob digest body s s' (err e) =
    SameBlobs blob s s' ⊎ PutOutcome blob digest body s s' (ok true)

-- What each outcome of `read` says of the blobs.
abbrev pub ReadOutcome :
    {S : Type 0} → (S → Text → Option Bytes) → Text → S → Result StorageError Bytes → Type 0
ReadOutcome blob digest s (ok body) = blob s digest ≡ some body
ReadOutcome blob digest s (err not_found) = blob s digest ≡ none
ReadOutcome blob digest s (err e) = Unit {0}

-- The interface's promises; `blob` is the abstract view, the blobs that a state holds.
pub record StorageLaws (S : Type 0) (storage : CiphertextStorage S) : Type 0 where
  pub blob : S → Text → Option Bytes
  pub prepare_keeps : (s : S) → SameBlobs blob s (storage.prepare s).1
  pub read_keeps : (d : Text) (s : S) → SameBlobs blob s (storage.read d s).1
  pub read_says : (d : Text) (s : S) → ReadOutcome blob d s (storage.read d s).0
  pub put_says :
      (d : Text) (body : Bytes) (s : S)
      → PutPromise blob d body s (storage.put d body s).1 (storage.put d body s).0
  pub ready_keeps : (s : S) → SameBlobs blob s (storage.check_readiness s).1
