-- ===== src/Cipherstore/Sqlite.antt =====
-- cipherstore/src/sqlite-worker.ts and sqlite-storage.ts: the storage over an SQLite database. The
-- database is the parameter `Database`: its states, the statements that the worker runs, and what
-- SQLite's documentation says of them. A statement that SQLite refuses throws its error code. A
-- transaction that fails leaves the state in which it began: the worker rolls it back, unless SQLite
-- has done so before.
pub mod Promises
use vulnseal.Prelude.{
  ℕ, ◌+◌, ◌*◌, ◌%◌, ◌≤◌, ◌≡◌, ◌≢◌, Bool, true, false, ◌||◌, ◌&&◌, Option, none, some, List, Bytes,
  length, ltb, leb, ◌==◌, ◌=ᵇ◌, if◌then◌else◌, Result, ok, err, ◌>>=◌, ◌>>◌, guard, not,
}
use vulnseal.Contract.Types.{ascii}
use vulnseal.Shared.Hex.{Text}
use vulnseal.Cipherstore.Storage.{
  StorageError, Action, CiphertextStorage, validate_digest, payload_too_large, immutable_conflict,
  capacity_exceeded, busy, not_found, probe_mismatch, other,
}

-- What a worker's operation throws: an error of SQLite with its code, or one of the worker's.
pub data Failure : Type 0 where
  sqlite : ℕ → Failure
  thrown : StorageError → Failure

pub record Database (T : Type 0) : Type 0 where
  pub initialize : T → Result Failure (Unit {0})
  pub begin_immediate : T → Result Failure (Unit {0})
  pub commit : T → Result Failure (Unit {0})
  pub select_body : Text → T → Option Bytes
  pub insert_blob : Text → Bytes → T → Result Failure T
  pub delete_blob : Text → T → Result Failure (Bool × T)
  pub count : T → ℕ
  pub total_bytes : T → ℕ
  pub insert_probe : Bytes → T → Result Failure T
  pub select_probe : T → Option Bytes
  pub delete_probe : T → Result Failure T

-- A statement on the probe leaves the blobs.
pub record SameRows {T : Type 0} (db : Database T) (t t' : T) : Type 0 where
  pub bodies : (d : Text) → db.select_body d t' ≡ db.select_body d t
  pub counted : db.count t' ≡ db.count t
  pub measured : db.total_bytes t' ≡ db.total_bytes t

-- The documented behaviour of the statements; and opening a database does not fail for a blob that
-- is not there.
pub record DatabaseLaws (T : Type 0) (db : Database T) : Type 0 where
  pub opening : (t : T) → db.initialize t ≢ err (thrown not_found)
  pub inserted :
      (d : Text) (body : Bytes) (t t' : T)
      → db.insert_blob d body t ≡ ok t'
      → (db.select_body d t' ≡ some body)
        × ((e : Text) → e ≢ d → db.select_body e t' ≡ db.select_body e t)
  pub insert_counts :
      (d : Text) (body : Bytes) (t t' : T)
      → db.insert_blob d body t ≡ ok t'
      → (db.count t' ≡ db.count t + 1) × (db.total_bytes t' ≡ db.total_bytes t + length body)
  pub probe_inserted : (body : Bytes) (t t' : T) → db.insert_probe body t ≡ ok t' → SameRows db t t'
  pub probe_deleted : (t t' : T) → db.delete_probe t ≡ ok t' → SameRows db t t'

-- `primary`, and the message that stands for it.
abbrev pub error_message : Failure → StorageError
error_message (thrown e) = e
error_message (sqlite code) =
    if (code % 256 == 5) || (code % 256 == 6)
    then busy
    else if code % 256 == 13
    then capacity_exceeded
    else other

abbrev pub max_body : ℕ
max_body = 5242880

abbrev pub probe : Bytes
probe = ascii "vulnseal-storage-probe"

abbrev pub thrown_by : {A : Type 0} → Result StorageError A → Result Failure A
thrown_by (ok a) = ok a
thrown_by (err e) = err (thrown e)

module _ {T : Type 0} (db : Database T) (max_bytes max_blobs : ℕ) where
  -- `totals.bytes > maxBytes - incoming`, which may be below zero in the source.
  unfoldable pub capacity : ℕ → T → Result Failure (Unit {0})
  capacity incoming t =
      guard (not (leb max_blobs (db.count t) || ltb max_bytes (db.total_bytes t + incoming)))
        (thrown capacity_exceeded)

  unfoldable pub transaction :
      {A : Type 0} → (T → Result Failure (A × T)) → T → Result Failure (A × T)
  transaction action t = do db.begin_immediate t; r ← action t; db.commit r.1; ok r

  -- The body of `put`'s transaction.
  unfoldable pub put_row : Text → Bytes → T → Result Failure (Bool × T)
  unfolding capacity ◌=ᵇ◌
  put_row digest body t = elim (db.select_body digest t) [
    | some existing ↦ (if existing =ᵇ body then ok (false, t) else err (thrown immutable_conflict))
    | none ↦ (do capacity (length body) t; t' ← db.insert_blob digest body t; ok (true, t'))
  ]

  -- The body of the readiness check's transaction.
  unfoldable pub probe_row : T → Result Failure (Unit {0} × T)
  unfolding capacity ◌=ᵇ◌
  probe_row t = do
    capacity 1 t
    t' ← db.insert_probe probe t
    guard (elim (db.select_probe t') [ none ↦ false | some body ↦ body =ᵇ probe ])
        (thrown probe_mismatch)
    t'' ← db.delete_probe t'
    ok (tt, t'')

  -- The reply of the worker: its error's message, or the result; a failed operation keeps the state.
  abbrev pub reply : {A : Type 0} → T → Result Failure (A × T) → Result StorageError A × T
  reply t (ok (a, t')) = (ok a, t')
  reply t (err e) = (err (error_message e), t)

  unfoldable pub prepare : Action T (Unit {0})
  prepare t = reply t (do db.initialize t; ok (tt, t))

  unfoldable pub read : Text → Action T Bytes
  unfolding validate_digest
  read digest t = reply t (do
    thrown_by (validate_digest digest)
    db.initialize t
    elim (db.select_body digest t) [ none ↦ err (thrown not_found) | some body ↦ ok (body, t) ])

  unfoldable pub put : Text → Bytes → Action T Bool
  unfolding validate_digest transaction put_row
  put digest body t = reply t (do
    thrown_by (validate_digest digest)
    db.initialize t
    guard (not (ltb max_body (length body))) (thrown payload_too_large)
    transaction (put_row digest body) t)

  unfoldable pub remove : Text → Action T Bool
  unfolding validate_digest transaction
  remove digest t = reply t (do
    thrown_by (validate_digest digest)
    db.initialize t
    transaction (db.delete_blob digest) t)

  unfoldable pub check_readiness : Action T (Unit {0})
  unfolding transaction probe_row
  check_readiness t = reply t (do db.initialize t; transaction probe_row t)

  abbrev pub sqlite_storage : CiphertextStorage T
  sqlite_storage = record {
    prepare = prepare;
    read = read;
    put = put;
    check_readiness = check_readiness;
  }
