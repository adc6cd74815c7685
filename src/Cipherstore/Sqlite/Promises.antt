-- ===== src/Cipherstore/Sqlite/Promises.antt =====
-- The SQLite storage keeps what the interface of cipherstore/src/storage.ts promises.
use vulnseal.Prelude.{
  ℕ, ◌+◌, ◌≤◌, ◌≡◌, ◌≢◌, refl, ap, ◌∙◌, Bool, true, false, not, Option, none, some, Bytes, length,
  ltb, arith, ◌=ᵇ◌, bytes_eq-to_eq, if◌then◌else◌, Result, ok, err, ◌>>=◌, ◌>>◌, >>=-ok, guard-ok,
  guard, inl, inr, Bool-cases,
}
use vulnseal.Shared.Hex.{Text}
use vulnseal.Cipherstore.Storage.{
  StorageError, StorageLaws, SameBlobs, PutOutcome, PutPromise, ReadOutcome, validate_digest,
  payload_too_large, not_found, immutable_conflict,
}
use vulnseal.Cipherstore.Sqlite.{
  Failure, thrown, sqlite, Database, DatabaseLaws, SameRows, error_message, capacity, transaction,
  put_row, probe_row, reply, prepare, read, put, check_readiness, sqlite_storage, thrown_by,
  max_body, probe,
}

module _ {T : Type 0} (db : Database T) (laws : DatabaseLaws T db) (max_bytes max_blobs : ℕ) where
  abbrev pub view : T → Text → Option Bytes
  view t d = db.select_body d t

  transaction-inv :
      {A : Type 0} (action : T → Result Failure (A × T)) (t : T) (r : A × T)
      → transaction db max_bytes max_blobs action t ≡ ok r
      → action t ≡ ok r
  unfolding transaction
  transaction-inv action t r e = >>=-ok (db.begin_immediate t) _ e λ _ _ e1.
      >>=-ok (action t) _ e1 λ r' done e2. >>=-ok (db.commit r'.1) _ e2 λ _ _ e3. cc (done, e3)

  within :
      (incoming : ℕ) (t : T)
      → capacity db max_bytes max_blobs incoming t ≡ ok tt
      → (db.count t + 1 ≤ max_blobs) × (db.total_bytes t + incoming ≤ max_bytes)
  unfolding capacity
  within incoming t e = ground arith

  -- What the transaction of a `put` has done when it commits.
  PutRow : Text → Bytes → T → Bool × T → Type 0
  PutRow d body t (true, t') =
      (db.select_body d t ≡ none)
      × (db.insert_blob d body t ≡ ok t')
      × ((db.count t + 1 ≤ max_blobs) × (db.total_bytes t + length body ≤ max_bytes))
  PutRow d body t (false, t') = (db.select_body d t ≡ some body) × (t' ≡ t)

  put_row-inv :
      (d : Text) (body : Bytes) (t : T) (r : Bool × T)
      → put_row db max_bytes max_blobs d body t ≡ ok r
      → PutRow d body t r
  unfolding put_row PutRow
  put_row-inv d body t r e = by_row (db.select_body d t) refl e
    where
      fresh :
          db.select_body d t ≡ none
          → (do
            capacity db max_bytes max_blobs (length body) t
            t' ← db.insert_blob d body t
            ok (true, t'))
            ≡ ok r
          → PutRow d body t r
      fresh absent f = >>=-ok (capacity db max_bytes max_blobs (length body) t) _ f λ _ room f1.
          >>=-ok (db.insert_blob d body t) _ f1 λ t' inserted f2.
            let same : (true, t') ≡ r = cc in
            rw (← same) (absent, inserted, within (length body) t room)

      known :
          (existing : Bytes)
          → db.select_body d t ≡ some existing
          → (if existing =ᵇ body then ok (false, t) else err (thrown immutable_conflict)) ≡ ok r
          → PutRow d body t r
      known existing there f = elim (Bool-cases (existing =ᵇ body)) [
        | inl is ↦
            let same : (false, t) ≡ r = cc (rw is at f) in
            rw (← same) (there ∙ ap some (bytes_eq-to_eq existing body is), refl)
        | inr apart ↦ absurd (cc (rw apart at f))
      ]

      by_row :
          (o : Option Bytes)
          → db.select_body d t ≡ o
          → elim o [
            | some existing ↦
                (if existing =ᵇ body then ok (false, t) else err (thrown immutable_conflict))
            | none ↦ (do
              capacity db max_bytes max_blobs (length body) t
              t' ← db.insert_blob d body t
              ok (true, t'))
          ]
            ≡ ok r
          → PutRow d body t r
      by_row none absent f = fresh absent f
      by_row (some existing) there f = known existing there f

  put_commits :
      (d : Text) (body : Bytes) (t : T) (r : Bool × T)
      → (do
        thrown_by (validate_digest d)
        db.initialize t
        guard (not (ltb max_body (length body))) (thrown payload_too_large)
        transaction db max_bytes max_blobs (put_row db max_bytes max_blobs d body) t)
        ≡ ok r
      → PutRow d body t r
  put_commits d body t r e = >>=-ok (thrown_by (validate_digest d)) _ e λ _ _ e1.
      >>=-ok (db.initialize t) _ e1 λ _ _ e2.
        guard-ok (not (ltb max_body (length body))) _ _ e2 λ _ e3.
          put_row-inv d body t r (transaction-inv (put_row db max_bytes max_blobs d body) t r e3)

  committed_outcome :
      (d : Text) (body : Bytes) (t : T) (r : Bool × T)
      → PutRow d body t r
      → PutOutcome view d body t r.1 (ok r.0)
  unfolding PutRow
  committed_outcome d body t (true, t') (absent, inserted, room) = (
    absent,
    (laws.inserted d body t t' inserted).0,
    λ e apart. (laws.inserted d body t t' inserted).1 e apart,
  )
  committed_outcome d body t (false, t') (there, same) = (there, λ e. rw same refl)

  pub put-PutOutcome :
      (d : Text) (body : Bytes) (t : T)
      → PutOutcome view d body t
          (put db max_bytes max_blobs d body t).1
          (put db max_bytes max_blobs d body t).0
  unfolding put
  put-PutOutcome d body t = by_reply _ (put_commits d body t)
    where
      by_reply :
          (m : Result Failure (Bool × T))
          → ((r : Bool × T) → m ≡ ok r → PutRow d body t r)
          → PutOutcome view d body t
              (reply db max_bytes max_blobs t m).1
              (reply db max_bytes max_blobs t m).0
      by_reply (ok r) facts = committed_outcome d body t r (facts r refl)
      by_reply (err x) facts = λ e. refl

  pub put-PutPromise :
      (d : Text) (body : Bytes) (t : T)
      → PutPromise view d body t
          (put db max_bytes max_blobs d body t).1
          (put db max_bytes max_blobs d body t).0
  put-PutPromise d body t =
      promised (put db max_bytes max_blobs d body t).1 (put db max_bytes max_blobs d body t).0
        (put-PutOutcome d body t)
    where
      promised :
          (t' : T) (r : Result StorageError Bool)
          → PutOutcome view d body t t' r
          → PutPromise view d body t t' r
      promised t' (ok true) says = says
      promised t' (ok false) says = says
      promised t' (err e) same = inl same

  -- Failed or not, a readiness check leaves the blobs.
  probe_row_keeps :
      (t : T) (r : Unit {0} × T) → probe_row db max_bytes max_blobs t ≡ ok r → SameRows db t r.1
  unfolding probe_row
  probe_row_keeps t r e = >>=-ok (capacity db max_bytes max_blobs 1 t) _ e λ _ _ e1.
      >>=-ok (db.insert_probe probe t) _ e1 λ t' inserted e2.
        guard-ok (elim (db.select_probe t') [ none ↦ false | some body ↦ body =ᵇ probe ]) _ _ e2
          λ _ e3. >>=-ok (db.delete_probe t') _ e3 λ t'' deleted e4.
            let a = laws.probe_inserted probe t t' inserted in
            let b = laws.probe_deleted t' t'' deleted in
            let same : (tt, t'') ≡ r = cc in
            rw (← same) (record {
              bodies = λ d. b.bodies d ∙ a.bodies d;
              counted = b.counted ∙ a.counted;
              measured = b.measured ∙ a.measured;
            })

  pub ready_keeps : (t : T) → SameBlobs view t (check_readiness db max_bytes max_blobs t).1
  unfolding check_readiness
  ready_keeps t = by_reply _ λ r e.
      >>=-ok (db.initialize t) _ e
        λ _ _ e1. probe_row_keeps t r (transaction-inv (probe_row db max_bytes max_blobs) t r e1)
    where
      by_reply :
          (m : Result Failure (Unit {0} × T))
          → ((r : Unit {0} × T) → m ≡ ok r → SameRows db t r.1)
          → SameBlobs view t (reply db max_bytes max_blobs t m).1
      by_reply (ok r) facts = (facts r refl).bodies
      by_reply (err x) facts = λ e. refl

  pub prepare_keeps : (t : T) → SameBlobs view t (prepare db max_bytes max_blobs t).1
  unfolding prepare
  prepare_keeps t = by_open (db.initialize t)
    where
      by_open :
          (m : Result Failure (Unit {0}))
          → SameBlobs view t (reply db max_bytes max_blobs t (do m; ok (tt, t))).1
      by_open (ok _) = λ e. refl
      by_open (err x) = λ e. refl

  other_error : (d : Text) (t : T) (e : StorageError) → e ≢ not_found → ReadOutcome view d t (err e)
  other_error d t e apart = by_error e apart
    where
      by_error : (e : StorageError) → e ≢ not_found → ReadOutcome view d t (err e)
      by_error not_found apart = absurd (apart refl)
      by_error _ apart = tt

  message-apart : (x : Failure) → x ≢ thrown not_found → error_message x ≢ not_found
  message-apart (thrown e) apart = λ f. apart (ap thrown f)
  message-apart (sqlite code) apart = λ f. ground arith

  digest_error :
      (d : Text) (x : StorageError) → validate_digest d ≡ err x → thrown x ≢ thrown not_found
  unfolding validate_digest
  digest_error d x e = λ f. ground arith

  pub read-outcome :
      (d : Text) (t : T)
      → ReadOutcome view d t (read db max_bytes max_blobs d t).0
        × SameBlobs view t (read db max_bytes max_blobs d t).1
  unfolding read
  read-outcome d t = by_digest (validate_digest d) refl
    where
      looked_up : Option Bytes → Result Failure (Bytes × T)
      looked_up o = elim o [ none ↦ err (thrown not_found) | some body ↦ ok (body, t) ]

      Good : Result Failure (Bytes × T) → Type 0
      Good m =
          ReadOutcome view d t (reply db max_bytes max_blobs t m).0
          × SameBlobs view t (reply db max_bytes max_blobs t m).1

      by_row : (o : Option Bytes) → db.select_body d t ≡ o → Good (looked_up o)
      by_row none e = (e, λ x. refl)
      by_row (some body) e = (e, λ x. refl)

      unlike : (x : Failure) → x ≢ thrown not_found → Good (err x)
      unlike x apart = (other_error d t (error_message x) (message-apart x apart), λ e. refl)

      by_open :
          (m : Result Failure (Unit {0}))
          → m ≢ err (thrown not_found)
          → Good (m >> looked_up (db.select_body d t))
      by_open (ok _) apart = by_row (db.select_body d t) refl
      by_open (err x) apart = unlike x (λ e. apart (ap err e))

      by_digest :
          (v : Result StorageError (Unit {0}))
          → validate_digest d ≡ v
          → Good (thrown_by v >> (db.initialize t >> looked_up (db.select_body d t)))
      by_digest (ok _) e = by_open (db.initialize t) (laws.opening t)
      by_digest (err x) e = unlike (thrown x) (digest_error d x e)

  -- The interface's laws, for the blobs that the table holds.
  abbrev pub sqlite_laws : StorageLaws T (sqlite_storage db max_bytes max_blobs)
  sqlite_laws = record {
    blob = view;
    prepare_keeps = prepare_keeps;
    read_keeps = λ d t. (read-outcome d t).1;
    read_says = λ d t. (read-outcome d t).0;
    put_says = put-PutPromise;
    ready_keeps = ready_keeps;
  }

  -- The quota of the storage.
  abbrev pub IsWithinQuota : T → Type 0
  IsWithinQuota t = (db.count t ≤ max_blobs) × (db.total_bytes t ≤ max_bytes)

  -- No upload and no readiness check takes the storage over its quota.
  pub put-IsWithinQuota :
      (d : Text) (body : Bytes) (t : T)
      → IsWithinQuota t
      → IsWithinQuota (put db max_bytes max_blobs d body t).1
        × IsWithinQuota (check_readiness db max_bytes max_blobs t).1
  unfolding put check_readiness PutRow
  put-IsWithinQuota d body t quota = (
    put_reply _ (put_commits d body t),
    probe_reply _ λ r e.
        >>=-ok (db.initialize t) _ e
          λ _ _ e1. probe_row_keeps t r (transaction-inv (probe_row db max_bytes max_blobs) t r e1),
  )
    where
      after : (r : Bool × T) → PutRow d body t r → IsWithinQuota r.1
      after (true, t') (absent, inserted, room) =
          let (counted, measured) = laws.insert_counts d body t t' inserted in
          (omega (arith, counted, room.0), omega (arith, measured, room.1))
      after (false, t') (there, same) = rw same quota

      put_reply :
          (m : Result Failure (Bool × T))
          → ((r : Bool × T) → m ≡ ok r → PutRow d body t r)
          → IsWithinQuota (reply db max_bytes max_blobs t m).1
      put_reply (ok r) facts = after r (facts r refl)
      put_reply (err x) facts = quota

      probe_reply :
          (m : Result Failure (Unit {0} × T))
          → ((r : Unit {0} × T) → m ≡ ok r → SameRows db t r.1)
          → IsWithinQuota (reply db max_bytes max_blobs t m).1
      probe_reply (ok r) facts = rw ((facts r refl).counted, (facts r refl).measured) quota
      probe_reply (err x) facts = quota
