-- ===== src/Api/VulnSealApi/PublicState.antt =====
-- api/src/api.ts, `readPublicState`: a read of the public ledger that ends within its time. What the
-- indexer answers and when the clocks are read are parameters, and so is the decoder of a state,
-- which throws where it gives `none`.
use vulnseal.Prelude.{
  ℕ, ◌+◌, ◌<◌, ◌≡◌, arith, not, ◌||◌, leb, Option, none, some, Bytes, Result, ok, err, ◌>>=◌, ◌>>◌,
  guard,
}
use vulnseal.Contract.Types.{Ledger}
use vulnseal.Shared.Hex.{Text}
use vulnseal.Api.VulnSealApi.{
  ApiError, sdk_error, read_timed_out, state_unavailable, incompatible_state,
}

abbrev pub public_state_timeout_ms : ℕ
public_state_timeout_ms = 20000

-- `Date.now()` and `performance.now()`
pub record Instant : Type 0 where
  pub wall : ℕ
  pub monotonic : ℕ

pub record PublicContractSnapshot : Type 0 where
  pub contract_address : Text
  pub ledger : Ledger

-- What settles the race: the indexer, which knows a state, no state or an error, or the timer.
pub data Race : Type 0 where
  answered : Option Bytes → Race
  failed : Race
  timed_out : Race

-- The instants at which the clocks are read: at the start, after the race, after the decoding, and
-- in the `catch` block.
pub record Instants : Type 0 where
  pub started : Instant
  pub settled : Instant
  pub decoded : Instant
  pub caught : Instant

unfoldable pub assert_active : Instant → Instant → Result ApiError (Unit {0})
assert_active started now =
    guard
      (not (
        leb (started.wall + public_state_timeout_ms) now.wall
        || leb (started.monotonic + public_state_timeout_ms) now.monotonic))
      read_timed_out

module _ (ledger : Bytes → Option Ledger) (contract_address : Text) where
  abbrev pub decode : Option Bytes → Result ApiError Ledger
  decode none = err state_unavailable
  decode (some data_) = elim (ledger data_) [ none ↦ err incompatible_state | some l ↦ ok l ]

  -- The `try` block.
  unfoldable pub try_read : Instants → Race → Result ApiError PublicContractSnapshot
  unfolding assert_active
  try_read at (answered state) = do
    assert_active at.started at.settled
    decoded ← decode state
    assert_active at.started at.decoded
    ok (record { contract_address = contract_address; ledger = decoded })
  try_read at failed = err sdk_error
  try_read at timed_out = err read_timed_out

  -- The `catch` block, which prefers the error of the deadline.
  abbrev pub catch_read :
      Instants → Result ApiError PublicContractSnapshot → Result ApiError PublicContractSnapshot
  unfolding assert_active
  catch_read at (ok snapshot) = ok snapshot
  catch_read at (err e) = assert_active at.started at.caught >> err e

  unfoldable pub read_public_state : Instants → Race → Result ApiError PublicContractSnapshot
  unfolding try_read catch_read
  read_public_state at race = catch_read at (try_read at race)

  -- A snapshot comes back only less than 20 seconds after the start, by both clocks, and has the
  -- address of the contract.
  read_public_state_timely :
      (at : Instants) (race : Race) {snapshot : PublicContractSnapshot}
      → read_public_state at race ≡ ok snapshot
      → (at.decoded.wall < at.started.wall + 20000)
        × (at.decoded.monotonic < at.started.monotonic + 20000)
        × (snapshot.contract_address ≡ contract_address)
  unfolding read_public_state try_read assert_active catch_read
  read_public_state_timely at (answered none) h = ground (arith, h)
  read_public_state_timely at (answered (some b)) h = ground (arith, h)
  read_public_state_timely at failed h = ground (arith, h)
  read_public_state_timely at timed_out h = ground (arith, h)

  -- An error that is caught after the deadline is thrown as the error of the deadline.
  late_error :
      (at : Instants) (race : Race) {e : ApiError}
      → assert_active at.started at.caught ≡ err read_timed_out
      → read_public_state at race ≡ err e
      → e ≡ read_timed_out
  unfolding read_public_state catch_read
  late_error at race late h = caught_late (try_read at race) h
    where
      caught_late :
          (r : Result ApiError PublicContractSnapshot) {e : ApiError}
          → catch_read at r ≡ err e
          → e ≡ read_timed_out
      caught_late (ok snapshot) h = cc
      caught_late (err x) h = ground (arith, late, h)
