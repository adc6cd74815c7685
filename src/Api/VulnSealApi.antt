-- ===== src/Api/VulnSealApi.antt =====
-- api/src/api.ts: the evidence of a transaction, the calls of the contract, and the queue in which
-- callers of one provider install a private state and use it. Deployed contracts and providers are
-- parameters; logging changes nothing and is left out, and so is deployment. The
-- queue is of the callers of `withPrivateState`: `usePrivateState` by itself, deploying and joining
-- write to a provider without it. The child PublicState
-- has the reading of the public state.
pub mod Order
pub mod Queue
pub mod PublicState
mod Trials
use vulnseal.Prelude.{
  ℕ, zero, suc, ◌≡◌, ◌+◌, ◌-◌, String, Bool, true, false, not, ◌&&◌, ◌||◌, Option, none, some, List,
  [], ◌∷◌, Bytes, all, length, leb, ◌==◌, if◌then◌else◌, Result, ok, err, ◌>>=◌, ◌>>◌, guard,
}
use vulnseal.Contract.Calls.{
  Call, submit_report, begin_triage, accept_report, reject_report, anchor_patch, submit_retest,
  authorize_payout, close_report,
}
use vulnseal.Shared.Hex.{Text, is_hex}
use vulnseal.Shared.Json.{Json, undefined, null, string, number, integer, max_safe_integer}

pub data CircuitKey : Type 0 where
  constructor_key : CircuitKey
  submit_report_key : CircuitKey
  begin_triage_key : CircuitKey
  accept_report_key : CircuitKey
  reject_report_key : CircuitKey
  anchor_patch_key : CircuitKey
  submit_retest_key : CircuitKey
  authorize_payout_key : CircuitKey
  close_report_key : CircuitKey

pub record TransactionEvidence : Type 0 where
  pub circuit : CircuitKey
  pub tx_id : Text
  pub block_height : Text

-- A block height as the SDK may give it: a `bigint` by its sign and magnitude, or another value.
pub data Height : Type 0 where
  bigint : Bool → ℕ → Height
  value : Json → Height

-- The public data of a transaction: no object, or the fields that are read of it.
pub data PublicData : Type 0 where
  no_object : PublicData
  fields_of : (tx_id tx_hash : Json) (block_height : Height) → PublicData

pub data ApiError : Type 0 where
  invalid_evidence : ApiError
  sdk_error : ApiError
  read_timed_out : ApiError
  state_unavailable : ApiError
  incompatible_state : ApiError

-- `a ?? b`
abbrev pub nullish : Json → Json → Json
nullish undefined b = b
nullish null b = b
nullish a b = a

-- `/^(?:[a-f0-9]{64}|[a-f0-9]{66})$/`
abbrev pub valid_id : Json → Result ApiError Text
valid_id (string t) =
    if all is_hex t && ((length t == 64) || (length t == 66)) then ok t else err invalid_evidence
valid_id _ = err invalid_evidence

abbrev pub is_digit : ℕ → Bool
is_digit c = leb b'0' c && leb c b'9'

-- `/^(?:0|[1-9][0-9]*)$/`
abbrev pub is_decimal : Text → Bool
is_decimal [] = false
is_decimal (c ∷ []) = is_digit c
is_decimal (c ∷ d ∷ t) = is_digit c && not (c == b'0') && all is_digit (d ∷ t)

-- `String` of a natural number is the parameter `decimal`.
module _ (decimal : ℕ → Text) where
  abbrev pub valid_height : Height → Result ApiError Text
  valid_height (bigint negative n) =
      if negative && not (n == 0) then err invalid_evidence else ok (decimal n)
  valid_height (value (number (integer negative n))) =
      if leb n max_safe_integer && not (negative && not (n == 0))
      then ok (decimal n)
      else err invalid_evidence
  valid_height (value (string t)) = if is_decimal t then ok t else err invalid_evidence
  valid_height (value _) = err invalid_evidence

  unfoldable pub evidence : CircuitKey → PublicData → Result ApiError TransactionEvidence
  evidence circuit no_object = err invalid_evidence
  evidence circuit (fields_of tx_id tx_hash block_height) = do
    id ← valid_id (nullish tx_id tx_hash)
    height ← valid_height block_height
    ok (record { circuit = circuit; tx_id = id; block_height = height })

  -- `call`: what the SDK returns for a transaction, as evidence; its errors pass.
  unfoldable pub call :
      CircuitKey → Result ApiError PublicData → Result ApiError TransactionEvidence
  unfolding evidence
  call circuit invoked = invoked >>= evidence circuit

  abbrev pub key_of : Call → CircuitKey
  key_of (submit_report encrypted) = submit_report_key
  key_of (begin_triage id) = begin_triage_key
  key_of (accept_report id severity decision) = accept_report_key
  key_of (reject_report id decision) = reject_report_key
  key_of (anchor_patch id) = anchor_patch_key
  key_of (submit_retest id passed) = submit_retest_key
  key_of (authorize_payout id tier) = authorize_payout_key
  key_of (close_report id) = close_report_key

  -- The eight methods, over `callTx` of the deployed contract.
  unfoldable pub submit :
      (Call → Result ApiError PublicData) → Call → Result ApiError TransactionEvidence
  unfolding call
  submit call_tx c = call (key_of c) (call_tx c)

-- The callers of `withPrivateState` on one provider. A caller waits for the promise that it found
-- in the map, uses the provider, and releases its own promise.
pub data Phase : Type 0 where
  waiting : Phase
  installing : Phase
  invoking : Phase
  released : Phase

-- `awaits`: the caller found the promise of the one before it; `none` where the map had no entry.
pub record Caller (P : Type 0) : Type 0 where
  pub snapshot : P
  pub awaits : Option ℕ
  pub phase : Phase

-- The callers of a provider, the last one first, each numbered by those before it; the entry of
-- the map, by the number of the caller whose promise it is; and what the provider holds.
pub record Provider (P : Type 0) : Type 0 where
  pub callers : List (Caller P)
  pub queued : Option ℕ
  pub installed : Option P

abbrev pub is_released : Phase → Bool
is_released released = true
is_released _ = false

abbrev pub is_queued : ℕ → Option ℕ → Bool
is_queued i none = false
is_queued i (some j) = j == i

module _ {P : Type 0} where
  -- The caller of a number.
  unfoldable pub caller : ℕ → List (Caller P) → Option (Caller P)
  caller i [] = none
  caller i (c ∷ older) = if i == length older then some c else caller i older

  unfoldable pub set_phase : ℕ → Phase → List (Caller P) → List (Caller P)
  set_phase i phase [] = []
  set_phase i phase (c ∷ older) =
      if i == length older then record c { phase = phase } ∷ older else c ∷ set_phase i phase older

  -- `await previous` has come to its end.
  unfoldable pub may_go : Option ℕ → List (Caller P) → Bool
  unfolding caller
  may_go none callers = true
  may_go (some j) callers = elim (caller j callers) [ none ↦ false | some c ↦ is_released c.phase ]

  unfoldable pub enter : P → Provider P → Provider P
  enter snapshot p = record {
    callers = record { snapshot = snapshot; awaits = p.queued; phase = waiting } ∷ p.callers;
    queued = some (length p.callers);
    installed = p.installed;
  }

  -- The `finally` block.
  unfoldable pub release : ℕ → Provider P → Provider P
  unfolding set_phase
  release i p = record {
    callers = set_phase i released p.callers;
    queued = if is_queued i p.queued then none else p.queued;
    installed = p.installed;
  }

  -- What may happen next, whoever's turn the runtime takes.
  pub data Step : Provider P → Provider P → Type 0 where
    enters : (snapshot : P) (p : Provider P) → Step p (enter snapshot p)
    goes :
        (i : ℕ) (c : Caller P) (p : Provider P)
        → caller i p.callers ≡ some c
        → c.phase ≡ waiting
        → may_go c.awaits p.callers ≡ true
        → Step p (record p { callers = set_phase i installing p.callers })
    installs :
        (i : ℕ) (c : Caller P) (p : Provider P)
        → caller i p.callers ≡ some c
        → c.phase ≡ installing
        → Step p (record {
          callers = set_phase i invoking p.callers;
          queued = p.queued;
          installed = some c.snapshot;
        })
    -- After the call, or after an installation that failed and may have been made.
    returns :
        (i : ℕ) (c : Caller P) (p : Provider P)
        → caller i p.callers ≡ some c
        → c.phase ≡ invoking
        → Step p (release i p)
    fails :
        (i : ℕ) (c : Caller P) (p : Provider P) (installed : Option P)
        → caller i p.callers ≡ some c
        → c.phase ≡ installing
        → Step p (record (release i p) { installed = installed })

  pub data Reachable : Provider P → Type 0 where
    starts :
        (installed : Option P)
        → Reachable (record { callers = []; queued = none; installed = installed })
    follows : {p q : Provider P} → Reachable p → Step p q → Reachable q
