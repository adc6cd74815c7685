-- ===== src/Shared/Redaction.antt =====
-- packages/shared/src/redaction.ts: what may be logged of a value. Objects refer to each other and to
-- themselves, so a value is read in a heap; those already seen are a list, and the depth of the
-- recursion is bounded by fuel.
pub mod Laws
pub mod Clean
use vulnseal.Prelude.{
  ℕ, zero, suc, Bool, true, false, not, ◌&&◌, ◌||◌, List, [], ◌∷◌, any, ◌==◌, ◌=ᵇ◌, if◌then◌else◌,
  Result, ok, err, ◌>>=◌, Dict,
}
use vulnseal.Contract.Types.{ascii}
use vulnseal.Shared.Hex.{Text}

-- `P` has the values that are no objects.
pub data Value (P : Type 0) : Type 0 where
  primitive : P → Value P
  reference : ℕ → Value P

-- What stands in the heap: a `Uint8Array` by its length, an array, an object with its entries.
pub data Node (P : Type 0) : Type 0 where
  bytes : ℕ → Node P
  array : List (Value P) → Node P
  object : Dict (Value P) → Node P

-- What is logged: `[bytes:n]`, `[CIRCULAR]` and `[REDACTED]` among it.
mutual
  pub data Output (P : Type 0) : Type 0 where
    plain : P → Output P
    byte_count : ℕ → Output P
    circular : Output P
    redacted : Output P
    list : Outputs P → Output P
    record_of : OutputFields P → Output P

  pub data Outputs (P : Type 0) : Type 0 where
    no_outputs : Outputs P
    output : Output P → Outputs P → Outputs P

  pub data OutputFields (P : Type 0) : Type 0 where
    no_entries : OutputFields P
    entry : Text → Output P → OutputFields P → OutputFields P

pub data FuelError : Type 0 where
  out_of_fuel : FuelError

abbrev pub sensitive_keys : List Text
sensitive_keys =
    ascii "actorSecret"
    ∷ ascii "canonicalReport"
    ∷ ascii "canonicalReportDigest"
    ∷ ascii "encryptionKey"
    ∷ ascii "impact"
    ∷ ascii "impactDetails"
    ∷ ascii "key"
    ∷ ascii "mnemonic"
    ∷ ascii "patchDigest"
    ∷ ascii "plaintext"
    ∷ ascii "privateKey"
    ∷ ascii "reportSalt"
    ∷ ascii "reproductionSteps"
    ∷ ascii "researcherContact"
    ∷ ascii "retestEvidence"
    ∷ ascii "retestDigest"
    ∷ ascii "salt"
    ∷ ascii "seed"
    ∷ ascii "secret"
    ∷ ascii "secretKey"
    ∷ []

unfoldable pub is_sensitive : Text → Bool
unfolding ◌=ᵇ◌
is_sensitive key = any (λ k. k =ᵇ key) sensitive_keys

-- `seen.has(value)`
abbrev pub is_seen : ℕ → List ℕ → Bool
is_seen i seen = any (λ j. j == i) seen

abbrev pub Redactor : Type 0 → Type 0
Redactor P = Value P → List ℕ → Result FuelError (Output P × List ℕ)

module _ {P : Type 0} where
  -- `value.map`
  unfoldable pub redact_items :
      Redactor P → List (Value P) → List ℕ → Result FuelError (Outputs P × List ℕ)
  redact_items redact [] seen = ok (no_outputs, seen)
  redact_items redact (v ∷ vs) seen = do
    first ← redact v seen
    rest ← redact_items redact vs first.1
    ok (output first.0 rest.0, rest.1)

  -- `output[key] = …`: the key `__proto__` names the prototype, and makes no entry.
  unfoldable pub assign_entry : Text → Output P → OutputFields P → OutputFields P
  unfolding ◌=ᵇ◌
  assign_entry key o rest = if key =ᵇ ascii "__proto__" then rest else entry key o rest

  -- The loop over `Object.entries`.
  unfoldable pub redact_entries :
      Redactor P → Dict (Value P) → List ℕ → Result FuelError (OutputFields P × List ℕ)
  unfolding is_sensitive assign_entry
  redact_entries redact [] seen = ok (no_entries, seen)
  redact_entries redact ((key, v) ∷ entries) seen = do
    first ← if is_sensitive key then ok (redacted, seen) else redact v seen
    rest ← redact_entries redact entries first.1
    ok (assign_entry key first.0 rest.0, rest.1)

  unfoldable pub redact_node :
      Redactor P → ℕ → Node P → List ℕ → Result FuelError (Output P × List ℕ)
  unfolding redact_items redact_entries
  redact_node redact i (bytes n) seen = ok (byte_count n, seen)
  redact_node redact i (array vs) seen =
      if is_seen i seen
      then ok (circular, seen)
      else (redact_items redact vs (i ∷ seen) >>= λ r. ok (list r.0, r.1))
  redact_node redact i (object entries) seen =
      if is_seen i seen
      then ok (circular, seen)
      else (redact_entries redact entries (i ∷ seen) >>= λ r. ok (record_of r.0, r.1))

  module _ (heap : ℕ → Node P) where
    unfoldable pub redact_for_log : ℕ → Redactor P
    unfolding redact_node
    redact_for_log fuel (primitive p) seen = ok (plain p, seen)
    redact_for_log zero (reference i) seen = err out_of_fuel
    redact_for_log (suc fuel) (reference i) seen = redact_node (redact_for_log fuel) i (heap i) seen
