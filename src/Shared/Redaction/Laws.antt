-- ===== src/Shared/Redaction/Laws.antt =====
-- packages/shared/src/redaction.ts: the recursion ends, and nothing under a sensitive key is logged.
use vulnseal.Prelude.{
  ℕ, zero, suc, ◌+◌, ◌≤◌, ◌<◌, ◌≡◌, refl, inl, inr, arith, Bool-cases, false, List, [], ◌∷◌, All,
  if◌then◌else◌, ok, Dict,
}
use vulnseal.Shared.Hex.{Text}
use vulnseal.Shared.Redaction.{
  Value, primitive, reference, Node, bytes, array, object, Output, plain, byte_count, circular,
  redacted, list, record_of, Outputs, no_outputs, output, OutputFields, no_entries, is_sensitive,
  assign_entry, is_seen, Redactor, redact_items, redact_entries, redact_node, redact_for_log,
}

-- How many of the first `n` objects have not been seen.
abbrev pub unseen : ℕ → List ℕ → ℕ
unseen zero seen = 0
unseen (suc n) seen = (if is_seen n seen then 0 else 1) + unseen n seen

unseen-more : (n i : ℕ) (seen : List ℕ) → unseen n (i ∷ seen) ≤ unseen n seen
unseen-more zero i seen = omega arith
unseen-more (suc n) i seen = ground (arith, unseen-more n i seen)

unseen-less :
    (n i : ℕ) (seen : List ℕ) → i < n → is_seen i seen ≡ false → unseen n (i ∷ seen) < unseen n seen
unseen-less zero i seen h g = absurd (omega arith)
unseen-less (suc n) i seen h g = ground (arith, unseen-more n i seen, unseen-less n i seen)

unseen-bound : (n : ℕ) (seen : List ℕ) → unseen n seen < suc n
unseen-bound zero seen = omega arith
unseen-bound (suc n) seen = ground (arith, unseen-bound n seen)

module _ {P : Type 0} where
  abbrev pub IsBelow : ℕ → Value P → Type 0
  IsBelow n (primitive p) = Unit
  IsBelow n (reference i) = i < n

  abbrev pub IsEntryBelow : ℕ → Text × Value P → Type 0
  IsEntryBelow n e = IsBelow n e.1

  -- The objects that a node refers to are among the first `n`.
  abbrev pub IsNodeBelow : ℕ → Node P → Type 0
  IsNodeBelow n (bytes k) = Unit
  IsNodeBelow n (array vs) = All (IsBelow n) vs
  IsNodeBelow n (object entries) = All (IsEntryBelow n) entries

  -- A redactor that ends on values of a heap of `n` objects, when fewer than `fuel` are unseen.
  Ends : ℕ → ℕ → Redactor P → Type 0
  Ends n fuel redact =
      (v : Value P) (seen : List ℕ)
      → IsBelow n v
      → unseen n seen < fuel
      → (r : Output P × List ℕ) × (redact v seen ≡ ok r) × (unseen n r.1 ≤ unseen n seen)

  redact_items-Ends :
      (n fuel : ℕ) (redact : Redactor P)
      → Ends n fuel redact
      → (vs : List (Value P)) (seen : List ℕ) → All (IsBelow n) vs
      → unseen n seen < fuel
      → (r : Outputs P × List ℕ) × (redact_items redact vs seen ≡ ok r)
        × (unseen n r.1 ≤ unseen n seen)
  unfolding redact_items Ends
  redact_items-Ends n fuel redact ends [] seen below small = ((no_outputs, seen), refl, omega arith)
  redact_items-Ends n fuel redact ends (v ∷ vs) seen below small =
      let (first, e, le) = ends v seen below.0 small in
      let (rest, f, le₁) = redact_items-Ends n fuel redact ends vs first.1 below.1 (omega arith) in
      ((output first.0 rest.0, rest.1), rw (e, f) refl, omega arith)

  redact_entries-Ends :
      (n fuel : ℕ) (redact : Redactor P)
      → Ends n fuel redact
      → (entries : Dict (Value P)) (seen : List ℕ) → All (IsEntryBelow n) entries
      → unseen n seen < fuel
      → (r : OutputFields P × List ℕ) × (redact_entries redact entries seen ≡ ok r)
        × (unseen n r.1 ≤ unseen n seen)
  unfolding redact_entries Ends
  redact_entries-Ends n fuel redact ends [] seen below small =
      ((no_entries, seen), refl, omega arith)
  redact_entries-Ends n fuel redact ends ((key, v) ∷ entries) seen below small =
      elim (Bool-cases (is_sensitive key)) [
        | inl h ↦
            let (rest, f, le₁) =
              redact_entries-Ends n fuel redact ends entries seen below.1 small in
            ((assign_entry key redacted rest.0, rest.1), rw (h, f) refl, le₁)
        | inr h ↦
            let (first, e, le) = ends v seen below.0 small in
            let (rest, f, le₁) =
              redact_entries-Ends n fuel redact ends entries first.1 below.1 (omega arith) in
            ((assign_entry key first.0 rest.0, rest.1), rw (h, e, f) refl, omega arith)
      ]

  redact_node-Ends :
      (n fuel : ℕ) (redact : Redactor P) (i : ℕ) (node : Node P) (seen : List ℕ)
      → Ends n fuel redact
      → i < n
      → IsNodeBelow n node
      → unseen n seen < suc fuel
      → (r : Output P × List ℕ) × (redact_node redact i node seen ≡ ok r)
        × (unseen n r.1 ≤ unseen n seen)
  unfolding redact_node
  redact_node-Ends n fuel redact i (bytes k) seen ends low below small =
      ((byte_count k, seen), refl, omega arith)
  redact_node-Ends n fuel redact i (array vs) seen ends low below small =
      elim (Bool-cases (is_seen i seen)) [
        | inl h ↦ ((circular, seen), rw h refl, omega arith)
        | inr h ↦
            let less = unseen-less n i seen low h in
            let (r, e, le) =
              redact_items-Ends n fuel redact ends vs (i ∷ seen) below (omega arith) in
            ((list r.0, r.1), rw (h, e) refl, omega arith)
      ]
  redact_node-Ends n fuel redact i (object entries) seen ends low below small =
      elim (Bool-cases (is_seen i seen)) [
        | inl h ↦ ((circular, seen), rw h refl, omega arith)
        | inr h ↦
            let less = unseen-less n i seen low h in
            let (r, e, le) =
              redact_entries-Ends n fuel redact ends entries (i ∷ seen) below (omega arith) in
            ((record_of r.0, r.1), rw (h, e) refl, omega arith)
      ]

  module _ (heap : ℕ → Node P) (n : ℕ) (closed : (i : ℕ) → i < n → IsNodeBelow n (heap i)) where
    redact_for_log-Ends : (fuel : ℕ) → Ends n fuel (redact_for_log heap fuel)
    unfolding redact_for_log Ends
    redact_for_log-Ends fuel (primitive p) seen below small = ((plain p, seen), refl, omega arith)
    redact_for_log-Ends zero (reference i) seen below small = absurd (omega arith)
    redact_for_log-Ends (suc fuel) (reference i) seen below small =
        redact_node-Ends n fuel (redact_for_log heap fuel) i (heap i) seen
          (redact_for_log-Ends fuel) below (closed i below) small

    -- On a value in a heap of `n` objects that refer to no others, fuel `n + 1` is enough, whatever
    -- cycles there are: a result comes out.
    pub redact_for_log-ok :
        (v : Value P)
        → IsBelow n v
        → (r : Output P × List ℕ) × (redact_for_log heap (suc n) v [] ≡ ok r)
    unfolding Ends
    redact_for_log-ok v below =
        let (r, e, le) = redact_for_log-Ends (suc n) v [] below (unseen-bound n []) in (r, e)
