-- ===== src/Shared/Redaction/Clean.antt =====
-- packages/shared/src/redaction.ts: nothing under a sensitive key is logged.
use vulnseal.Prelude.{
  ℕ, zero, suc, ◌≡◌, refl, arith, Bool, true, false, ◌&&◌, List, [], ◌∷◌, if◌then◌else◌, Result, ok,
  >>=-ok, ok-injective, Dict, Bool-cases, inl, inr, ◌=ᵇ◌,
}
use mathlib.Core.Path.{subst}
use vulnseal.Contract.Types.{ascii}
use vulnseal.Shared.Hex.{Text}
use vulnseal.Shared.Redaction.{
  Value, primitive, reference, Node, bytes, array, object, Output, plain, byte_count, circular,
  redacted, list, record_of, Outputs, no_outputs, output, OutputFields, no_entries, entry,
  FuelError, is_sensitive, assign_entry, is_seen, Redactor, redact_items, redact_entries,
  redact_node, redact_for_log,
}

abbrev pub is_redacted : {P : Type 0} → Output P → Bool
is_redacted redacted = true
is_redacted _ = false

-- At any depth, a sensitive key has `[REDACTED]` for its value.
unfoldable mutual
  unfolding is_sensitive

  pub is_clean : {P : Type 0} → Output P → Bool
  is_clean (plain p) = true
  is_clean (byte_count n) = true
  is_clean circular = true
  is_clean redacted = true
  is_clean (list outputs) = are_clean outputs
  is_clean (record_of entries) = entries_are_clean entries

  pub are_clean : {P : Type 0} → Outputs P → Bool
  are_clean no_outputs = true
  are_clean (output o outputs) = is_clean o && are_clean outputs

  pub entries_are_clean : {P : Type 0} → OutputFields P → Bool
  entries_are_clean no_entries = true
  entries_are_clean (entry key o entries) =
      (if is_sensitive key then is_redacted o else is_clean o) && entries_are_clean entries

both : (a b : Bool) → a ≡ true → b ≡ true → (a && b) ≡ true
both a b h g = ground arith

module _ {P : Type 0} where
  Cleans : Redactor P → Type 0
  Cleans redact =
      (v : Value P) (seen : List ℕ) (r : Output P × List ℕ)
      → redact v seen ≡ ok r
      → is_clean r.0 ≡ true

  redact_items-clean :
      (redact : Redactor P)
      → Cleans redact
      → (vs : List (Value P)) (seen : List ℕ) (r : Outputs P × List ℕ)
      → redact_items redact vs seen ≡ ok r
      → are_clean r.0 ≡ true
  unfolding redact_items Cleans is_clean
  redact_items-clean redact cleans [] seen r h =
      subst (λ o. are_clean o.0 ≡ true) (ok-injective h) refl
  redact_items-clean redact cleans (v ∷ vs) seen r h = >>=-ok (redact v seen) _ h λ first e h₁.
      >>=-ok (redact_items redact vs first.1) _ h₁ λ rest f h₂.
        subst (λ o. are_clean o.0 ≡ true) (ok-injective h₂)
          (both _ _ (cleans v seen first e) (redact_items-clean redact cleans vs first.1 rest f))

  value_clean :
      (b : Bool) (seen : List ℕ) (m : Result FuelError (Output P × List ℕ))
      → ((r : Output P × List ℕ) → m ≡ ok r → is_clean r.0 ≡ true)
      → (first : Output P × List ℕ) → (if b then ok (redacted, seen) else m) ≡ ok first
      → (if b then is_redacted first.0 else is_clean first.0) ≡ true
  value_clean true seen m h first e = subst (λ o. is_redacted o.0 ≡ true) (ok-injective e) refl
  value_clean false seen m h first e = h first e

  seen_clean :
      (b : Bool) (seen : List ℕ) (m : Result FuelError (Output P × List ℕ)) (r : Output P × List ℕ)
      → (m ≡ ok r → is_clean r.0 ≡ true)
      → (if b then ok (circular, seen) else m) ≡ ok r
      → is_clean r.0 ≡ true
  unfolding is_clean
  seen_clean true seen m r h e = subst (λ o. is_clean o.0 ≡ true) (ok-injective e) refl
  seen_clean false seen m r h e = h e

  assign_entry-clean :
      (key : Text) (o : Output P) (rest : OutputFields P)
      → (if is_sensitive key then is_redacted o else is_clean o) ≡ true
      → entries_are_clean rest ≡ true
      → entries_are_clean (assign_entry key o rest) ≡ true
  unfolding assign_entry is_clean
  assign_entry-clean key o rest h g = elim (Bool-cases (key =ᵇ ascii "__proto__")) [
    | inl e ↦ rw e g
    | inr e ↦ rw e (both _ _ h g)
  ]

  redact_entries-clean :
      (redact : Redactor P)
      → Cleans redact
      → (entries : Dict (Value P)) (seen : List ℕ) (r : OutputFields P × List ℕ)
      → redact_entries redact entries seen ≡ ok r
      → entries_are_clean r.0 ≡ true
  unfolding redact_entries Cleans is_clean
  redact_entries-clean redact cleans [] seen r h =
      subst (λ o. entries_are_clean o.0 ≡ true) (ok-injective h) refl
  redact_entries-clean redact cleans ((key, v) ∷ entries) seen r h =
      >>=-ok (if is_sensitive key then ok (redacted, seen) else redact v seen) _ h λ first e h₁.
        >>=-ok (redact_entries redact entries first.1) _ h₁ λ rest f h₂.
          subst (λ o. entries_are_clean o.0 ≡ true) (ok-injective h₂)
            (assign_entry-clean key first.0 rest.0
              (value_clean (is_sensitive key) seen (redact v seen) (cleans v seen) first e)
              (redact_entries-clean redact cleans entries first.1 rest f))

  redact_node-clean :
      (redact : Redactor P) (i : ℕ) (node : Node P) (seen : List ℕ) (r : Output P × List ℕ)
      → Cleans redact
      → redact_node redact i node seen ≡ ok r
      → is_clean r.0 ≡ true
  unfolding redact_node is_clean Cleans
  redact_node-clean redact i (bytes n) seen r cleans h =
      subst (λ o. is_clean o.0 ≡ true) (ok-injective h) refl
  redact_node-clean redact i (array vs) seen r cleans h =
      seen_clean (is_seen i seen) seen _ r
        (λ e. >>=-ok (redact_items redact vs (i ∷ seen)) _ e λ outputs f g.
          subst (λ o. is_clean o.0 ≡ true) (ok-injective g)
            (redact_items-clean redact cleans vs (i ∷ seen) outputs f))
        h
  redact_node-clean redact i (object entries) seen r cleans h =
      seen_clean (is_seen i seen) seen _ r
        (λ e. >>=-ok (redact_entries redact entries (i ∷ seen)) _ e λ outputs f g.
          subst (λ o. is_clean o.0 ≡ true) (ok-injective g)
            (redact_entries-clean redact cleans entries (i ∷ seen) outputs f))
        h

  module _ (heap : ℕ → Node P) where
    -- Whenever a result comes out, the value under each sensitive key in it, at any depth, is
    -- `[REDACTED]`.
    pub redact_for_log-clean :
        (fuel : ℕ) (v : Value P) (seen : List ℕ) (r : Output P × List ℕ)
        → redact_for_log heap fuel v seen ≡ ok r
        → is_clean r.0 ≡ true
    unfolding redact_for_log is_clean Cleans
    redact_for_log-clean fuel (primitive p) seen r h =
        subst (λ o. is_clean o.0 ≡ true) (ok-injective h) refl
    redact_for_log-clean zero (reference i) seen r h = cc
    redact_for_log-clean (suc fuel) (reference i) seen r h =
        redact_node-clean (redact_for_log heap fuel) i (heap i) seen r (redact_for_log-clean fuel) h
