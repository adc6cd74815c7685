-- ===== src/Prelude/Tests.antt =====
-- Boolean tests on the native numbers and on byte strings, and the conditional.
use Prim.Native.Nat.{ℕ, ◌≤◌, ◌<◌, compare, Ordering}
use mathlib.Core.Path.{◌≡◌, refl}
use mathlib.Core.Logic.{◌↔◌, ◌⊎◌, ◌≢◌, inl, inr}
use mathlib.Core.Bool.{Bool, true, false, ◌&&◌}
use mathlib.Core.Option.{Option, none, some}
use mathlib.Core.List.{List, [], ◌∷◌}
use native.Mathlib.Omega.{arith}

abbrev pub ltb : ℕ → ℕ → Bool
ltb a b = elim (compare a b) [ Ordering.lt ↦ true | _ ↦ false ]

abbrev pub leb : ℕ → ℕ → Bool
leb a b = elim (compare a b) [ Ordering.gt ↦ false | _ ↦ true ]

infix 50 ◌==◌
abbrev pub ◌==◌ : ℕ → ℕ → Bool
a == b = elim (compare a b) [ Ordering.eq ↦ true | _ ↦ false ]

infix 1 if◌then◌else◌
abbrev pub if◌then◌else◌ {ℓ} : {A : Type ℓ} → Bool → A → A → A
if true then x else y = x
if false then x else y = y

pub ltb→lt : (a b : ℕ) → ltb a b ≡ true → a < b
ltb→lt a b h = ground arith

pub lt→ltb : (a b : ℕ) → a < b → ltb a b ≡ true
lt→ltb a b h = ground arith

pub leb→le : (a b : ℕ) → leb a b ≡ true → a ≤ b
leb→le a b h = ground arith

pub le→leb : (a b : ℕ) → a ≤ b → leb a b ≡ true
le→leb a b h = ground arith

pub ==_iff : (a b : ℕ) → ((a == b) ≡ true) ↔ (a ≡ b)
==_iff a b = ground arith

-- To split on a computed value and keep the equation.
pub Bool-cases : (b : Bool) → (b ≡ true) ⊎ (b ≡ false)
Bool-cases true = inl refl
Bool-cases false = inr refl

pub Option-cases {ℓ} : {A : Type ℓ} (o : Option A) → (o ≡ none) ⊎ ((a : A) × (o ≡ some a))
Option-cases none = inl refl
Option-cases (some a) = inr (a, refl)

-- A `Uint8Array` or a `Bytes<32>`: the list of its bytes.
abbrev pub Bytes : Type 0
Bytes = List ℕ

infix 50 ◌=ᵇ◌
unfoldable pub ◌=ᵇ◌ : Bytes → Bytes → Bool
[] =ᵇ [] = true
[] =ᵇ (_ ∷ _) = false
(_ ∷ _) =ᵇ [] = false
(x ∷ xs) =ᵇ (y ∷ ys) = (x == y) && (xs =ᵇ ys)

pub bytes_eq-to_eq : (a b : Bytes) → (a =ᵇ b) ≡ true → a ≡ b
unfolding ◌=ᵇ◌
bytes_eq-to_eq [] [] h = refl
bytes_eq-to_eq [] (_ ∷ _) h = cc
bytes_eq-to_eq (_ ∷ _) [] h = cc
bytes_eq-to_eq (x ∷ xs) (y ∷ ys) h = ground (arith, bytes_eq-to_eq xs ys)

pub bytes_eq_refl : (a : Bytes) → (a =ᵇ a) ≡ true
unfolding ◌=ᵇ◌
bytes_eq_refl [] = refl
bytes_eq_refl (x ∷ xs) = ground (arith, bytes_eq_refl xs)

-- The byte-string test decides equality.
pub bytes_eq_iff : (a b : Bytes) → ((a =ᵇ b) ≡ true) ↔ (a ≡ b)
bytes_eq_iff a b = (bytes_eq-to_eq a b, λ e. rw e (bytes_eq_refl b))

pub bytes_eq-cases : (a b : Bytes) → (a ≡ b) ⊎ ((a =ᵇ b) ≡ false)
bytes_eq-cases a b = elim (Bool-cases (a =ᵇ b)) [
  | inl h ↦ inl (bytes_eq-to_eq a b h)
  | inr h ↦ inr h
]

pub bytes_eq-false : (a b : Bytes) → (a =ᵇ b) ≡ false → a ≢ b
bytes_eq-false a b h = λ e. cc (h, (bytes_eq_iff a b).1 e)
