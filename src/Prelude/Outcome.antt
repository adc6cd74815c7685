-- ===== src/Prelude/Outcome.antt =====
-- Code that may throw returns a `Result`; `E` is the component's own type of errors.
use mathlib.Core.Path.{◌≡◌, refl, ap}
use mathlib.Core.Bool.{Bool, true, false}

pub data Result {ℓ κ} (E : Type ℓ) (A : Type κ) : Type (ℓ ⊔ κ) where
  ok : A → Result E A
  err : E → Result E A

infixl 5 ◌>>=◌ ◌>>◌
abbrev pub ◌>>=◌ {ℓ κ ι} :
    {E : Type ℓ} {A : Type κ} {B : Type ι} → Result E A → (A → Result E B) → Result E B
ok a >>= f = f a
err e >>= f = err e

abbrev pub ◌>>◌ {ℓ ι} : {E : Type ℓ} {B : Type ι} → Result E (Unit {0}) → Result E B → Result E B
m >> k = m >>= λ _. k

-- `if (!test) throw e`
abbrev pub guard {ℓ} : {E : Type ℓ} → Bool → E → Result E (Unit {0})
guard true e = ok tt
guard false e = err e

-- Inversion of a successful bind, for proofs where the parts stay shut: the rest of the proof is
-- given the value that came back.
pub >>=-ok {ℓ κ ι ν} :
    {E : Type ℓ} {A : Type κ} {B : Type ι} {G : Type ν} (m : Result E A) (f : A → Result E B)
    {b : B}
    → (m >>= f) ≡ ok b
    → ((a : A) → m ≡ ok a → f a ≡ ok b → G)
    → G
>>=-ok (ok a) f e k = k a refl e
>>=-ok (err x) f e k = cc

pub guard-ok {ℓ ι ν} :
    {E : Type ℓ} {B : Type ι} {G : Type ν} (t : Bool) (x : E) (m : Result E B) {b : B}
    → (guard t x >> m) ≡ ok b
    → (t ≡ true → m ≡ ok b → G)
    → G
guard-ok true x m e k = k refl e
guard-ok false x m e k = cc

result_or {ℓ κ} : {E : Type ℓ} {A : Type κ} → A → Result E A → A
result_or a (ok b) = b
result_or a (err x) = a

pub ok-injective {ℓ κ} :
    {E : Type ℓ} {A : Type κ} {a b : A} (e : ◌≡◌ {A = Result E A} (ok a) (ok b)) → a ≡ b
unfolding result_or
ok-injective {a} e = ap (result_or a) e
