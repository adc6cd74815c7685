-- ===== src/Cipherstore/Lease/Exclusion.antt =====
-- cipherstore/src/directory-lease.ts: one process at a time.
use vulnseal.Prelude.{
  ℕ, ◌≡◌, refl, sym, ap, ◌∙◌, inl, inr, arith, Bool-cases, Bool, true, false, ◌==◌,
}
use mathlib.Core.Path.{subst}
use vulnseal.Cipherstore.Lease.{
  Lock, no_lock, empty_lock, owned, damaged, Stage, outside, made, holding, removing, emptying,
  stuck, Directory, set_stage, move, Step, makes, writes, gives_up, leaves, damages, reads, keeps,
  unlinks, removes, fails, Reachable, starts, follows,
}

abbrev is_active : Stage → Bool
is_active outside = false
is_active stuck = false
is_active _ = true

-- The lock that a process finds at its stage.
abbrev Fits : ℕ → Stage → Lock → Type 0
Fits i made lock = lock ≡ empty_lock
Fits i holding lock = lock ≡ owned i
Fits i removing lock = lock ≡ owned i
Fits i emptying lock = lock ≡ empty_lock
Fits i _ lock = Unit {0}

record IsExclusive (d : Directory) : Type 0 where
  one : (i j : ℕ) → is_active (d.stage i) ≡ true → is_active (d.stage j) ≡ true → i ≡ j
  fits : (i : ℕ) → Fits i (d.stage i) d.lock

set_stage_self : (i : ℕ) (new : Stage) (stage : ℕ → Stage) → set_stage i new stage i ≡ new
unfolding set_stage
set_stage_self i new stage = ground arith

set_stage_other :
    (i j : ℕ) (new : Stage) (stage : ℕ → Stage)
    → (j == i) ≡ false
    → set_stage i new stage j ≡ stage j
unfolding set_stage
set_stage_other i j new stage h = ground (arith, h)

same : (i j : ℕ) → (j == i) ≡ true → j ≡ i
same i j h = ground (arith, h)

inactive-Fits : (i : ℕ) (s : Stage) (lock : Lock) → is_active s ≡ false → Fits i s lock
inactive-Fits i outside lock h = tt
inactive-Fits i stuck lock h = tt
inactive-Fits i made lock h = cc
inactive-Fits i holding lock h = cc
inactive-Fits i removing lock h = cc
inactive-Fits i emptying lock h = cc

-- When no other process is active, any one may move.
alone :
    (i : ℕ) (new : Stage) (lock : Lock) (d : Directory)
    → ((j : ℕ) → (j == i) ≡ false → is_active (d.stage j) ≡ false)
    → Fits i new lock
    → IsExclusive (move i new lock d)
unfolding move
alone i new lock d others fit = record {
  one = λ j k a b. only j a ∙ sym (only k b);
  fits = λ j. elim (Bool-cases (j == i)) [
    | inl e ↦
        subst (λ k. Fits k (set_stage i new d.stage k) lock) (sym (same i j e))
          (subst (λ s. Fits i s lock) (sym (set_stage_self i new d.stage)) fit)
    | inr e ↦
        inactive-Fits j (set_stage i new d.stage j) lock
          (ap is_active (set_stage_other i j new d.stage e) ∙ others j e)
  ];
}
  where
    only : (j : ℕ) → is_active (set_stage i new d.stage j) ≡ true → j ≡ i
    only j a = elim (Bool-cases (j == i)) [
      | inl e ↦ same i j e
      | inr e ↦ ground (arith, a, others j e, ap is_active (set_stage_other i j new d.stage e))
    ]

-- A process may always leave.
inactive_moves :
    (i : ℕ) (new : Stage) (d : Directory)
    → is_active new ≡ false
    → IsExclusive d
    → IsExclusive (move i new d.lock d)
unfolding move
inactive_moves i new d idle x = record {
  one = λ j k a b. x.one j k (before j a) (before k b);
  fits = λ j. elim (Bool-cases (j == i)) [
    | inl e ↦ inactive-Fits j (set_stage i new d.stage j) d.lock (
        ap (λ k. is_active (set_stage i new d.stage k)) (same i j e)
        ∙ ap is_active (set_stage_self i new d.stage)
        ∙ idle)
    | inr e ↦ subst (λ s. Fits j s d.lock) (sym (set_stage_other i j new d.stage e)) (x.fits j)
  ];
}
  where
    before : (j : ℕ) → is_active (set_stage i new d.stage j) ≡ true → is_active (d.stage j) ≡ true
    before j a = elim (Bool-cases (j == i)) [
      | inl e ↦ cc (
        a,
        idle,
        ap (λ k. is_active (set_stage i new d.stage k)) (same i j e),
        ap is_active (set_stage_self i new d.stage),
      )
      | inr e ↦ ap is_active (sym (set_stage_other i j new d.stage e)) ∙ a
    ]

-- Beside an active process, none is.
others_idle :
    (i : ℕ) (d : Directory)
    → IsExclusive d
    → is_active (d.stage i) ≡ true
    → (j : ℕ) → (j == i) ≡ false
    → is_active (d.stage j) ≡ false
others_idle i d x a j h = elim (Bool-cases (is_active (d.stage j))) [
  | inl b ↦ ground (arith, h, x.one j i b a)
  | inr b ↦ b
]

active_locks :
    (i : ℕ) (s : Stage) (lock : Lock) → Fits i s lock → lock ≡ no_lock → is_active s ≡ false
active_locks i outside lock f h = refl
active_locks i stuck lock f h = refl
active_locks i made lock f h = cc
active_locks i holding lock f h = cc
active_locks i removing lock f h = cc
active_locks i emptying lock f h = cc

-- The active process may move where its new stage fits the lock.
active_moves :
    (i : ℕ) (old new : Stage) (lock : Lock) (d : Directory)
    → d.stage i ≡ old
    → is_active old ≡ true
    → Fits i new lock
    → IsExclusive d
    → IsExclusive (move i new lock d)
active_moves i old new lock d at a fit x =
    alone i new lock d (others_idle i d x (ap is_active at ∙ a)) fit

Step-IsExclusive : {d e : Directory} → IsExclusive d → Step d e → IsExclusive e
Step-IsExclusive x (makes i d at free) =
    alone i made empty_lock d (λ j h. active_locks j (d.stage j) d.lock (x.fits j) free) refl
Step-IsExclusive x (writes i d at) = active_moves i made holding (owned i) d at refl refl x
Step-IsExclusive x (gives_up i d at) = active_moves i made outside no_lock d at refl tt x
Step-IsExclusive x (leaves i d at) = inactive_moves i stuck d refl x
Step-IsExclusive x (damages i d at) = active_moves i made stuck damaged d at refl tt x
Step-IsExclusive x (reads i d at own) = active_moves i holding removing d.lock d at refl own x
Step-IsExclusive x (keeps i d at) =
    active_moves i removing holding d.lock d at refl (subst (λ s. Fits i s d.lock) at (x.fits i)) x
Step-IsExclusive x (unlinks i d at) = active_moves i removing emptying empty_lock d at refl refl x
Step-IsExclusive x (removes i d at) = active_moves i emptying outside no_lock d at refl tt x
Step-IsExclusive x (fails i d) = inactive_moves i stuck d refl x

Reachable-IsExclusive : {d : Directory} → Reachable d → IsExclusive d
Reachable-IsExclusive starts = record { one = λ i j a b. cc; fits = λ i. tt }
Reachable-IsExclusive (follows r step) = Step-IsExclusive (Reachable-IsExclusive r) step

-- After any steps of any processes, in any order, and whichever of them failed or ended: the lock of
-- a process that holds the lease has its token, and of two processes that hold the lease, one is
-- the other.
pub Reachable-holds_alone :
    {d : Directory} (i : ℕ)
    → Reachable d
    → d.stage i ≡ holding
    → (d.lock ≡ owned i) × ((j : ℕ) → d.stage j ≡ holding → j ≡ i)
Reachable-holds_alone {d} i r at = (
  subst (λ s. Fits i s d.lock) at (x.fits i),
  λ j h. x.one j i (ap is_active h) (ap is_active at),
)
  where
    x : IsExclusive d
    x = Reachable-IsExclusive r
