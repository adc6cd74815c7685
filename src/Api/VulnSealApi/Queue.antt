-- ===== src/Api/VulnSealApi/Queue.antt =====
-- api/src/api.ts, `withPrivateState`: one caller of a provider at a time.
use vulnseal.Prelude.{
  ℕ, suc, ◌≡◌, refl, sym, ◌∙◌, inl, inr, arith, Bool-cases, true, false, Option, none, some, List,
  [], ◌∷◌, All, length, ◌==◌, if◌then◌else◌,
}
use vulnseal.Api.VulnSealApi.{
  Phase, installing, invoking, released, Caller, Provider, is_released, caller, set_phase,
  is_queued, enter, release, Step, enters, goes, installs, returns, fails, Reachable, starts,
  follows,
}
use vulnseal.Api.VulnSealApi.Order.{
  is_waiting, release_next, all_released, before, IsOrdered, Uses, length-set_phase,
  not_all_released, before_active, before_go, set_phase-IsOrdered,
}

module _ {P : Type 0} where
  released_use : (x : Option P) (cs : List (Caller P)) → all_released cs ≡ true → All (Uses x) cs
  unfolding all_released
  released_use x [] h = tt
  released_use x (c ∷ older) h =
      (λ w. ground (arith, h, w), released_use x older (ground (arith, h)))

  -- While one caller has its turn, whatever is installed is used by no other.
  set_phase-Uses :
      (x : Option P) (i : ℕ) (ph : Phase) (cs : List (Caller P)) (c : Caller P)
      → IsOrdered cs
      → caller i cs ≡ some c
      → is_released c.phase ≡ false
      → before i cs ≡ true
      → (ph ≡ invoking → x ≡ some c.snapshot)
      → All (Uses x) (set_phase i ph cs)
  unfolding caller set_phase before IsOrdered
  set_phase-Uses x i ph [] c o h r b new = tt
  set_phase-Uses x i ph (d ∷ older) c (o, free, next, active) h r b new =
      elim (Bool-cases (i == length older)) [
        | inl e ↦
            rw e (λ w. ground (arith, e, h, new w), released_use x older (ground (arith, e, b)))
        | inr e ↦ rw e (
          λ w. ground (active, w, not_all_released i older c, arith, e, h, r),
          set_phase-Uses x i ph older c o (ground (arith, e, h)) r (ground (arith, e, b)) new,
        )
      ]

  caller_use :
      (x : Option P) (i : ℕ) (cs : List (Caller P)) (c : Caller P)
      → All (Uses x) cs
      → caller i cs ≡ some c
      → c.phase ≡ invoking
      → x ≡ some c.snapshot
  unfolding caller
  caller_use x i [] c u h w = cc
  caller_use x i (d ∷ older) c (used, rest) h w = elim (Bool-cases (i == length older)) [
    | inl e ↦ ground (arith, e, h, w, used)
    | inr e ↦ caller_use x i older c rest (ground (arith, e, h)) w
  ]

  -- The last caller has released, and all before it had.
  release_last :
      (i : ℕ) (cs : List (Caller P))
      → suc i ≡ length cs
      → before i cs ≡ true
      → all_released (set_phase i released cs) ≡ true
  unfolding before set_phase all_released
  release_last i [] n b = refl
  release_last i (d ∷ older) n b = elim (Bool-cases (i == length older)) [
    | inl e ↦ rw e (ground (arith, e, b))
    | inr e ↦ ground (arith, e, n)
  ]

  release_free :
      (i : ℕ) (queued : Option ℕ) (cs : List (Caller P))
      → (queued ≡ none → all_released cs ≡ true)
      → all_released cs ≡ false
      → ((j : ℕ) → queued ≡ some j → suc j ≡ length cs)
      → before i cs ≡ true
      → (if is_queued i queued then none else queued) ≡ none
      → all_released (set_phase i released cs) ≡ true
  release_free i none cs free n next b h = ground (arith, free refl, n)
  release_free i (some j) cs free n next b h = elim (Bool-cases (j == i)) [
    | inl e ↦ release_last i cs (ground (arith, e, next j refl)) b
    | inr e ↦ ground (arith, e, h)
  ]

  -- The callers are in order, what is installed is used by no other, and the entry of the map is the
  -- promise of the last one.
  IsConsistent : Provider P → Type 0
  IsConsistent p =
      IsOrdered p.callers
      × All (Uses p.installed) p.callers
      × (p.queued ≡ none → all_released p.callers ≡ true)
      × ((j : ℕ) → p.queued ≡ some j → suc j ≡ length p.callers)

  -- A step of one caller that has not released and leaves the map as it is.
  move :
      (i : ℕ) (c : Caller P) (p : Provider P) (ph : Phase) (installed : Option P)
      → IsConsistent p
      → caller i p.callers ≡ some c
      → is_released c.phase ≡ false
      → before i p.callers ≡ true
      → (ph ≡ invoking → installed ≡ some c.snapshot)
      → IsConsistent
          (record { callers = set_phase i ph p.callers; queued = p.queued; installed = installed })
  unfolding IsConsistent
  move i c p ph installed (o, used, free, next) h r b new = (
    set_phase-IsOrdered i ph p.callers c o h r b,
    set_phase-Uses installed i ph p.callers c o h r b new,
    λ q. ground (arith, free q, not_all_released i p.callers c h r),
    λ j q. next j q ∙ sym (length-set_phase i ph p.callers),
  )

  leave :
      (i : ℕ) (c : Caller P) (p : Provider P) (installed : Option P)
      → IsConsistent p
      → caller i p.callers ≡ some c
      → is_released c.phase ≡ false
      → before i p.callers ≡ true
      → IsConsistent (record (release i p) { installed = installed })
  unfolding IsConsistent release
  leave i c p installed (o, used, free, next) h r b = (
    set_phase-IsOrdered i released p.callers c o h r b,
    set_phase-Uses installed i released p.callers c o h r b (λ w. cc),
    release_free i p.queued p.callers free (not_all_released i p.callers c h r) next b,
    λ j q.
        release_next i p.queued (length p.callers) next j q
        ∙ sym (length-set_phase i released p.callers),
  )

  enter-IsConsistent :
      (snapshot : P) (p : Provider P) → IsConsistent p → IsConsistent (enter snapshot p)
  unfolding IsConsistent IsOrdered enter
  enter-IsConsistent snapshot p (o, used, free, next) =
      ((o, free, next, λ w. cc), (λ w. cc, used), λ h. cc, λ j h. cc)

  turn :
      (i : ℕ) (c : Caller P) (p : Provider P)
      → IsConsistent p
      → caller i p.callers ≡ some c
      → is_waiting c.phase ≡ false
      → before i p.callers ≡ true
  unfolding IsConsistent
  turn i c p (o, used, free, next) h w = before_active i p.callers c o h w

  Step-IsConsistent : {p q : Provider P} → Step p q → IsConsistent p → IsConsistent q
  unfolding IsConsistent release
  Step-IsConsistent (enters snapshot p) k = enter-IsConsistent snapshot p k
  Step-IsConsistent (goes i c p h w g) k =
      move i c p installing p.installed k h (rw w refl)
        (before_go i p.callers c k.0 h (rw w refl) g) (λ a. cc)
  Step-IsConsistent (installs i c p h w) k =
      move i c p invoking (some c.snapshot) k h (rw w refl) (turn i c p k h (rw w refl)) (λ _. refl)
  Step-IsConsistent (returns i c p h w) k =
      leave i c p p.installed k h (rw w refl) (turn i c p k h (rw w refl))
  Step-IsConsistent (fails i c p x h w) k =
      leave i c p x k h (rw w refl) (turn i c p k h (rw w refl))

  consistent : {p : Provider P} → Reachable p → IsConsistent p
  unfolding IsConsistent IsOrdered all_released
  consistent (starts x) = (tt, tt, λ _. refl, λ j h. cc)
  consistent (follows r s) = Step-IsConsistent s (consistent r)

  -- In every state that the callers of a provider reach, whatever the order of their steps and
  -- whichever installations fail, a caller that is calling the contract finds its own private state
  -- installed.
  pub caller-installed :
      {p : Provider P} (i : ℕ) (c : Caller P)
      → Reachable p
      → caller i p.callers ≡ some c
      → c.phase ≡ invoking
      → p.installed ≡ some c.snapshot
  unfolding IsConsistent
  caller-installed {p} i c r h w =
      let (o, used, free, next) = consistent r in caller_use p.installed i p.callers c used h w
