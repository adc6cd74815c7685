-- ===== src/Api/VulnSealApi/Order.antt =====
-- api/src/api.ts, `withPrivateState`: the order of the callers of a provider, of which each awaits the
-- one before it.
use vulnseal.Prelude.{
  ℕ, suc, ◌≡◌, refl, sym, ap, ◌∙◌, inl, inr, arith, Bool-cases, Bool, true, false, ◌&&◌, Option,
  none, some, List, [], ◌∷◌, length, ◌==◌, if◌then◌else◌,
}
use vulnseal.Api.VulnSealApi.{
  Phase, waiting, invoking, Caller, is_released, caller, set_phase, may_go, is_queued,
}

abbrev pub is_waiting : Phase → Bool
is_waiting waiting = true
is_waiting _ = false

-- The cases of a number against another.
same_number : (i n : ℕ) → (i == n) ≡ true → i ≡ n
same_number i n h = ground arith

pub release_next :
    (i : ℕ) (queued : Option ℕ) (n : ℕ)
    → ((j : ℕ) → queued ≡ some j → suc j ≡ n)
    → (j : ℕ) → (if is_queued i queued then none else queued) ≡ some j
    → suc j ≡ n
release_next i none n next j h = cc
release_next i (some k) n next j h = elim (Bool-cases (k == i)) [
  | inl e ↦ ground (arith, e, h)
  | inr e ↦ ground (arith, e, h, next k refl)
]

module _ {P : Type 0} where
  unfoldable pub all_released : List (Caller P) → Bool
  all_released [] = true
  all_released (c ∷ older) = is_released c.phase && all_released older

  -- The callers before the one of a number have released.
  unfoldable pub before : ℕ → List (Caller P) → Bool
  unfolding all_released
  before i [] = true
  before i (c ∷ older) = if i == length older then all_released older else before i older

  -- A caller awaits the one before it, unless that and all others had released when it came; and it
  -- goes on only when they have.
  unfoldable pub IsOrdered : List (Caller P) → Type 0
  unfolding all_released
  IsOrdered [] = Unit
  IsOrdered (c ∷ older) =
      IsOrdered older
      × (c.awaits ≡ none → all_released older ≡ true)
      × ((j : ℕ) → c.awaits ≡ some j → suc j ≡ length older)
      × (is_waiting c.phase ≡ false → all_released older ≡ true)

  abbrev pub Uses : Option P → Caller P → Type 0
  Uses x c = c.phase ≡ invoking → x ≡ some c.snapshot

  pub length-set_phase :
      (i : ℕ) (ph : Phase) (cs : List (Caller P)) → length (set_phase i ph cs) ≡ length cs
  unfolding set_phase
  length-set_phase i ph [] = refl
  length-set_phase i ph (c ∷ older) = elim (Bool-cases (i == length older)) [
    | inl e ↦ rw e refl
    | inr e ↦ rw e (ap suc (length-set_phase i ph older))
  ]

  pub not_all_released :
      (i : ℕ) (cs : List (Caller P)) (c : Caller P)
      → caller i cs ≡ some c
      → is_released c.phase ≡ false
      → all_released cs ≡ false
  unfolding caller all_released
  not_all_released i [] c h r = cc
  not_all_released i (d ∷ older) c h r = elim (Bool-cases (i == length older)) [
    | inl e ↦ ground (arith, e, h, r)
    | inr e ↦ ground (arith, e, h, r, not_all_released i older c)
  ]

  pub before_active :
      (i : ℕ) (cs : List (Caller P)) (c : Caller P)
      → IsOrdered cs
      → caller i cs ≡ some c
      → is_waiting c.phase ≡ false
      → before i cs ≡ true
  unfolding caller before IsOrdered
  before_active i [] c o h w = refl
  before_active i (d ∷ older) c (o, free, next, active) h w =
      elim (Bool-cases (i == length older)) [
        | inl e ↦ ground (arith, e, h, w, active)
        | inr e ↦ ground (arith, e, h, w, before_active i older c o)
      ]

  last_released :
      (j : ℕ) (cs : List (Caller P))
      → IsOrdered cs
      → suc j ≡ length cs
      → may_go (some j) cs ≡ true
      → all_released cs ≡ true
  unfolding caller IsOrdered may_go all_released
  last_released j [] o n h = refl
  last_released j (d ∷ older) (o, free, next, active) n h = ground (arith, n, h, active)

  -- What a caller awaits is the state of the callers before it.
  go_head :
      (awaits : Option ℕ) (d : Caller P) (older : List (Caller P))
      → IsOrdered older
      → (awaits ≡ none → all_released older ≡ true)
      → ((j : ℕ) → awaits ≡ some j → suc j ≡ length older)
      → may_go awaits (d ∷ older) ≡ true
      → all_released older ≡ true
  unfolding caller may_go
  go_head none d older o free next g = free refl
  go_head (some j) d older o free next g =
      last_released j older o (next j refl) (ground (arith, next j refl, g))

  go_tail :
      (awaits : Option ℕ) (d : Caller P) (older : List (Caller P))
      → all_released older ≡ false
      → (is_waiting d.phase ≡ false → all_released older ≡ true)
      → may_go awaits (d ∷ older) ≡ true
      → may_go awaits older ≡ true
  unfolding caller may_go
  go_tail none d older n active g = refl
  go_tail (some j) d older n active g = elim (Bool-cases (j == length older)) [
    | inl e ↦ ground (arith, e, n, active, g)
    | inr e ↦ ground (arith, e, g)
  ]

  pub before_go :
      (i : ℕ) (cs : List (Caller P)) (c : Caller P)
      → IsOrdered cs
      → caller i cs ≡ some c
      → is_released c.phase ≡ false
      → may_go c.awaits cs ≡ true
      → before i cs ≡ true
  unfolding caller before IsOrdered
  before_go i [] c o h r g = refl
  before_go i (d ∷ older) c (o, free, next, active) h r g = elim (Bool-cases (i == length older)) [
    | inl e ↦ ground (arith, e, h, go_head c.awaits d older o, free, next, g)
    | inr e ↦ ground (
      arith,
      e,
      h,
      go_tail c.awaits d older (not_all_released i older c (ground (arith, e, h)) r) active g,
      before_go i older c o (ground (arith, e, h)) r,
    )
  ]

  pub set_phase-IsOrdered :
      (i : ℕ) (ph : Phase) (cs : List (Caller P)) (c : Caller P)
      → IsOrdered cs
      → caller i cs ≡ some c
      → is_released c.phase ≡ false
      → before i cs ≡ true
      → IsOrdered (set_phase i ph cs)
  unfolding caller before IsOrdered set_phase
  set_phase-IsOrdered i ph [] c o h r b = o
  set_phase-IsOrdered i ph (d ∷ older) c (o, free, next, active) h r b =
      elim (Bool-cases (i == length older)) [
        | inl e ↦ rw e (o, free, next, λ _. ground (arith, e, b))
        | inr e ↦ rw e (
          set_phase-IsOrdered i ph older c o (ground (arith, e, h)) r (ground (arith, e, b)),
          λ a. ground (free a, not_all_released i older c, arith, e, h, r),
          λ j a. next j a ∙ sym (length-set_phase i ph older),
          λ w. ground (active w, not_all_released i older c, arith, e, h, r),
        )
      ]
