-- ===== src/Cipherstore/Metrics/Balance.antt =====
-- Each request of cipherstore/src/server.ts is counted once, where it belongs.
use vulnseal.Prelude.{
  ℕ, zero, suc, ◌+◌, ◌-◌, ◌/◌, ◌≡◌, refl, ap, sym, ◌∙◌, inl, inr, Option-cases, Bool-cases, Bool,
  true, false, ◌&&◌, Option, none, some, List, [], ◌∷◌, map, leb, ◌==◌, arith, if◌then◌else◌,
}
use vulnseal.Cipherstore.Metrics.{
  Counters, record_once, increment, arrive, has_class, count_response, complete, Ending,
  finished_with, aborted, ending, end_first, Counted, none_yet, arrived, ended,
}

abbrev pub is_open : Option Ending → Bool
is_open none = true
is_open (some e) = false

abbrev pub is_aborted : Option Ending → Bool
is_aborted (some aborted) = true
is_aborted _ = false

-- It finished with a status of the hundred `k`.
abbrev pub in_class : ℕ → Option Ending → Bool
in_class k (some (finished_with status)) = status / 100 == k
in_class k _ = false

-- How many requests pass a test.
unfoldable pub tally : (Option Ending → Bool) → List (Option Ending) → ℕ
tally test [] = 0
tally test (o ∷ requests) = (if test o then 1 else 0) + tally test requests

abbrev is_recorded : Option Ending → Bool
is_recorded none = false
is_recorded (some e) = true

abbrev pub tallies : List (Option Ending) → List ℕ
unfolding tally
tallies requests =
    tally (in_class 1) requests
    ∷ tally (in_class 2) requests
    ∷ tally (in_class 3) requests
    ∷ tally (in_class 4) requests
    ∷ tally (in_class 5) requests
    ∷ []

-- The counters, and the requests that they count.
pub record IsBalanced (c : Counters) (requests : List (Option Ending)) : Type 0 where
  pub recorded : c.recorded ≡ map is_recorded requests
  pub active : c.active_requests ≡ tally is_open requests
  pub aborts : c.aborted_responses ≡ tally is_aborted requests
  pub classes : c.completed ≡ tallies requests

-- A request that ended already: nothing changes.
end_first-ended :
    (n : ℕ) (e : Ending) (requests : List (Option Ending))
    → record_once n (map is_recorded requests) ≡ none
    → end_first n e requests ≡ requests
unfolding record_once end_first
end_first-ended n e [] h = refl
end_first-ended zero e (none ∷ requests) h = cc
end_first-ended zero e (some f ∷ requests) h = refl
end_first-ended (suc n) e (o ∷ requests) h =
    elim (Option-cases (record_once n (map is_recorded requests))) [
      | inl absent ↦ ap (λ os. o ∷ os) (end_first-ended n e requests absent)
      | inr (flags, there) ↦ absurd (cc (rw there at h))
    ]

-- One that was open: its flag is set, and it is counted by what its ending is.
end_first-open :
    (n : ℕ) (e : Ending) (requests : List (Option Ending)) {flags : List Bool}
    → record_once n (map is_recorded requests) ≡ some flags
    → (flags ≡ map is_recorded (end_first n e requests))
      × ((test : Option Ending → Bool)
          → tally test (end_first n e requests) + (if test none then 1 else 0)
            ≡ tally test requests + (if test (some e) then 1 else 0))
unfolding record_once end_first tally
end_first-open n e [] h = cc
end_first-open zero e (none ∷ requests) h = (cc, λ test. omega arith)
end_first-open zero e (some f ∷ requests) h = cc
end_first-open (suc n) e (o ∷ requests) {flags} h =
    elim (Option-cases (record_once n (map is_recorded requests))) [
      | inl absent ↦ absurd (cc (rw absent at h))
      | inr (rest, there) ↦
          let (set, counts) = end_first-open n e requests there in
          let same : is_recorded o ∷ rest ≡ flags = cc (rw there at h) in
          (sym same ∙ ap (λ fs. is_recorded o ∷ fs) set, λ test. omega (arith, counts test))
    ]

-- The class of a status is counted, where it has one.
increment_class :
    (q a b c d e : ℕ)
    → (if leb 1 q && leb q 5
        then increment (q - 1) (a ∷ b ∷ c ∷ d ∷ e ∷ [])
        else a ∷ b ∷ c ∷ d ∷ e ∷ [])
      ≡ (a + (if q == 1 then 1 else 0))
        ∷ (b + (if q == 2 then 1 else 0))
        ∷ (c + (if q == 3 then 1 else 0))
        ∷ (d + (if q == 4 then 1 else 0))
        ∷ (e + (if q == 5 then 1 else 0))
        ∷ []
unfolding increment
increment_class zero a b c d e = ground arith
increment_class (suc zero) a b c d e = ground arith
increment_class (suc (suc zero)) a b c d e = ground arith
increment_class (suc (suc (suc zero))) a b c d e = ground arith
increment_class (suc (suc (suc (suc zero)))) a b c d e = ground arith
increment_class (suc (suc (suc (suc (suc zero))))) a b c d e = ground arith
increment_class (suc (suc (suc (suc (suc (suc q)))))) a b c d e = ground arith

same_five :
    {a b c d e a' b' c' d' e' : ℕ}
    → a ≡ a'
    → b ≡ b'
    → c ≡ c'
    → d ≡ d'
    → e ≡ e'
    → ◌≡◌ {A = List ℕ} (a ∷ b ∷ c ∷ d ∷ e ∷ []) (a' ∷ b' ∷ c' ∷ d' ∷ e' ∷ [])
same_five p q r s t = rw (p, q, r, s, t) refl

module _ (n : ℕ) (c : Counters) (requests : List (Option Ending)) (flags : List Bool)
    (v : IsBalanced c requests)
    (found : record_once n (map is_recorded requests) ≡ some flags) where
  abbrev set : Counters
  set = record c { recorded = flags; active_requests = c.active_requests - 1 }

  finished_classes :
      (status : ℕ)
      → (if has_class status then increment (status / 100 - 1) c.completed else c.completed)
        ≡ tallies (end_first n (finished_with status) requests)
  unfolding tallies
  finished_classes status =
      let (_, counts) = end_first-open n (finished_with status) requests found in
      rw v.classes (
        increment_class (status / 100) _ _ _ _ _
        ∙ same_five (omega (arith, counts (in_class 1))) (omega (arith, counts (in_class 2)))
            (omega (arith, counts (in_class 3))) (omega (arith, counts (in_class 4)))
            (omega (arith, counts (in_class 5))))

  -- The other counters, whatever the classes.
  with_classes :
      (status : ℕ) (classes : List ℕ)
      → classes ≡ tallies (end_first n (finished_with status) requests)
      → IsBalanced
          (record set { completed = classes })
          (end_first n (finished_with status) requests)
  with_classes status classes same =
      let (flagged, counts) = end_first-open n (finished_with status) requests found in
      record {
        recorded = flagged;
        active = omega (arith, v.active, counts is_open);
        aborts = omega (arith, v.aborts, counts is_aborted);
        classes = same;
      }

  finished-IsBalanced :
      (status : ℕ)
      → IsBalanced (count_response true status set) (end_first n (finished_with status) requests)
  finished-IsBalanced status =
      let counted = finished_classes status in
      elim (Bool-cases (has_class status)) [
        | inl e ↦ rw e (with_classes status _ (rw e at counted))
        | inr e ↦ rw e (with_classes status _ (rw e at counted))
      ]

  aborted-IsBalanced :
      (status : ℕ) → IsBalanced (count_response false status set) (end_first n aborted requests)
  unfolding tallies
  aborted-IsBalanced status =
      let (flagged, counts) = end_first-open n aborted requests found in
      record {
        recorded = flagged;
        active = omega (arith, v.active, counts is_open);
        aborts = omega (arith, v.aborts, counts is_aborted);
        classes =
            v.classes
            ∙ same_five (omega (arith, counts (in_class 1))) (omega (arith, counts (in_class 2)))
                (omega (arith, counts (in_class 3))) (omega (arith, counts (in_class 4)))
                (omega (arith, counts (in_class 5)));
      }

  count_response-IsBalanced :
      (finished : Bool) (status : ℕ)
      → IsBalanced
          (count_response finished status set)
          (end_first n (ending finished status) requests)
  count_response-IsBalanced true status = finished-IsBalanced status
  count_response-IsBalanced false status = aborted-IsBalanced status

complete-IsBalanced :
    (n : ℕ) (finished : Bool) (status : ℕ) (c : Counters) (requests : List (Option Ending))
    → IsBalanced c requests
    → IsBalanced (complete n finished status c) (end_first n (ending finished status) requests)
unfolding complete
complete-IsBalanced n finished status c requests v =
    by_flags (record_once n c.recorded) (sym (ap (record_once n) v.recorded))
  where
    by_flags :
        (o : Option (List Bool))
        → record_once n (map is_recorded requests) ≡ o
        → IsBalanced
            (elim o [
              | none ↦ c
              | some flags ↦
                  count_response finished status
                    (record c { recorded = flags; active_requests = c.active_requests - 1 })
            ])
            (end_first n (ending finished status) requests)
    by_flags none is = rw (end_first-ended n (ending finished status) requests is) v
    by_flags (some flags) is = count_response-IsBalanced n c requests flags v is finished status

-- Whatever order requests arrive in and responses finish and close in: the gauge of active requests
-- is the number of requests whose response has done neither; the aborted responses are those that
-- closed unfinished first; and each of the five classes counts the responses that finished first
-- with a status of its hundred.
pub Counted-IsBalanced :
    {c : Counters} {requests : List (Option Ending)} → Counted c requests → IsBalanced c requests
unfolding arrive tally tallies
Counted-IsBalanced none_yet = record {
  recorded = refl;
  active = refl;
  aborts = refl;
  classes = refl;
}
Counted-IsBalanced (arrived c requests before) =
    let v = Counted-IsBalanced before in
    record {
      recorded = ap (λ flags. false ∷ flags) v.recorded;
      active = omega (arith, v.active);
      aborts = omega (arith, v.aborts);
      classes =
          v.classes
          ∙ same_five (omega arith) (omega arith) (omega arith) (omega arith) (omega arith);
    }
Counted-IsBalanced (ended c requests n finished status before) =
    complete-IsBalanced n finished status c requests (Counted-IsBalanced before)
