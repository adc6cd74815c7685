-- ===== src/Cipherstore/Metrics.antt =====
-- cipherstore/src/server.ts: the counters of the metrics, over the lifetimes of requests. A request
-- other than a metrics scrape is counted as active until its response finishes or closes; both
-- events may come, and the flag `recorded` of a request lets the first alone count.
pub mod Balance
use vulnseal.Prelude.{
  ℕ, zero, suc, ◌+◌, ◌-◌, ◌/◌, ◌<◌, ◌≤◌, ◌≡◌, Bool, true, false, ◌&&◌, Option, none, some, List, [],
  ◌∷◌, length, leb, ltb, if◌then◌else◌,
}

pub record Counters : Type 0 where
  pub active_requests : ℕ
  pub aborted_responses : ℕ
  pub completed : List ℕ
  -- `recorded` of each request, the last one first.
  pub recorded : List Bool

abbrev pub start : Counters
start = record {
  active_requests = 0;
  aborted_responses = 0;
  completed = 0 ∷ 0 ∷ 0 ∷ 0 ∷ 0 ∷ [];
  recorded = [];
}

-- The flags once the flag of a request is set, if it was not.
unfoldable pub record_once : ℕ → List Bool → Option (List Bool)
record_once n [] = none
record_once zero (flag ∷ flags) = if flag then none else some (true ∷ flags)
record_once (suc n) (flag ∷ flags) = elim (record_once n flags) [
  | none ↦ none
  | some rest ↦ some (flag ∷ rest)
]

-- `completed[index] = completed[index]! + 1`
unfoldable pub increment : ℕ → List ℕ → List ℕ
increment n [] = []
increment zero (count ∷ counts) = (count + 1) ∷ counts
increment (suc n) (count ∷ counts) = count ∷ increment n counts

-- A request arrives.
unfoldable pub arrive : Counters → Counters
arrive c = record c { active_requests = c.active_requests + 1; recorded = false ∷ c.recorded }

-- `Math.floor(status / 100) - 1` is an index of the five classes.
abbrev pub has_class : ℕ → Bool
has_class status = leb 1 (status / 100) && leb (status / 100) 5

abbrev pub count_response : Bool → ℕ → Counters → Counters
count_response true status c =
    if has_class status
    then record c { completed = increment (status / 100 - 1) c.completed }
    else c
count_response false status c = record c { aborted_responses = c.aborted_responses + 1 }

-- `complete(finished)` of one request, with the status of its response.
unfoldable pub complete : ℕ → Bool → ℕ → Counters → Counters
unfolding record_once increment
complete request finished status c = elim (record_once request c.recorded) [
  | none ↦ c
  | some flags ↦
      count_response finished status
        (record c { recorded = flags; active_requests = c.active_requests - 1 })
]

-- How a response ended: finished with a status, or not.
pub data Ending : Type 0 where
  finished_with : ℕ → Ending
  aborted : Ending

abbrev pub ending : Bool → ℕ → Ending
ending true status = finished_with status
ending false status = aborted

-- The first ending of a request is the one that stands; a request that has none yet is open.
unfoldable pub end_first : ℕ → Ending → List (Option Ending) → List (Option Ending)
end_first n e [] = []
end_first zero e (none ∷ requests) = some e ∷ requests
end_first zero e (some f ∷ requests) = some f ∷ requests
end_first (suc n) e (o ∷ requests) = o ∷ end_first n e requests

-- The events of the server in any order: arrivals, and the `finish` and `close` of responses; with
-- the first ending of each request, the last request first.
pub data Counted : Counters → List (Option Ending) → Type 0 where
  none_yet : Counted start []
  arrived :
      (c : Counters) (requests : List (Option Ending))
      → Counted c requests
      → Counted (arrive c) (none ∷ requests)
  ended :
      (c : Counters) (requests : List (Option Ending)) (n : ℕ) (finished : Bool) (status : ℕ)
      → Counted c requests
      → Counted (complete n finished status c) (end_first n (ending finished status) requests)
