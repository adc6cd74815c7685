-- ===== src/Cipherstore/Client.antt =====
-- cipherstore/src/sqlite-storage.ts: the client of the SQLite worker, which matches the worker's
-- replies with the requests that wait for them. The worker, its results `R` and the errors `E` that
-- it reports are parameters; the promises of the requests are known by their identifiers.
pub mod Settling
mod Trials
use vulnseal.Prelude.{
  ℕ, suc, ◌+◌, ◌≡◌, Bool, true, false, not, ◌&&◌, leb, ltb, ◌==◌, Option, none, some, List, [], ◌∷◌,
  ◌++◌, length, Result, ok, err, if◌then◌else◌,
}
use vulnseal.Shared.Hex.{Text}
use vulnseal.Cipherstore.Storage.{validate_digest}

pub data Operation : Type 0 where
  prepare_operation : Operation
  read_operation : Operation
  put_operation : Operation
  ready_operation : Operation
  remove_operation : Operation
  list_operation : Operation
  close_operation : Operation

abbrev pub is_close : Operation → Bool
is_close close_operation = true
is_close _ = false

pub data ClientError (E : Type 0) : Type 0 where
  worker_error : E → ClientError E
  storage_closed : ClientError E
  storage_busy : ClientError E
  post_failed : ClientError E
  digest_refused : ClientError E

-- `SqliteCiphertextStorage`: the requests in the order of the map, and, in the order in which it
-- happened, how the promises of the requests were settled.
pub record Client (E R : Type 0) : Type 0 where
  pub pending : List ℕ
  pub next_id : ℕ
  pub failure : Option E
  pub closing : Bool
  pub settled : List (ℕ × Result (ClientError E) R)

abbrev pub waits : ℕ → List ℕ → Bool
waits id [] = false
waits id (other ∷ rest) = if other == id then true else waits id rest

-- `pending.delete`
unfoldable pub drop : ℕ → List ℕ → List ℕ
drop id [] = []
drop id (other ∷ rest) = if other == id then rest else other ∷ drop id rest

module _ {E R : Type 0} where
  unfoldable pub new_client : Client E R
  new_client = record { pending = []; next_id = 0; failure = none; closing = false; settled = [] }

  abbrev pub settle : ℕ → Result (ClientError E) R → Client E R → Client E R
  settle id outcome c = record c { settled = (id, outcome) ∷ c.settled }

  -- The worker's reply to a request.
  unfoldable pub on_message : ℕ → Result (ClientError E) R → Client E R → Client E R
  unfolding drop
  on_message id outcome c =
      if waits id c.pending then settle id outcome (record c { pending = drop id c.pending }) else c

  unfoldable pub reject_all : E → List ℕ → List (ℕ × Result (ClientError E) R)
  reject_all cause [] = []
  reject_all cause (id ∷ rest) = (id, err (worker_error cause)) ∷ reject_all cause rest

  -- An error of the worker, or its exit.
  unfoldable pub fail : E → Client E R → Client E R
  unfolding reject_all
  fail cause c = record c {
    failure = some cause;
    pending = [];
    settled = reject_all cause c.pending ++ c.settled;
  }

  abbrev pub post : Bool → Client E R → Result (ClientError E) ℕ × Client E R
  post true c = (
    ok (suc c.next_id),
    record c { next_id = suc c.next_id; pending = c.pending ++ suc c.next_id ∷ [] },
  )
  post false c = (
    ok (suc c.next_id),
    settle (suc c.next_id) (err post_failed) (record c { next_id = suc c.next_id }),
  )

  -- `request`: a promise that is rejected already, or the identifier of a new one. `posted` is
  -- whether the worker could be posted to.
  unfoldable pub request : Operation → Bool → Client E R → Result (ClientError E) ℕ × Client E R
  request operation posted c = elim c.failure [
    | some e ↦ (err (worker_error e), c)
    | none ↦
        if c.closing && not (is_close operation)
        then (err storage_closed, c)
        else if not (is_close operation) && leb 128 (length c.pending)
        then (err storage_busy, c)
        else post posted c
  ]

  -- `read`, `put` and `removeOffline`: a digest that is none makes no request.
  unfoldable pub request_blob :
      Operation → Text → Bool → Client E R → Result (ClientError E) ℕ × Client E R
  unfolding request validate_digest
  request_blob operation digest posted c = elim (validate_digest digest) [
    | ok u ↦ request operation posted c
    | err e ↦ (err digest_refused, c)
  ]

  -- `close`; its promise is made once. The thread ends at last, which is an event of its own.
  unfoldable pub close : Bool → Client E R → Client E R
  unfolding request
  close posted c =
      if c.closing then c else record ((request close_operation posted c).1) { closing = true }

  pub data Step : Client E R → Client E R → Type 0 where
    requests :
        (operation : Operation) (posted : Bool) (c : Client E R)
        → is_close operation ≡ false
        → Step c (request operation posted c).1
    replies :
        (id : ℕ) (outcome : Result (ClientError E) R) (c : Client E R)
        → Step c (on_message id outcome c)
    fails : (cause : E) (c : Client E R) → Step c (fail cause c)
    closes : (posted : Bool) (c : Client E R) → Step c (close posted c)

  pub data Reachable : Client E R → Type 0 where
    starts : Reachable new_client
    follows : {c d : Client E R} → Reachable c → Step c d → Reachable d
