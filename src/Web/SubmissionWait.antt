-- ===== src/Web/SubmissionWait.antt =====
-- web/src/submission-wait.ts: the wait for one submission, as a state and the calls and events that
-- change it. Times are in milliseconds; the promise of the timeout is the error that rejects it.
pub mod Deadline
mod Trials
use vulnseal.Prelude.{
  ℕ, ◌+◌, Bool, true, false, not, ◌&&◌, ◌||◌, leb, Option, none, some, List, [], ◌∷◌, Result, ok,
  err, if◌then◌else◌,
}
use vulnseal.Shared.Hex.{Text}

abbrev pub submission_preparation_timeout_ms : ℕ
submission_preparation_timeout_ms = 900000

abbrev pub submission_confirmation_timeout_ms : ℕ
submission_confirmation_timeout_ms = 600000

pub data WaitError : Type 0 where
  undefined_error : WaitError
  preparation_timeout : WaitError
  confirmation_timeout : Text → WaitError
  wait_closed : WaitError
  already_observed : WaitError
  not_reusable : WaitError
  workspace_closed : WaitError
  action_error : WaitError

-- `performance.now()` and `Date.now()`
pub record Clock : Type 0 where
  pub monotonic : ℕ
  pub wall : ℕ

-- The variables of `submissionWait`; `timer` is what the armed timer would close with.
pub record Wait : Type 0 where
  pub timer : Option WaitError
  pub closed : Bool
  pub started : Bool
  pub checkpoint_id : Option Text
  pub monotonic_deadline : ℕ
  pub wall_deadline : ℕ
  pub deadline_error : WaitError
  pub rejection : Option WaitError

unfoldable pub submission_wait : Wait
submission_wait = record {
  timer = none;
  closed = false;
  started = false;
  checkpoint_id = none;
  monotonic_deadline = 0;
  wall_deadline = 0;
  deadline_error = undefined_error;
  rejection = none;
}

-- A promise is rejected once.
abbrev pub reject : WaitError → Option WaitError → Option WaitError
reject error none = some error
reject error (some first) = some first

unfoldable pub close : WaitError → Wait → Wait
close error w = if w.closed then w else record w {
  timer = none;
  closed = true;
  rejection = if w.started then reject error w.rejection else w.rejection;
}

unfoldable pub arm : ℕ → WaitError → Clock → Wait → Wait
arm duration error now w = record w {
  timer = some error;
  monotonic_deadline = now.monotonic + duration;
  wall_deadline = now.wall + duration;
  deadline_error = error;
}

unfoldable pub assert_active : Clock → Wait → Result WaitError (Unit {0}) × Wait
unfolding close
assert_active now w =
    if w.closed || not w.started
    then (err wait_closed, w)
    else if leb w.monotonic_deadline now.monotonic || leb w.wall_deadline now.wall
    then (err w.deadline_error, close w.deadline_error w)
    else (ok tt, w)

abbrev pub observe :
    Text
    → Clock
    → Result WaitError (Unit {0}) × Wait
    → Option Text
    → Result WaitError (Unit {0}) × Wait
unfolding arm
observe id now (err e, w) seen = (err e, w)
observe id now (ok u, w) (some other) = (err already_observed, w)
observe id now (ok u, w) none = (
  ok tt,
  arm submission_confirmation_timeout_ms (confirmation_timeout id) now
      (record w { checkpoint_id = some id }),
)

unfoldable pub checkpoint : Text → Clock → Wait → Result WaitError (Unit {0}) × Wait
unfolding assert_active observe
checkpoint id now w = observe id now (assert_active now w) w.checkpoint_id

unfoldable pub cancel : Wait → Wait
unfolding close
cancel w = close workspace_closed w

-- The timer runs its callback.
unfoldable pub fire : Wait → Wait
unfolding close
fire w = elim w.timer [ none ↦ w | some error ↦ close error w ]

-- `run`, up to the call of the action.
unfoldable pub begin : Clock → Wait → Result WaitError (Unit {0}) × Wait
unfolding arm
begin now w = if w.started || w.closed then (err not_reusable, w) else (
  ok tt,
  arm submission_preparation_timeout_ms preparation_timeout now (record w { started = true }),
)

abbrev pub finished : Wait → Wait
finished w = record w { timer = none; closed = true }

module _ {T : Type 0} where
  -- The `catch` block: a wait that is still open is checked before the cause is thrown again.
  abbrev pub thrown : WaitError → Result WaitError (Unit {0}) × Wait → Result WaitError T × Wait
  thrown cause (ok u, w) = (err cause, w)
  thrown cause (err e, w) = (err e, w)

  unfoldable pub caught : WaitError → Clock → Wait → Result WaitError T × Wait
  unfolding assert_active
  caught cause now w = if w.closed then (err cause, w) else thrown cause (assert_active now w)

  abbrev pub returned : T → Clock → Result WaitError (Unit {0}) × Wait → Result WaitError T × Wait
  unfolding caught
  returned result now (ok u, w) = (ok result, w)
  returned result now (err e, w) = caught e now w

  -- `run` from the outcome of the race, which is the action's or the rejection, to its end.
  unfoldable pub finish : Result WaitError T → Clock → Wait → Result WaitError T × Wait
  unfolding caught returned assert_active
  finish (ok result) now w =
      let r = returned result now (assert_active now w) in (r.0, finished r.1)
  finish (err cause) now w = let r = caught cause now w in (r.0, finished r.1)

-- What may happen to a wait, at any times.
pub data Step : Wait → Wait → Type 0 where
  checks : (now : Clock) (w : Wait) → Step w (assert_active now w).1
  observes : (id : Text) (now : Clock) (w : Wait) → Step w (checkpoint id now w).1
  cancels : (w : Wait) → Step w (cancel w)
  fires : (w : Wait) → Step w (fire w)
  begins : (now : Clock) (w : Wait) → Step w (begin now w).1
  ends :
      (outcome : Result WaitError (Unit {0})) (now : Clock) (w : Wait)
      → Step w (finish outcome now w).1

-- The states of a wait whose `run` began at a time.
pub data Running (begun : Clock) : Wait → Type 0 where
  runs : Running begun (begin begun submission_wait).1
  goes_on : {w v : Wait} → Running begun w → Step w v → Running begun v
