-- ===== src/Web/SubmissionWait/Deadline.antt =====
-- web/src/submission-wait.ts: how long a wait can last.
use vulnseal.Prelude.{
  ℕ, ◌+◌, ◌≤◌, ◌<◌, ◌≡◌, arith, true, false, Option, none, some, Result, ok, err,
}
use vulnseal.Shared.Hex.{Text}
use vulnseal.Web.SubmissionWait.{
  Clock, Wait, WaitError, submission_wait, close, arm, assert_active, checkpoint, cancel, fire,
  begin, finish, caught, Step, checks, observes, cancels, fires, begins, ends, Running, runs,
  goes_on,
}

-- The longest that a wait lasts: for the preparation, and then for the confirmation.
abbrev pub limit : Option Text → ℕ
limit none = 900000
limit (some id) = 1500000

-- A wait that began at a time has started, and its deadlines are within the limit from there.
record InTime (begun : Clock) (w : Wait) : Type 0 where
  has_started : w.started ≡ true
  monotonic_bound : w.monotonic_deadline ≤ begun.monotonic + limit w.checkpoint_id
  wall_bound : w.wall_deadline ≤ begun.wall + limit w.checkpoint_id

close-InTime :
    (begun : Clock) (e : WaitError) (w : Wait) → InTime begun w → InTime begun (close e w)
unfolding close
close-InTime begun e w h = ground (arith, h)

assert_active-InTime :
    (begun now : Clock) (w : Wait) → InTime begun w → InTime begun (assert_active now w).1
unfolding assert_active
assert_active-InTime begun now w h = ground (arith, h, close-InTime begun w.deadline_error w h)

checkpoint-InTime :
    (begun : Clock) (id : Text) (now : Clock) (w : Wait)
    → InTime begun w
    → InTime begun (checkpoint id now w).1
unfolding checkpoint assert_active arm
checkpoint-InTime begun id now w h = ground (arith, h, close-InTime begun w.deadline_error w h)

fire-InTime : (begun : Clock) (w : Wait) → InTime begun w → InTime begun (fire w)
unfolding fire
fire-InTime begun w h = ground (arith, h, close-InTime begun)

begin-InTime : (begun now : Clock) (w : Wait) → InTime begun w → InTime begun (begin now w).1
unfolding begin
begin-InTime begun now w h = ground (arith, h)

caught-InTime :
    (begun : Clock) (e : WaitError) (now : Clock) (w : Wait)
    → InTime begun w
    → InTime begun (caught {T = Unit {0}} e now w).1
unfolding caught
caught-InTime begun e now w h = ground (arith, h, assert_active-InTime begun now w h)

finish-InTime :
    (begun : Clock) (outcome : Result WaitError (Unit {0})) (now : Clock) (w : Wait)
    → InTime begun w
    → InTime begun (finish outcome now w).1
unfolding finish
finish-InTime begun (ok u) now w h =
    ground (arith, h, assert_active-InTime begun now w h, caught-InTime begun)
finish-InTime begun (err e) now w h = ground (arith, h, caught-InTime begun e now w h)

Step-InTime : (begun : Clock) {w v : Wait} → Step w v → InTime begun w → InTime begun v
unfolding cancel
Step-InTime begun (checks now w) h = assert_active-InTime begun now w h
Step-InTime begun (observes id now w) h = checkpoint-InTime begun id now w h
Step-InTime begun (cancels w) h = close-InTime begun _ w h
Step-InTime begun (fires w) h = fire-InTime begun w h
Step-InTime begun (begins now w) h = begin-InTime begun now w h
Step-InTime begun (ends outcome now w) h = finish-InTime begun outcome now w h

Running-InTime : {begun : Clock} {w : Wait} → Running begun w → InTime begun w
unfolding begin submission_wait arm
Running-InTime {begun} runs = ground arith
Running-InTime {begun} (goes_on r s) = Step-InTime begun s (Running-InTime r)

-- The action's result comes back only while the wait is open, before both deadlines.
finish-ok :
    {T : Type 0} (result : T) (now : Clock) (w : Wait) {r : T}
    → (finish (ok result) now w).0 ≡ ok r
    → (w.closed ≡ false)
      × (r ≡ result)
      × (now.monotonic < w.monotonic_deadline)
      × (now.wall < w.wall_deadline)
unfolding finish assert_active caught
finish-ok result now w h = ground (arith, h)

-- A wait gives the result of its action only while it is open, and only less than 15 minutes after
-- it began, or 25 when a transaction was being observed, by both clocks, whatever happened in
-- between.
pub finish-limit :
    {T : Type 0} {begun : Clock} {w : Wait} (result : T) (now : Clock) {r : T}
    → Running begun w
    → (finish (ok result) now w).0 ≡ ok r
    → (r ≡ result)
      × (w.closed ≡ false)
      × (now.monotonic < begun.monotonic + limit w.checkpoint_id)
      × (now.wall < begun.wall + limit w.checkpoint_id)
finish-limit {begun} {w} result now run h =
    let k = Running-InTime run in
    let (open_, same, early, earlier) = finish-ok result now w h in
    (same, open_, omega (arith, k.monotonic_bound, early), omega (arith, k.wall_bound, earlier))
