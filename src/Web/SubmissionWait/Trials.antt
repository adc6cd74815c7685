-- ===== src/Web/SubmissionWait/Trials.antt =====
-- A wait that is checkpointed and ends in time.
use vulnseal.Prelude.{ℕ, ◌+◌, ◌<◌, ◌≡◌, refl, false}
use vulnseal.Contract.Types.{ascii}
use vulnseal.Web.SubmissionWait.{
  Clock, Wait, submission_wait, arm, assert_active, checkpoint, begin, finish, observes, Running,
  runs, goes_on,
}
use vulnseal.Web.SubmissionWait.Deadline.{finish-limit}

abbrev begun : Clock
begun = record { monotonic = 5; wall = 1000 }

abbrev later : Clock
later = record { monotonic = 899999; wall = 900000 }

abbrev at_last : Clock
at_last = record { monotonic = 1400000; wall = 1400000 }

abbrev observing : Wait
unfolding checkpoint begin submission_wait arm assert_active
observing = (checkpoint (ascii "ab") later (begin begun submission_wait).1).1

observing-Running : Running begun observing
unfolding checkpoint observing
observing-Running = goes_on runs (observes (ascii "ab") later _)

finish-limit_example :
    (◌≡◌ {A = ℕ} 7 7)
    × (observing.closed ≡ false)
    × (1400000 < 5 + 1500000)
    × (1400000 < 1000 + 1500000)
unfolding observing finish checkpoint begin submission_wait arm assert_active
finish-limit_example = finish-limit 7 at_last {r = 7} observing-Running refl
