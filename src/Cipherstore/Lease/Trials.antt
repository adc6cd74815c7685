-- ===== src/Cipherstore/Lease/Trials.antt =====
-- cipherstore/src/directory-lease.ts: two processes in turn.
use vulnseal.Prelude.{ℕ, ◌≡◌, refl}
use vulnseal.Cipherstore.Lease.{
  no_lock, empty_lock, owned, outside, made, holding, removing, emptying, Directory, set_stage,
  move, makes, writes, reads, unlinks, removes, Reachable, starts, follows,
}
use vulnseal.Cipherstore.Lease.Exclusion.{Reachable-holds_alone}

abbrev untouched : Directory
untouched = record { lock = no_lock; stage = λ i. outside }

-- Process 1 acquires and releases, and then process 2 acquires.
abbrev made_once : Directory
unfolding move
made_once = move 1 made empty_lock untouched

abbrev held_once : Directory
unfolding move
held_once = move 1 holding (owned 1) made_once

abbrev read_once : Directory
unfolding move
read_once = move 1 removing held_once.lock held_once

abbrev unlinked_once : Directory
unfolding move
unlinked_once = move 1 emptying empty_lock read_once

abbrev released_once : Directory
unfolding move
released_once = move 1 outside no_lock unlinked_once

abbrev made_again : Directory
unfolding move
made_again = move 2 made empty_lock released_once

abbrev taken_over : Directory
unfolding move
taken_over = move 2 holding (owned 2) made_again

released_once-Reachable : Reachable released_once
unfolding move set_stage
released_once-Reachable =
    follows
      (follows
        (follows (follows (follows starts (makes 1 untouched refl refl)) (writes 1 made_once refl))
          (reads 1 held_once refl refl))
        (unlinks 1 read_once refl))
      (removes 1 unlinked_once refl)

taken_over-Reachable : Reachable taken_over
unfolding move set_stage
taken_over-Reachable =
    follows (follows released_once-Reachable (makes 2 released_once refl refl))
      (writes 2 made_again refl)

holds_alone_example : (taken_over.lock ≡ owned 2) × ((j : ℕ) → taken_over.stage j ≡ holding → j ≡ 2)
unfolding move set_stage
holds_alone_example = Reachable-holds_alone 2 taken_over-Reachable refl
