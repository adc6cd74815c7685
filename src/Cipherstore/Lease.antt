-- ===== src/Cipherstore/Lease.antt =====
-- cipherstore/src/directory-lease.ts: the lease of a directory, among processes that know nothing of
-- each other but the lock. A process is known by the token that it draws, and no two draw one
-- token; each step is one call of the file system, and a process may end between any two. A
-- process makes one call of its release at a time; one that reads another token throws, and changes
-- nothing.
pub mod Exclusion
mod Trials
use vulnseal.Prelude.{ℕ, ◌≡◌, ◌≢◌, Bool, true, false, ◌==◌, if◌then◌else◌}

-- The lock: the directory and in it the file of its owner, by the token in it, or one that could not
-- be written whole.
pub data Lock : Type 0 where
  no_lock : Lock
  empty_lock : Lock
  owned : ℕ → Lock
  damaged : Lock

-- Where a process stands: between the two calls of an acquisition, holding the lease, or between
-- those of a release; `stuck` is after a call that failed.
pub data Stage : Type 0 where
  outside : Stage
  made : Stage
  holding : Stage
  removing : Stage
  emptying : Stage
  stuck : Stage

pub record Directory : Type 0 where
  pub lock : Lock
  pub stage : ℕ → Stage

unfoldable pub set_stage : ℕ → Stage → (ℕ → Stage) → ℕ → Stage
set_stage i new stage j = if j == i then new else stage j

unfoldable pub move : ℕ → Stage → Lock → Directory → Directory
unfolding set_stage
move i new lock d = record { lock = lock; stage = set_stage i new d.stage }

pub data Step : Directory → Directory → Type 0 where
  -- `mkdir(lock)`; where the lock is there, it throws, and nothing changes.
  makes :
      (i : ℕ) (d : Directory)
      → d.stage i ≡ outside
      → d.lock ≡ no_lock
      → Step d (move i made empty_lock d)
  -- `writeFile(ownerPath, …)`
  writes : (i : ℕ) (d : Directory) → d.stage i ≡ made → Step d (move i holding (owned i) d)
  -- It throws before there is a file, and the lock is removed, or that fails too.
  gives_up : (i : ℕ) (d : Directory) → d.stage i ≡ made → Step d (move i outside no_lock d)
  leaves : (i : ℕ) (d : Directory) → d.stage i ≡ made → Step d (move i stuck d.lock d)
  damages : (i : ℕ) (d : Directory) → d.stage i ≡ made → Step d (move i stuck damaged d)
  -- The release, once it has read its own token.
  reads :
      (i : ℕ) (d : Directory)
      → d.stage i ≡ holding
      → d.lock ≡ owned i
      → Step d (move i removing d.lock d)
  -- `unlink` throws, and the caller may release again.
  keeps : (i : ℕ) (d : Directory) → d.stage i ≡ removing → Step d (move i holding d.lock d)
  unlinks : (i : ℕ) (d : Directory) → d.stage i ≡ removing → Step d (move i emptying empty_lock d)
  removes : (i : ℕ) (d : Directory) → d.stage i ≡ emptying → Step d (move i outside no_lock d)
  -- A call fails for good, or the process ends.
  fails : (i : ℕ) (d : Directory) → Step d (move i stuck d.lock d)

pub data Reachable : Directory → Type 0 where
  starts : Reachable (record { lock = no_lock; stage = λ i. outside })
  follows : {d e : Directory} → Reachable d → Step d e → Reachable e
