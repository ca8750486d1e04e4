-- ===== src/Locks.antt =====
-- app/concurrency.py: `TaskReentrantLock`. Its `asyncio.Lock` enters by what asyncio documents:
-- `acquire` ends at once only when the lock is free and nobody waits for it; else the task waits, and
-- of those that wait, the one that began first goes on when the lock is free; a task that is cancelled
-- waits no more; `release` frees the lock. Each step is one that a task takes with no other in between.
mod Tests
pub mod Excludes
pub mod Turns
use llm_proxy_server.Prelude.{
  ℕ, suc, ◌+◌, ◌-◌, ◌≡◌, Bool, true, false, Option, none, some, nat_eq, if◌then◌else◌, Dict, List,
  [], ◌∷◌, ◌++◌, contains, remove, lookup, insert, get_or, ℕ-Keyed, is_some, sweep, not, ◌||◌,
  is_empty,
}

-- `_lock`, as whether it is held, with its waiters; `_owner` and `_depth`.
pub record TaskReentrantLock : Type 0 where
  pub held : Bool
  pub waiters : List ℕ
  pub owner : Option ℕ
  pub depth : ℕ

abbrev pub new_lock : TaskReentrantLock
new_lock = record { held = false; waiters = []; owner = none; depth = 0 }

abbrev pub owned_by : ℕ → Option ℕ → Bool
owned_by task none = false
owned_by task (some owner) = nat_eq owner task

-- `lock_in_use`
unfoldable pub in_use : TaskReentrantLock → Bool
in_use l = l.held || not (is_empty l.waiters)

-- `__aenter__`, up to its end or its wait: `none` says that the task has to wait.
unfoldable pub enter : ℕ → TaskReentrantLock → Option TaskReentrantLock
unfolding in_use
enter task l =
    if owned_by task l.owner
    then some (record l { depth = l.depth + 1 })
    else if in_use l
    then none
    else some (record l { held = true; owner = some task; depth = 1 })

-- The end of `__aenter__` for the task that waits in front, once the lock is free.
unfoldable pub wake : TaskReentrantLock → Option (ℕ × TaskReentrantLock)
wake l = if l.held then none else elim l.waiters [
  | [] ↦ none
  | task ∷ rest ↦ some (task, record { held = true; waiters = rest; owner = some task; depth = 1 })
]

-- `__aexit__`
unfoldable pub leave : TaskReentrantLock → TaskReentrantLock
leave l =
    if nat_eq (l.depth - 1) 0
    then record l { held = false; owner = none; depth = 0 }
    else record l { depth = l.depth - 1 }

-- The lock, and how deep each task is in `async with` blocks of it.
pub record Tasks : Type 0 where
  pub lock : TaskReentrantLock
  pub inside : ℕ → ℕ

abbrev pub update : ℕ → ℕ → (ℕ → ℕ) → ℕ → ℕ
update task n inside other = if nat_eq task other then n else inside other

-- The steps of the tasks. A task that waits begins no block, and only a task that is inside a block
-- leaves one.
pub data LockStep : Tasks → Tasks → Type 0 where
  enters :
      (task : ℕ) (s : Tasks) (l : TaskReentrantLock)
      → contains s.lock.waiters task ≡ false
      → enter task s.lock ≡ some l
      → LockStep s (record { lock = l; inside = update task (s.inside task + 1) s.inside })
  queues :
      (task : ℕ) (s : Tasks)
      → contains s.lock.waiters task ≡ false
      → enter task s.lock ≡ none
      → LockStep s (record s { lock = record s.lock { waiters = s.lock.waiters ++ task ∷ [] } })
  wakes :
      (task : ℕ) (s : Tasks) (l : TaskReentrantLock)
      → wake s.lock ≡ some (task, l)
      → LockStep s (record { lock = l; inside = update task (s.inside task + 1) s.inside })
  gives_up :
      (task : ℕ) (s : Tasks)
      → LockStep s (record s { lock = record s.lock { waiters = remove task s.lock.waiters } })
  leaves :
      (task n : ℕ) (s : Tasks)
      → s.inside task ≡ n + 1
      → LockStep s (record { lock = leave s.lock; inside = update task n s.inside })

pub data LockReach (s : Tasks) : Tasks → Type 0 where
  here : LockReach s s
  next : {t u : Tasks} → LockReach s t → LockStep t u → LockReach s u

-- The pool locks of `RateLimitTracker`: `pool_lock`, and the sweep of those not in use.
unfoldable pub pool_lock :
    ℕ → Dict ℕ TaskReentrantLock → TaskReentrantLock × Dict ℕ TaskReentrantLock
unfolding lookup insert
pool_lock pool_id locks = elim (lookup pool_id locks) [
  | some l ↦ (l, locks)
  | none ↦ (new_lock, insert pool_id new_lock locks)
]

-- The end of `_evict_stale_buckets`.
unfoldable pub evict_locks : Dict ℕ TaskReentrantLock → Dict ℕ TaskReentrantLock
unfolding sweep in_use
evict_locks locks = sweep (λ (_ : ℕ) l. not (in_use l)) locks
