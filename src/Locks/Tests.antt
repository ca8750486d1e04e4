-- ===== src/Locks/Tests.antt =====
-- Two tasks at a lock, and the theorems on it at concrete inputs.
use llm_proxy_server.Prelude.{ℕ, ◌≡◌, refl, true, false, none, some, [], ◌∷◌, arith, ℕ-Keyed}
use llm_proxy_server.Locks.{
  TaskReentrantLock, enter, wake, leave, in_use, Tasks, update, enters, queues, leaves, wakes,
  LockReach, here, next,
}
use llm_proxy_server.Locks.Excludes.{unused, LockReach-exclusion}

-- Task 5 is inside twice, and task 6 waits.
abbrev first : TaskReentrantLock
first = record { held = true; waiters = []; owner = some 5; depth = 1 }

abbrev second : TaskReentrantLock
second = record { held = true; waiters = []; owner = some 5; depth = 2 }

abbrev once : Tasks
once = record { lock = first; inside = update 5 1 unused.inside }

abbrev twice : Tasks
twice = record { lock = second; inside = update 5 2 once.inside }

abbrev waited : Tasks
waited = record twice { lock = record second { waiters = 6 ∷ [] } }

waited_reached : LockReach unused waited
unfolding enter in_use
waited_reached =
    next (next (next here (enters 5 unused first refl refl)) (enters 5 once second refl refl))
      (queues 6 twice refl refl)

abbrev holder : ℕ
holder = 5

LockReach-exclusion_example : holder ≡ 5
LockReach-exclusion_example =
    LockReach-exclusion waited holder 5 waited_reached (omega arith) (omega arith)

-- Behind task 6 there is task 7; task 5 leaves twice and task 6 gets in.
abbrev queued : Tasks
queued = record waited { lock = record waited.lock { waiters = 6 ∷ 7 ∷ [] } }

abbrev half_out : Tasks
half_out = record { lock = record queued.lock { depth = 1 }; inside = update 5 1 queued.inside }

abbrev all_out : Tasks
all_out = record {
  lock = record { held = false; waiters = 6 ∷ 7 ∷ []; owner = none; depth = 0 };
  inside = update 5 0 half_out.inside;
}

abbrev woken : Tasks
woken = record {
  lock = record { held = true; waiters = 7 ∷ []; owner = some 6; depth = 1 };
  inside = update 6 1 all_out.inside;
}

abbrev turn : LockReach queued woken
unfolding leave wake
turn =
    next (next (next here (leaves 5 1 queued refl)) (leaves 5 0 half_out refl))
      (wakes 6 all_out woken.lock refl)
