-- ===== src/Locks/Turns.antt =====
-- The order in which tasks get into the lock.
use llm_proxy_server.Prelude.{ℕ, ◌+◌, ◌≡◌, false, List, [], ◌∷◌, nat_eq, if◌then◌else◌, ℕ-Keyed}
use llm_proxy_server.Locks.{
  owned_by, Tasks, LockStep, enters, wakes, gives_up, LockReach, here, next,
}

-- How many wait in front of a task.
abbrev pub in_front : ℕ → List ℕ → ℕ
in_front task [] = 0
in_front task (x ∷ waiters) = if nat_eq x task then 0 else in_front task waiters + 1

-- The step lets a task in that was not inside.
abbrev pub step_entries : {s t : Tasks} → LockStep s t → ℕ
step_entries (enters task s l apart e) = if owned_by task s.lock.owner then 0 else 1
step_entries (wakes task s l e) = 1
step_entries _ = 0

-- How often a run lets a task in that was not inside.
abbrev pub entries : {s t : Tasks} → LockReach s t → ℕ
entries here = 0
entries (next r q) = entries r + step_entries q

-- The task neither gets in nor is cancelled.
abbrev pub IsStepBehind : ℕ → {s t : Tasks} → LockStep s t → Type 0
IsStepBehind task (wakes other s l e) = nat_eq other task ≡ false
IsStepBehind task (gives_up other s) = nat_eq other task ≡ false
IsStepBehind task _ = Unit

abbrev pub IsBehind : ℕ → {s t : Tasks} → LockReach s t → Type 0
IsBehind task here = Unit
IsBehind task (next r q) = IsBehind task r × IsStepBehind task q
