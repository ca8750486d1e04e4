-- ===== src/Locks/Excludes.antt =====
-- Mutual exclusion: at most one task is inside the lock, as deep as the lock counts.
use llm_proxy_server.Prelude.{
  ℕ, ◌≡◌, ◌≤◌, ◌↔◌, refl, false, none, some, if◌then◌else◌, arith, Option-cases, inl, inr, ◌⊎◌,
  Dict, lookup, lookup-sweep, not, is_empty, ℕ-Keyed,
}
use llm_proxy_server.Locks.{
  TaskReentrantLock, new_lock, owned_by, enter, leave, in_use, pool_lock, evict_locks, Tasks,
  LockStep, enters, leaves, queues, wakes, gives_up, wake, LockReach, here, next,
}

-- The owner is as deep inside as the lock counts, every other task is outside, and the inner lock is
-- held while there is an owner.
pub record IsExclusive (s : Tasks) : Type 0 where
  pub counted :
      (task : ℕ) → s.inside task ≡ (if owned_by task s.lock.owner then s.lock.depth else 0)
  pub deep : (task : ℕ) → s.lock.owner ≡ some task → 1 ≤ s.lock.depth
  pub free : s.lock.held ≡ false → s.lock.owner ≡ none
  pub held : s.lock.owner ≡ none → s.lock.held ≡ false

LockStep-IsExclusive : {s t : Tasks} → LockStep s t → IsExclusive s → IsExclusive t
unfolding enter wake leave in_use
LockStep-IsExclusive (enters task s l apart e) h = record {
  counted = λ other. ground (arith, e, h.counted other, h.counted task, h.free, h.deep task);
  deep = λ other o. ground (arith, e, o, h.deep other);
  free = λ f. ground (arith, e, f, h.free);
  held = λ f. ground (arith, e, f, h.held);
}
LockStep-IsExclusive (leaves task n s e) h = record {
  counted = λ other. ground (arith, e, h.counted other, h.counted task);
  deep = λ other o. ground (arith, e, o, h.deep other, h.counted task);
  free = λ f. ground (arith, e, f, h.free);
  held = λ f. ground (arith, e, f, h.held);
}
LockStep-IsExclusive (queues task s apart e) h = record {
  counted = h.counted;
  deep = h.deep;
  free = h.free;
  held = h.held;
}
LockStep-IsExclusive (gives_up task s) h = record {
  counted = h.counted;
  deep = h.deep;
  free = h.free;
  held = h.held;
}
LockStep-IsExclusive (wakes task s l e) h = record {
  counted = λ other. ground (arith, e, h.counted other, h.counted task, h.free);
  deep = λ other o. ground (arith, e, o);
  free = λ f. ground (arith, e, f);
  held = λ f. ground (arith, e, f);
}

-- A lock that no task has used.
abbrev pub unused : Tasks
unused = record { lock = new_lock; inside = λ task. 0 }

unused-IsExclusive : IsExclusive unused
unused-IsExclusive = record {
  counted = λ task. refl;
  deep = λ task o. absurd (ground (arith, o));
  free = λ f. refl;
  held = λ f. refl;
}

LockReach-IsExclusive : {s t : Tasks} → IsExclusive s → LockReach s t → IsExclusive t
LockReach-IsExclusive h here = h
LockReach-IsExclusive h (next r q) = LockStep-IsExclusive q (LockReach-IsExclusive h r)

-- Whatever the order in which tasks enter, re-enter, wait and leave, two tasks that are inside the lock
-- are the same task.
pub LockReach-exclusion :
    (s : Tasks) (a b : ℕ) → LockReach unused s → 1 ≤ s.inside a → 1 ≤ s.inside b → a ≡ b
LockReach-exclusion s a b r ha hb =
    let h = LockReach-IsExclusive unused-IsExclusive r in ground (arith, h.counted a, h.counted b)

-- In a state that is reached, the lock makes a task wait exactly when the task is not inside, and
-- another task is inside or waits.
pub enter-waits :
    (s : Tasks) (task : ℕ)
    → LockReach unused s
    → (enter task s.lock ≡ none) ↔ (
        (s.inside task ≡ 0)
        × (((other : ℕ) × (1 ≤ s.inside other)) ⊎ (is_empty s.lock.waiters ≡ false)))
unfolding enter in_use
enter-waits s task r =
    let h = LockReach-IsExclusive unused-IsExclusive r in
    elim (Option-cases s.lock.owner) [
      | inl e ↦ (
        λ w. (ground (arith, e, h.counted task), inr (ground (arith, e, w, h.held))),
        λ x. elim x.1 [
          | inl y ↦ absurd (ground (arith, e, h.counted y.0, y.1))
          | inr y ↦ ground (arith, e, y, h.held)
        ],
      )
      | inr (owner, e) ↦ (
        λ w. (
          ground (arith, e, w, h.counted task),
          inl (owner, ground (arith, e, h.deep owner, h.counted owner)),
        ),
        λ x. ground (arith, e, h.free, h.counted task, h.deep task, x.0),
      )
    ]

-- Eviction of the pool locks never replaces one that a task is inside, nor one that a task waits for.
pub pool_lock-evict_locks :
    (locks : Dict ℕ TaskReentrantLock) (pool_id task : ℕ) (s : Tasks)
    → LockReach unused s
    → lookup pool_id locks ≡ some s.lock
    → (1 ≤ s.inside task) ⊎ (is_empty s.lock.waiters ≡ false)
    → pool_lock pool_id (evict_locks locks) ≡ (s.lock, evict_locks locks)
unfolding pool_lock evict_locks in_use
pool_lock-evict_locks locks pool_id task s r e busy =
    let h = LockReach-IsExclusive unused-IsExclusive r in
    let kept = lookup-sweep (λ (_ : ℕ) l. not (in_use l)) pool_id locks in
    elim busy [
      | inl b ↦ ground (arith, e, b, kept, h.counted task, h.free)
      | inr b ↦ ground (arith, e, b, kept)
    ]
