-- ===== src/Tracking/Flush/Sums.antt =====
-- The rows of a flush carry the counts of the snapshot, and the subtraction takes them off the buffer.
use llm_proxy_server.Prelude.{
  ℕ, ◌+◌, ◌-◌, ◌≤◌, ◌≡◌, refl, Bool, [], ◌∷◌, String, Dict, lookup, if◌then◌else◌, arith, bump,
  count_at, tally, tally-bump, IsDict, same_count, total-insert, count_at-erase, insert-IsDict,
  erase-IsDict, lookup-insert, lookup-erase, ◌==◌,
}
use llm_proxy_server.Tracking.Keys.{
  UsageKey, HourKey, DayKey, hour_key, day_key, UsageKey-Keyed, HourKey-Keyed, DayKey-Keyed,
}
use llm_proxy_server.Tracking.Flush.{
  sum_rows, hourly_rows, daily_map, label_rows, daily_rows, subtract_entry, subtract, daily_labels,
}

pub sum_rows-hourly_rows :
    (p : HourKey → Bool) (snapshot : Dict UsageKey ℕ)
    → sum_rows p (hourly_rows snapshot) ≡ tally (λ k. p (hour_key k)) snapshot
unfolding hourly_rows
sum_rows-hourly_rows p [] = refl
sum_rows-hourly_rows p ((k, n) ∷ snapshot) = omega (arith, sum_rows-hourly_rows p snapshot)

tally-daily_map :
    (p : DayKey → Bool) (snapshot : Dict UsageKey ℕ) (days : Dict DayKey ℕ)
    → tally p (daily_map snapshot days) ≡ tally p days + tally (λ k. p (day_key k)) snapshot
unfolding daily_map
tally-daily_map p [] days = omega arith
tally-daily_map p ((k, n) ∷ snapshot) days =
    omega
      (arith, tally-bump p (day_key k) n days, tally-daily_map p snapshot (bump (day_key k) n days))

sum_rows-label_rows :
    (p : DayKey → Bool) (labels : Dict DayKey (String × String)) (days : Dict DayKey ℕ)
    → sum_rows p (label_rows labels days) ≡ tally p days
unfolding label_rows
sum_rows-label_rows p labels [] = refl
sum_rows-label_rows p labels ((day, n) ∷ days) = omega (arith, sum_rows-label_rows p labels days)

pub sum_rows-daily_rows :
    (p : DayKey → Bool) (snapshot : Dict UsageKey ℕ)
    → sum_rows p (daily_rows snapshot) ≡ tally (λ k. p (day_key k)) snapshot
unfolding daily_rows
sum_rows-daily_rows p snapshot = omega (
  arith,
  sum_rows-label_rows p (daily_labels snapshot []) (daily_map snapshot []),
  tally-daily_map p snapshot [],
)

-- Each count of the snapshot is still in the buffer.
abbrev pub IsWithin : Dict UsageKey ℕ → Dict UsageKey ℕ → Type 0
IsWithin snapshot buffer = (k : UsageKey) → count_at k snapshot ≤ count_at k buffer

subtract_entry-IsDict :
    (k : UsageKey) (n : ℕ) (d : Dict UsageKey ℕ) → IsDict d → IsDict (subtract_entry k n d)
unfolding subtract_entry
subtract_entry-IsDict k n d h =
    ground (arith, h, erase-IsDict k d, insert-IsDict k (count_at k d - n) d)

pub subtract-IsDict : (snapshot d : Dict UsageKey ℕ) → IsDict d → IsDict (subtract snapshot d)
unfolding subtract
subtract-IsDict [] d h = h
subtract-IsDict ((k, n) ∷ snapshot) d h =
    subtract-IsDict snapshot (subtract_entry k n d) (subtract_entry-IsDict k n d h)

tally-subtract_entry :
    (p : UsageKey → Bool) (k : UsageKey) (n : ℕ) (d : Dict UsageKey ℕ)
    → IsDict d
    → n ≤ count_at k d
    → tally p (subtract_entry k n d) + (if p k then n else 0) ≡ tally p d
unfolding subtract_entry
tally-subtract_entry p k n d h le =
    ground (arith, count_at-erase p k d h, total-insert same_count p k (count_at k d - n) d)

count_at-subtract_entry :
    (k j : UsageKey) (n : ℕ) (d : Dict UsageKey ℕ)
    → (k == j) ≡ Bool.false
    → count_at j (subtract_entry k n d) ≡ count_at j d
unfolding subtract_entry
count_at-subtract_entry k j n d e =
    ground (arith, e, lookup-erase k j d, lookup-insert k j (count_at k d - n) d)

rest-IsWithin :
    (k : UsageKey) (n : ℕ) (snapshot d : Dict UsageKey ℕ)
    → IsDict ((k, n) ∷ snapshot)
    → IsWithin ((k, n) ∷ snapshot) d
    → IsWithin snapshot (subtract_entry k n d)
unfolding lookup
rest-IsWithin k n snapshot d h within j =
    ground (arith, h, within j, UsageKey-Keyed.same_iff k j, count_at-subtract_entry k j n d)

head_within :
    (k : UsageKey) (n : ℕ) (snapshot d : Dict UsageKey ℕ)
    → IsWithin ((k, n) ∷ snapshot) d
    → n ≤ count_at k d
unfolding lookup
head_within k n snapshot d within = ground (arith, within k, UsageKey-Keyed.same_iff k k)

-- What is subtracted is the snapshot.
pub tally-subtract :
    (p : UsageKey → Bool) (snapshot d : Dict UsageKey ℕ)
    → IsDict snapshot
    → IsDict d
    → IsWithin snapshot d
    → tally p (subtract snapshot d) + tally p snapshot ≡ tally p d
unfolding subtract
tally-subtract p [] d s h within = omega arith
tally-subtract p ((k, n) ∷ snapshot) d s h within = omega (
  arith,
  tally-subtract_entry p k n d h (head_within k n snapshot d within),
  tally-subtract p snapshot (subtract_entry k n d) s.1 (subtract_entry-IsDict k n d h)
      (rest-IsWithin k n snapshot d s within),
)
