-- ===== src/Tracking/Flush/Upsert.antt =====
-- The increment-on-conflict upsert of `_usage_upsert` of app/auth/database.py, for a table of either
-- key, and what it does to the sums over a table.
use llm_proxy_server.Prelude.{
  ℕ, ◌+◌, ◌≡◌, Bool, Option, none, some, [], ◌∷◌, String, Dict, lookup, insert, arith, Keyed, total,
  total-insert,
}

-- What a row of a usage table holds besides its key.
pub record UsageRow : Type 0 where
  pub user_identity : String
  pub user_type : String
  pub request_count : ℕ

-- The counts add up, the labels are those of the later row.
abbrev pub increment : Option UsageRow → UsageRow → UsageRow
increment none row = row
increment (some old) row = record row { request_count = old.request_count + row.request_count }

abbrev pub rows_count : UsageRow → ℕ
rows_count row = row.request_count

module _ {ℓ} {K : Type ℓ} where
  -- `func.sum(request_count)` over the rows that a condition picks.
  abbrev pub sum_rows : (K → Bool) → Dict K UsageRow → ℕ
  sum_rows p table = total rows_count p table

module _ {ℓ} {K : Type ℓ} ⦃key : Keyed K⦄ where
  unfoldable pub upsert_rows : Dict K UsageRow → Dict K UsageRow → Dict K UsageRow
  unfolding insert lookup
  upsert_rows [] table = table
  upsert_rows ((k, row) ∷ rows) table =
      upsert_rows rows (insert k (increment (lookup k table) row) table)

  pub sum_rows-upsert_rows :
      (p : K → Bool) (rows table : Dict K UsageRow)
      → sum_rows p (upsert_rows rows table) ≡ sum_rows p table + sum_rows p rows
  unfolding upsert_rows
  sum_rows-upsert_rows p [] table = omega arith
  sum_rows-upsert_rows p ((k, row) ∷ rows) table = ground (
    arith,
    total-insert rows_count p k (increment (lookup k table) row) table,
    sum_rows-upsert_rows p rows (insert k (increment (lookup k table) row) table),
  )
