-- ===== src/Tracking/Today/Charged.antt =====
-- A named group's count of today against what the limiter charges to the group.
use llm_proxy_server.Prelude.{
  ℕ, ◌+◌, Bool, ◌&&◌, if◌then◌else◌, is_empty, total-never, same_count, fun_ext, ap₂, ◌≡◌, ◌≢◌,
  refl, ◌∙◌, true, false, some, List, [], ◌∷◌, String, contains, nat_eq, str_eq, arith, Bool-cases,
  inl, inr, ℕ-Keyed, String-Keyed,
}
use llm_proxy_server.Profiles.{default_group_id}
use llm_proxy_server.Limits.Groups.{GroupState, GroupSnapshot, group_for}
use llm_proxy_server.Tracking.Today.{
  has_key_of, in_group, sql_in_group, in_day, buffered_count, db_count, get_today_group_count,
}
use llm_proxy_server.Tracking.Keys.{DayKey, day_key, UsageKey-Keyed}
use llm_proxy_server.Tracking.Buffer.{RequestTracker}
use llm_proxy_server.Tracking.Flush.{DailyTable, rows_count}
use llm_proxy_server.Tracking.Today.Groups.{
  IsKeyList, IsExact, sql_in_group-in_group, in_group-group_for,
}

-- A model of a nonempty id that the limiter charges to a group.
abbrev pub is_charged_to : GroupState → ℕ → String → Bool
is_charged_to g gid model = if str_eq model "" then false else nat_eq (group_for g (some model)) gid

in_group-is_charged_to :
    (g : GroupState) (gid : ℕ) (snap : GroupSnapshot) (model : String)
    → gid ≢ default_group_id
    → IsExact g gid snap
    → in_group g snap.model_ids snap.provider_keys model ≡ is_charged_to g gid model
unfolding in_group
in_group-is_charged_to g gid snap model named h = elim (Bool-cases (str_eq model "")) [
  | inl e ↦ rw (e, in_group) refl
  | inr e ↦ ground (arith, e, in_group-group_for g gid snap model e named h)
]

in_group_empty :
    (g : GroupState) (model_ids provider_keys : List String) (model : String)
    → is_empty model_ids ≡ true
    → is_empty provider_keys ≡ true
    → in_group g model_ids provider_keys model ≡ false
unfolding in_group has_key_of
in_group_empty g [] [] model a b = ground arith
in_group_empty g (m ∷ model_ids) provider_keys model a b = absurd (ground (arith, a))
in_group_empty g [] (k ∷ provider_keys) model a b = absurd (ground (arith, b))

-- The requests of a day, of some users and of the models that a test picks, in the buffer and in the
-- daily table.
abbrev pub counted : ℕ → List ℕ → (String → Bool) → RequestTracker → DailyTable → ℕ
counted today ids test t table =
    buffered_count (in_day today ids test) t + db_count (in_day today ids test) (some table)

counted-never :
    (today : ℕ) (ids : List ℕ) (test : String → Bool) (t : RequestTracker) (table : DailyTable)
    → ((k : DayKey) → in_day today ids test k ≡ false)
    → counted today ids test t table ≡ 0
counted-never today ids test t table h = omega (
  arith,
  total-never same_count (λ k. in_day today ids test (day_key k)) t.usage_buffer
      (λ k. h (day_key k)),
  total-never rows_count (in_day today ids test) table h,
)

empty_users :
    (today : ℕ) (ids : List ℕ) (test : String → Bool) (k : DayKey)
    → is_empty ids ≡ true
    → in_day today ids test k ≡ false
empty_users today [] test k h = ground arith
empty_users today (id ∷ ids) test k h = absurd (ground (arith, h))

get_today_group_count_of_some :
    (g : GroupState) (today : ℕ) (ids : List ℕ) (model_ids provider_keys : List String)
    (t : RequestTracker) (table : DailyTable)
    → is_empty ids ≡ false
    → (is_empty model_ids && is_empty provider_keys) ≡ false
    → get_today_group_count g today ids model_ids provider_keys t (some table)
      ≡ buffered_count (in_day today ids (in_group g model_ids provider_keys)) t
        + db_count (in_day today ids (sql_in_group g model_ids provider_keys)) (some table)
unfolding get_today_group_count
get_today_group_count_of_some g today ids model_ids provider_keys t table e f =
    rw (e, f, get_today_group_count) refl

-- `get_today_group_count` of a named group and some users is, in the buffer and in the daily table
-- alike, the number of their requests today of the models that the limiter charges to the group: those
-- of a nonempty id that `group_for` gives to it. The snapshot lists just what the maps give to the
-- group, its provider keys are not empty and have no slash, and none of its model ids is empty.
pub get_today_group_count-group_for :
    (g : GroupState) (gid today : ℕ) (ids : List ℕ) (snap : GroupSnapshot) (t : RequestTracker)
    (table : DailyTable)
    → gid ≢ default_group_id
    → IsExact g gid snap
    → IsKeyList snap.provider_keys
    → contains snap.model_ids "" ≡ false
    → get_today_group_count g today ids snap.model_ids snap.provider_keys t (some table)
      ≡ counted today ids (is_charged_to g gid) t table
unfolding get_today_group_count
get_today_group_count-group_for g gid today ids snap t table named h keyed unnamed =
    let charged = is_charged_to g gid in
    let buffered : in_group g snap.model_ids snap.provider_keys ≡ charged =
      fun_ext (λ m. in_group-is_charged_to g gid snap m named h) in
    let stored : sql_in_group g snap.model_ids snap.provider_keys ≡ charged = fun_ext (λ m.
      sql_in_group-in_group g snap.model_ids snap.provider_keys m keyed unnamed
      ∙ in_group-is_charged_to g gid snap m named h) in
    elim (Bool-cases (is_empty ids)) [
      | inl e ↦ ground (
        arith,
        e,
        counted-never today ids charged t table (λ k. empty_users today ids charged k e),
      )
      | inr e ↦ elim (Bool-cases (is_empty snap.model_ids && is_empty snap.provider_keys)) [
        | inl none_there ↦ ground (
          arith,
          none_there,
          counted-never today ids charged t table (λ k. ground (
            arith,
            none_there,
            in_group_empty g snap.model_ids snap.provider_keys k.model,
            in_group-is_charged_to g gid snap k.model named h,
          )),
        )
        | inr some_there ↦
            get_today_group_count_of_some g today ids snap.model_ids snap.provider_keys t table e
              some_there
            ∙ ap₂
                (λ p q.
                  buffered_count (in_day today ids p) t
                  + db_count (in_day today ids q) (some table))
                buffered stored
      ]
    ]
