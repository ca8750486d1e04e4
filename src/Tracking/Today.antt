-- ===== src/Tracking/Today.antt =====
-- The readers of today's counts in app/request_tracker.py: `get_today_count` of the Default group and
-- `get_today_group_count` of a named one, each over the buffer and the daily table.
pub mod Groups
pub mod Charged
pub mod Counts
use llm_proxy_server.Prelude.{
  ℕ, ◌+◌, Bool, true, false, not, ◌&&◌, ◌||◌, Option, none, some, List, [], ◌∷◌, String, Dict, any,
  contains, filter, is_empty, keys, nat_eq, str_eq, if◌then◌else◌, tally, ℕ-Keyed, String-Keyed,
}
use llm_proxy_server.Byok.{provider_key_of, is_byok_model}
use llm_proxy_server.Limits.Groups.{GroupState}
use llm_proxy_server.Tracking.Keys.{DayKey, day_key, UsageKey-Keyed}
use llm_proxy_server.Tracking.Buffer.{RequestTracker}
use llm_proxy_server.Tracking.Flush.{DailyTable, sum_rows}
use llm_proxy_server.Tracking.Sql.{instance_match, byok_match}

-- `RateLimitTracker.grouped_keys`
abbrev pub grouped_keys : GroupState → List String × List String
grouped_keys g = (keys g.model_to_group, keys g.provider_to_group)

-- `provider_key_of(model) in keys`
unfoldable pub has_key_of : List String → String → Bool
unfolding provider_key_of
has_key_of ks model = elim (provider_key_of (some model)) [ none ↦ false | some k ↦ contains ks k ]

unfoldable pub is_grouped : GroupState → String → Bool
unfolding is_byok_model has_key_of
is_grouped g model =
    if str_eq model ""
    then false
    else if is_byok_model (some model)
    then true
    else contains (grouped_keys g).0 model || has_key_of (grouped_keys g).1 model

-- The conditions on a row's model that the query excludes.
unfoldable pub sql_grouped : GroupState → String → Bool
unfolding instance_match byok_match
sql_grouped g model =
    contains (grouped_keys g).0 model
    || any (instance_match model) (grouped_keys g).1
    || byok_match model

-- A row of today and of one of the users whose model passes a test.
abbrev pub in_day : ℕ → List ℕ → (String → Bool) → DayKey → Bool
in_day today ids test k = nat_eq k.date today && contains ids k.user_id && test k.model

-- The sum over the rows of the daily table; a failed read counts as 0.
abbrev pub db_count : (DayKey → Bool) → Option DailyTable → ℕ
db_count test none = 0
db_count test (some table) = sum_rows test table

abbrev pub buffered_count : (DayKey → Bool) → RequestTracker → ℕ
buffered_count test t = tally (λ k. test (day_key k)) t.usage_buffer

unfoldable pub get_today_count : GroupState → ℕ → List ℕ → RequestTracker → Option DailyTable → ℕ
unfolding is_grouped sql_grouped
get_today_count g today ids t db =
    if is_empty ids
    then 0
    else buffered_count (in_day today ids (λ m. not (is_grouped g m))) t
      + db_count (in_day today ids (λ m. not (sql_grouped g m))) db

-- The explicit members of other groups.
abbrev pub carved_out : GroupState → List String → List String
carved_out g model_ids = filter (λ m. not (contains model_ids m)) (grouped_keys g).0

unfoldable pub in_group : GroupState → List String → List String → String → Bool
unfolding has_key_of
in_group g model_ids provider_keys model =
    if str_eq model ""
    then false
    else if contains model_ids model
    then true
    else has_key_of provider_keys model && not (contains (carved_out g model_ids) model)

unfoldable pub sql_in_group : GroupState → List String → List String → String → Bool
unfolding instance_match
sql_in_group g model_ids provider_keys model =
    contains model_ids model
    || any (instance_match model) provider_keys && not (contains (carved_out g model_ids) model)

unfoldable pub get_today_group_count :
    GroupState → ℕ → List ℕ → List String → List String → RequestTracker → Option DailyTable → ℕ
unfolding in_group sql_in_group
get_today_group_count g today ids model_ids provider_keys t db =
    if is_empty model_ids && is_empty provider_keys || is_empty ids
    then 0
    else buffered_count (in_day today ids (in_group g model_ids provider_keys)) t
      + db_count (in_day today ids (sql_in_group g model_ids provider_keys)) db
