-- ===== src/Lib.antt =====
-- A proxy for language model services: its quotas, and who may spend them.
--
-- Requests come through the routes of app/routes. A request takes a concurrency slot, is charged
-- against limits per minute and per day, and is then sent to a provider. Limits are those of the
-- user's profile. Users can share a pool: its daily limit is the sum of its members' limits, and a
-- settlement before each change of its composition charges the members for what the pool consumed.
--
-- - Prelude, in Prelude/: Python's integers, strings, lists and dictionaries over the native
--   numbers, with their lemmas. A `dict` is an association list in insertion order.
-- - Byok: the part of app/byok.py on keys, owners and callers. A key such as
--   `openai:byok-8-mine` is a string, split at its first `/` and `:` as in the source.
-- - Profiles: `ProfileSnapshot` and `ProfileRegistry` of app/profiles.py.
-- - Limits/Groups: model groups in `RateLimitTracker` of app/rate_limit.py: `group_for`,
--   `settlement_scopes`, `scope_for_model`, `member_limit_for_scope`, `invalidate_group`.
-- - Limits/Slots: `try_acquire_slot` and `release_slot`, and the slot holders of
--   app/concurrency_slots.py. Calls take their steps in any order; `Reach` is the states they reach.
-- - Limits/Cache: `_read_rpd_cached`. A load that fails is `none`. A request that misses while
--   another loads is a waiter of `read_burst`.
-- - Limits/Tracker, Limits/Decision, Limits/Checks, Limits/GroupChecks: `_rpd_scope`,
--   `_pooled_rpd_limit`, `member_share_cap`, `_get_today_count`, `_get_today_group_count`,
--   `check_and_increment` and `check_group_limit` of app/rate_limit.py. A check gives its decision
--   with the tracker afterwards. The time, the local day and the answers of the usage queries are
--   fields of `World`, which stays the same during one check. Limits/Status has the reads that
--   count nothing: `get_user_status`, `pooled_rpd_limits` and their like.
-- - Limits/Upkeep: `_evict_stale_buckets` and the invalidations of app/rate_limit.py. Limits/Load:
--   `_load_config_locked`, from the rows that its queries read.
-- - Access: the access section of `ModelCache` in app/cache.py, and `caller_may_use` of
--   app/model_access_dep.py.
-- - Outages: `OutageRegistry` of app/outages.py.
-- - Aliases: app/model_alias.py, its rules in Aliases/Rules. `resolve_alias` is
--   `ModelAliasResolver.resolve`; `AliasContext` has the context variables of a request, which
--   `apply_alias` gives back with its answer. Aliases/Load is `load_from_database`.
-- - Resolve: Resolve/Index has the bare-name index of `ModelCache` in app/cache.py; Resolve/Rotation is
--   `_RoundRobin` of app/model_resolution.py, Resolve/Evaluate its `_evaluate` with what that calls, and
--   Resolve/Names its `map_model_name` and `resolve_model_for_request`. A provider, which is a class for
--   each vendor in app/providers, is here the answers of its `supports_api_for_model`.
-- - Enforce: `enforce_access_and_limits` of app/rate_limit_dep.py, over access, outages, slots and rate
--   checks. `Service` is all the state that a request meets; an `Outcome` is what it is told.
-- - Locks: `TaskReentrantLock` of app/concurrency.py as steps of tasks, with the queue of its
--   `asyncio.Lock`, and the pool locks.
-- - Pools/Apportion: `apportion` of app/auth/pools.py. Its loop runs on fuel, one round for each
--   member; each round that does not end the loop pins at least one member, so this is enough.
-- - Pools/Settle: `settle_pool` of app/auth/pools.py. The tables are association lists in
--   `Database`; a settlement gives the tables afterwards.
-- - Pools/Join: `admit_member` and `clear_member_settlement` of app/auth/pools.py, as
--   `accept_invite` and `_remove_member` of app/routes/pools.py call them.
-- - Tracking: `RequestTracker` of app/request_tracker.py. Tracking/Buffer has the requests in flight and
--   the buffer of counts; Tracking/Flush the rows of a flush and `flush_usage_rows` of
--   app/auth/database.py; Tracking/Runs the steps of a flush with what happens between them, as a
--   relation on the tracker, the usage tables and the history of what was counted; Tracking/Retention
--   `prune_hourly_usage` and `rollup_to_monthly` of app/auth/database.py, over a calendar that is a
--   parameter; Tracking/Today `get_today_count` and `get_today_group_count`, and Tracking/Sql the text
--   functions of SQLite that their queries use.
-- - Conversion: app/conversion/anthropic_helpers.py and app/conversion/anthropic_openai.py. Conversion/Ids
--   has the tool ids and `ToolNameMap`, with base64 and SHA-256 as parameters; Conversion/Splitter
--   `ThinkTagSplitter`, whose loop runs on the length of its buffer and one more: each round but the last
--   takes a tag off the buffer; Conversion/Stream the converter of OpenAI chunks to Anthropic events, and
--   Conversion/Stream/Protocol the order that Anthropic asks of the events. A chunk is a record of what
--   the code reads of the JSON.
--
-- Settlement reads limits and scopes from the same definitions as the rate checks: Limits/Groups and
-- Profiles. Witnesses and runs stand in the modules named Tests and in Limits/GroupTests.
--
-- Integers are unbounded, as Python's; a limit or a count that cannot be negative is a native number.
-- Times are whole milliseconds.
--
-- Not modelled: the SQL queries other than those of the usage rows, whose results are values here; the
-- locks, which are the atomicity of the operations except in Locks; logging and the subscribers of the
-- request tracker; the purge of pool rows from earlier days; the conversion of whole requests and
-- responses; the web handlers, the providers and the web search.
pub mod Prelude
pub mod Byok
pub mod Profiles
pub mod Limits
pub mod Access
pub mod Outages
pub mod Pools
pub mod Enforce
pub mod Locks
pub mod Aliases
pub mod Resolve
pub mod Tracking
pub mod Conversion
