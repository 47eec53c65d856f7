-- ===== src/Agent/ControlMetrics.antt =====
-- internal/agent/control_metrics.go: the counters of the control path.
-- Durations are in nanoseconds; the counters and the sum of latencies stay below 2 ^ 63 here. A nil
-- receiver is `none`. The mutex makes each call one step.
pub mod Counts
pub mod Snapshots
pub mod Bounds
use vibe_deck.Prelude.{
  ℕ, ◌+◌, ◌/◌, ◌==◌, ℤ, pos_part, Option, none, some, List, [], ◌∷◌, String, ltb, str_eq,
  if◌then◌else◌, map,
}
use vibe_deck.GoMap.{GoMap, lookup, insert}
use vibe_deck.Text.{trim_space, to_lower}
use vibe_deck.Protocol.Models.{MessageType, type_name}

abbrev pub control_path_unknown : String
control_path_unknown = "unknown"

abbrev pub control_path_http : String
control_path_http = "http"

abbrev pub control_path_p2p : String
control_path_p2p = "p2p"

pub record ControlMetricStats : Type 0 where
  pub requests : ℕ
  pub successes : ℕ
  pub failures : ℕ
  pub timeouts : ℕ
  pub last_latency_ms : ℕ
  pub avg_latency_ms : ℕ
  pub max_latency_ms : ℕ

pub record ControlMetricsSnapshot : Type 0 where
  pub totals : ControlMetricStats
  pub by_path : GoMap ControlMetricStats
  pub by_type : GoMap ControlMetricStats
  pub by_type_path : GoMap (GoMap ControlMetricStats)

pub record ControlMetricAccumulator : Type 0 where
  pub requests : ℕ
  pub successes : ℕ
  pub failures : ℕ
  pub timeouts : ℕ
  pub total_latency : ℕ
  pub last_latency : ℕ
  pub max_latency : ℕ

pub record ControlMetrics : Type 0 where
  pub totals : ControlMetricAccumulator
  pub by_path : GoMap ControlMetricAccumulator
  pub by_type : GoMap ControlMetricAccumulator
  pub by_type_path : GoMap (GoMap ControlMetricAccumulator)

-- The error that `Observe` gets, by `errors.Is(err, context.DeadlineExceeded)`.
pub data Observed : Type 0 where
  no_error deadline_exceeded other_error : Observed

abbrev pub zero_accumulator : ControlMetricAccumulator
zero_accumulator = record {
  requests = 0;
  successes = 0;
  failures = 0;
  timeouts = 0;
  total_latency = 0;
  last_latency = 0;
  max_latency = 0;
}

abbrev pub zero_stats : ControlMetricStats
zero_stats = record {
  requests = 0;
  successes = 0;
  failures = 0;
  timeouts = 0;
  last_latency_ms = 0;
  avg_latency_ms = 0;
  max_latency_ms = 0;
}

abbrev pub for_paths : {V : Type 0} → V → GoMap V
for_paths v = (control_path_unknown, v) ∷ (control_path_http, v) ∷ (control_path_p2p, v) ∷ []

unfoldable pub new_control_metrics : ControlMetrics
new_control_metrics = record {
  totals = zero_accumulator;
  by_path = for_paths zero_accumulator;
  by_type = [];
  by_type_path = [];
}

unfoldable pub empty_control_metrics_snapshot : ControlMetricsSnapshot
empty_control_metrics_snapshot = record {
  totals = zero_stats;
  by_path = for_paths zero_stats;
  by_type = [];
  by_type_path = [];
}

unfoldable pub normalize_control_path : String → String
normalize_control_path path =
    let p = to_lower (trim_space path) in
    if str_eq p control_path_http
    then control_path_http
    else if str_eq p control_path_p2p
    then control_path_p2p
    else control_path_unknown

unfoldable pub normalize_control_message_type : MessageType → String
normalize_control_message_type message_type =
    let value = trim_space (type_name message_type) in if str_eq value "" then "UNKNOWN" else value

-- The `switch` on the error.
abbrev pub count_error : Observed → ControlMetricAccumulator → ControlMetricAccumulator
count_error no_error a = record a { successes = a.successes + 1 }
count_error deadline_exceeded a = record a { timeouts = a.timeouts + 1 }
count_error other_error a = record a { failures = a.failures + 1 }

abbrev pub taken : ℕ → ControlMetricAccumulator → ControlMetricAccumulator
taken duration a = record a {
  requests = a.requests + 1;
  total_latency = a.total_latency + duration;
  last_latency = duration;
  max_latency = if ltb a.max_latency duration then duration else a.max_latency;
}

unfoldable pub observe_accumulator :
    ℕ → Observed → ControlMetricAccumulator → ControlMetricAccumulator
observe_accumulator duration error a = count_error error (taken duration a)

-- `pathAccumulator` and `typeAccumulator`: what is there, or a new one. The pointer that they return
-- is written through: the caller puts the changed value back.
abbrev pub accumulator_or_new : Option ControlMetricAccumulator → ControlMetricAccumulator
accumulator_or_new none = zero_accumulator
accumulator_or_new (some a) = a

abbrev pub paths_or_new : Option (GoMap ControlMetricAccumulator) → GoMap ControlMetricAccumulator
paths_or_new none = []
paths_or_new (some by_path) = by_path

unfoldable pub observe_at :
    ℕ → Observed → String → GoMap ControlMetricAccumulator → GoMap ControlMetricAccumulator
observe_at duration error key m =
    insert key (observe_accumulator duration error (accumulator_or_new (lookup key m))) m

-- `typePathAccumulator`
unfoldable pub observe_type_path :
    ℕ
    → Observed
    → String
    → String
    → GoMap (GoMap ControlMetricAccumulator)
    → GoMap (GoMap ControlMetricAccumulator)
observe_type_path duration error message_type path m =
    insert message_type (observe_at duration error path (paths_or_new (lookup message_type m))) m

-- A negative duration counts as 0.
unfoldable pub observe : MessageType → String → ℤ → Observed → ControlMetrics → ControlMetrics
observe message_type path duration error m =
    let p = normalize_control_path path in
    let label = normalize_control_message_type message_type in
    let d = pos_part duration in
    record {
      totals = observe_accumulator d error m.totals;
      by_path = observe_at d error p m.by_path;
      by_type = observe_at d error label m.by_type;
      by_type_path = observe_type_path d error label p m.by_type_path;
    }

-- `durationMillis`, and the average of `snapshotAccumulator`.
unfoldable pub duration_millis : ℕ → ℕ
duration_millis value = value / 1000000

unfoldable pub snapshot_accumulator : ControlMetricAccumulator → ControlMetricStats
snapshot_accumulator a = record {
  requests = a.requests;
  successes = a.successes;
  failures = a.failures;
  timeouts = a.timeouts;
  last_latency_ms = duration_millis a.last_latency;
  avg_latency_ms = if a.requests == 0 then 0 else duration_millis (a.total_latency / a.requests);
  max_latency_ms = duration_millis a.max_latency;
}

-- The loops over the maps, each into the map that stands at the end.
unfoldable pub snapshot_into :
    GoMap ControlMetricAccumulator → GoMap ControlMetricStats → GoMap ControlMetricStats
snapshot_into [] out = out
snapshot_into ((key, a) ∷ rest) out = snapshot_into rest (insert key (snapshot_accumulator a) out)

unfoldable pub snapshot_types :
    GoMap (GoMap ControlMetricAccumulator)
    → GoMap (GoMap ControlMetricStats)
    → GoMap (GoMap ControlMetricStats)
snapshot_types [] out = out
snapshot_types ((key, by_path) ∷ rest) out =
    snapshot_types rest (insert key (snapshot_into by_path []) out)

unfoldable pub snapshot : Option ControlMetrics → ControlMetricsSnapshot
snapshot none = empty_control_metrics_snapshot
snapshot (some m) = record {
  totals = snapshot_accumulator m.totals;
  by_path = snapshot_into m.by_path empty_control_metrics_snapshot.by_path;
  by_type = snapshot_into m.by_type empty_control_metrics_snapshot.by_type;
  by_type_path = snapshot_types m.by_type_path empty_control_metrics_snapshot.by_type_path;
}
