-- ===== src/Agent/ControlMetrics/Bounds.antt =====
-- What the statistics of the counters satisfy (control_metrics.go).
use native.Mathlib.Nat.{mul-le-mul_left, div-le_of_le-mul}
use vibe_deck.Prelude.{
  ℕ, ◌+◌, ◌*◌, ◌≤◌, pos_part, Bool, true, false, List, [], ◌∷◌, String, ◌≡◌, refl, arith,
}
use vibe_deck.GoMap.{lookup}
use vibe_deck.Agent.ControlMetrics.{
  ControlMetricAccumulator, ControlMetrics, ControlMetricStats, Observed, no_error,
  deadline_exceeded, other_error, zero_accumulator, new_control_metrics, normalize_control_path,
  normalize_control_message_type, count_error, taken, observe_accumulator, observe,
  snapshot_accumulator, duration_millis,
}
use mathlib.Core.Path.{subst}
use vibe_deck.Prelude.{some, sym}
use vibe_deck.Agent.ControlMetrics.{snapshot}
use vibe_deck.Agent.ControlMetrics.Snapshots.{stats_at, observe_all-AreMaps, snapshot-shows}
use vibe_deck.Agent.ControlMetrics.Counts.{
  Observation, observe_all, observed_if, is_success, is_timeout, is_failure, count_error-fields,
  at_key, at_type_path, at_key-observe_at, at_type_path-observe,
}

-- The sum of latencies is at most the greatest one for each request, and the outcomes add up.
pub record IsBounded (a : ControlMetricAccumulator) : Type 0 where
  pub outcomes : a.requests ≡ a.successes + a.timeouts + a.failures
  pub latency : a.total_latency ≤ a.requests * a.max_latency
  pub last : a.last_latency ≤ a.max_latency

one_outcome : (e : Observed) → is_success e + is_timeout e + is_failure e ≡ 1
one_outcome no_error = refl
one_outcome deadline_exceeded = refl
one_outcome other_error = refl

count_error-latencies :
    (e : Observed) (a : ControlMetricAccumulator)
    → ((count_error e a).last_latency ≡ a.last_latency)
      × ((count_error e a).max_latency ≡ a.max_latency)
count_error-latencies no_error a = (refl, refl)
count_error-latencies deadline_exceeded a = (refl, refl)
count_error-latencies other_error a = (refl, refl)

grow : (t r m d n : ℕ) → t ≤ r * m → m ≤ n → d ≤ n → t + d ≤ (r + 1) * n
grow t r m d n h k l = omega (arith, mul-le-mul_left r k, h, l)

taken-latency :
    (d : ℕ) (a : ControlMetricAccumulator)
    → a.total_latency ≤ a.requests * a.max_latency
    → (taken d a).total_latency ≤ (taken d a).requests * (taken d a).max_latency
taken-latency d a h =
    grow a.total_latency a.requests a.max_latency d _ h (ground arith) (ground arith)

pub observe_accumulator-IsBounded :
    (d : ℕ) (e : Observed) (a : ControlMetricAccumulator)
    → IsBounded a
    → IsBounded (observe_accumulator d e a)
unfolding observe_accumulator
observe_accumulator-IsBounded d e a w =
    let (r, s, t, f, l) = count_error-fields e (taken d a) in
    let (last, max) = count_error-latencies e (taken d a) in
    record {
      outcomes = omega (arith, r, s, t, f, one_outcome e, w.outcomes);
      latency = rw (l, r, max) (taken-latency d a w.latency);
      last = rw (last, max) (ground arith);
    }

snapshot_accumulator-average :
    (a : ControlMetricAccumulator)
    → IsBounded a
    → (snapshot_accumulator a).avg_latency_ms ≤ (snapshot_accumulator a).max_latency_ms
unfolding snapshot_accumulator duration_millis
snapshot_accumulator-average a w =
    let k = div-le_of_le-mul a.requests w.latency in ground (arith, k)

observed_if-IsBounded :
    (c : Bool) (o : Observation) (a : ControlMetricAccumulator)
    → IsBounded a
    → IsBounded (observed_if c o a)
observed_if-IsBounded true o a w = observe_accumulator-IsBounded (pos_part o.duration) o.error a w
observed_if-IsBounded false o a w = w

pub record AllBounded (m : ControlMetrics) : Type 0 where
  pub totals : IsBounded m.totals
  pub paths : (path : String) → IsBounded (at_key path m.by_path)
  pub types : (label : String) → IsBounded (at_key label m.by_type)
  pub types_paths : (label path : String) → IsBounded (at_type_path label path m.by_type_path)

AllBounded-observe_all :
    (os : List Observation) (m : ControlMetrics) → AllBounded m → AllBounded (observe_all os m)
unfolding observe_all observe
AllBounded-observe_all [] m w = w
AllBounded-observe_all (o ∷ os) m w =
    AllBounded-observe_all os (observe o.message_type o.path o.duration o.error m) (record {
      totals = observe_accumulator-IsBounded _ o.error m.totals w.totals;
      paths = λ path.
          rw (at_key-observe_at path (normalize_control_path o.path) o m.by_path)
            (observed_if-IsBounded _ o _ (w.paths path));
      types = λ label.
          rw (at_key-observe_at label (normalize_control_message_type o.message_type) o m.by_type)
            (observed_if-IsBounded _ o _ (w.types label));
      types_paths = λ label path.
          rw
            (at_type_path-observe label path (normalize_control_message_type o.message_type)
              (normalize_control_path o.path) o m.by_type_path)
            (observed_if-IsBounded _ o _ (w.types_paths label path));
    })

zero-IsBounded : IsBounded zero_accumulator
zero-IsBounded = record { outcomes = refl; latency = omega arith; last = omega arith }

new-at_key : (path : String) → at_key path new_control_metrics.by_path ≡ zero_accumulator
unfolding new_control_metrics lookup
new-at_key path = ground arith

abbrev pub IsStats : ControlMetricStats → Type 0
IsStats s =
    (s.requests ≡ s.successes + s.timeouts + s.failures)
    × (s.avg_latency_ms ≤ s.max_latency_ms)
    × (s.last_latency_ms ≤ s.max_latency_ms)

IsStats-snapshot_accumulator :
    (a : ControlMetricAccumulator) → IsBounded a → IsStats (snapshot_accumulator a)
unfolding snapshot_accumulator duration_millis
IsStats-snapshot_accumulator a w =
    (w.outcomes, snapshot_accumulator-average a w, omega (arith, w.last))

-- After any observations a snapshot has, in the totals and for each path and each type: the requests
-- are the successes, timeouts and failures together, and neither the average nor the last latency
-- exceeds the greatest one.
pub observe_all-IsStats :
    (os : List Observation)
    → let s = snapshot (some (observe_all os new_control_metrics)) in
      IsStats s.totals
      × ((path : String) → IsStats (stats_at path s.by_path))
      × ((label : String) → IsStats (stats_at label s.by_type))
unfolding new_control_metrics lookup snapshot
observe_all-IsStats os =
    let m = observe_all os new_control_metrics in
    let maps =
      observe_all-AreMaps os new_control_metrics
        (record { paths = (refl, (refl, (refl, tt))); types = tt }) in
    let w = AllBounded-observe_all os new_control_metrics (record {
      totals = zero-IsBounded;
      paths = λ path. rw (new-at_key path) zero-IsBounded;
      types = λ label. zero-IsBounded;
      types_paths = λ label path. zero-IsBounded;
    }) in
    (
      IsStats-snapshot_accumulator _ w.totals,
      λ path.
          subst IsStats (sym (snapshot-shows m path "" maps).0)
            (IsStats-snapshot_accumulator _ (w.paths path)),
      λ label.
          subst IsStats (sym (snapshot-shows m "" label maps).1)
            (IsStats-snapshot_accumulator _ (w.types label)),
    )
