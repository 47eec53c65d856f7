-- ===== src/Agent/ControlMetrics/Counts.antt =====
-- What the counters count (control_metrics.go).
use mathlib.Core.Path.{subst}
use vibe_deck.Prelude.{
  ℕ, ◌+◌, ℤ, pos_part, Bool, true, false, ◌&&◌, List, [], ◌∷◌, String, str_eq, if◌then◌else◌, ◌≡◌,
  refl, arith, eq_iff, inl, inr, Bool-cases,
}
use vibe_deck.GoMap.{GoMap, lookup, lookup-insert}
use vibe_deck.Protocol.Models.{MessageType}
use vibe_deck.Agent.ControlMetrics.{
  ControlMetricAccumulator, ControlMetrics, Observed, no_error, deadline_exceeded, other_error,
  normalize_control_path, normalize_control_message_type, count_error, observe_accumulator,
  accumulator_or_new, paths_or_new, observe_at, observe_type_path, observe,
}

-- The arguments of a call of `Observe`.
pub record Observation : Type 0 where
  pub message_type : MessageType
  pub path : String
  pub duration : ℤ
  pub error : Observed

unfoldable pub observe_all : List Observation → ControlMetrics → ControlMetrics
observe_all [] m = m
observe_all (o ∷ rest) m = observe_all rest (observe o.message_type o.path o.duration o.error m)

abbrev pub path_is : String → Observation → Bool
path_is path o = str_eq (normalize_control_path o.path) path

abbrev pub type_is : String → Observation → Bool
type_is label o = str_eq (normalize_control_message_type o.message_type) label

abbrev pub every : Observation → Bool
every o = true

-- A sum over the observations that pass a test.
abbrev pub sum_of : (Observation → Bool) → (Observation → ℕ) → List Observation → ℕ
sum_of test f [] = 0
sum_of test f (o ∷ rest) = (if test o then f o else 0) + sum_of test f rest

abbrev pub is_success : Observed → ℕ
is_success no_error = 1
is_success _ = 0

abbrev pub is_timeout : Observed → ℕ
is_timeout deadline_exceeded = 1
is_timeout _ = 0

abbrev pub is_failure : Observed → ℕ
is_failure other_error = 1
is_failure _ = 0

-- `b` has counted, on top of `a`, the observations that pass the test.
pub record Counted (test : Observation → Bool) (os : List Observation)
    (a b : ControlMetricAccumulator) : Type 0 where
  pub requests : b.requests ≡ a.requests + sum_of test (λ o. 1) os
  pub successes : b.successes ≡ a.successes + sum_of test (λ o. is_success o.error) os
  pub timeouts : b.timeouts ≡ a.timeouts + sum_of test (λ o. is_timeout o.error) os
  pub failures : b.failures ≡ a.failures + sum_of test (λ o. is_failure o.error) os
  pub latency : b.total_latency ≡ a.total_latency + sum_of test (λ o. pos_part o.duration) os

abbrev pub observed_if : Bool → Observation → ControlMetricAccumulator → ControlMetricAccumulator
observed_if true o a = observe_accumulator (pos_part o.duration) o.error a
observed_if false o a = a

pub count_error-fields :
    (e : Observed) (a : ControlMetricAccumulator)
    → ((count_error e a).requests ≡ a.requests)
      × ((count_error e a).successes ≡ a.successes + is_success e)
      × ((count_error e a).timeouts ≡ a.timeouts + is_timeout e)
      × ((count_error e a).failures ≡ a.failures + is_failure e)
      × ((count_error e a).total_latency ≡ a.total_latency)
count_error-fields no_error a = (refl, refl, omega arith, omega arith, refl)
count_error-fields deadline_exceeded a = (refl, omega arith, refl, omega arith, refl)
count_error-fields other_error a = (refl, omega arith, omega arith, refl, refl)

abbrev pub at_key : String → GoMap ControlMetricAccumulator → ControlMetricAccumulator
at_key key m = accumulator_or_new (lookup key m)

abbrev pub at_type_path :
    String → String → GoMap (GoMap ControlMetricAccumulator) → ControlMetricAccumulator
at_type_path label path m = at_key path (paths_or_new (lookup label m))

pub at_key-observe_at :
    (key k : String) (o : Observation) (m : GoMap ControlMetricAccumulator)
    → at_key key (observe_at (pos_part o.duration) o.error k m)
      ≡ observed_if (str_eq k key) o (at_key key m)
unfolding observe_at
at_key-observe_at key k o m = ground (
  arith,
  eq_iff k key,
  lookup-insert k key
      (observe_accumulator (pos_part o.duration) o.error (accumulator_or_new (lookup k m))) m,
)

pub at_type_path-observe :
    (label path l p : String) (o : Observation) (m : GoMap (GoMap ControlMetricAccumulator))
    → at_type_path label path (observe_type_path (pos_part o.duration) o.error l p m)
      ≡ observed_if (str_eq l label && str_eq p path) o (at_type_path label path m)
unfolding observe_type_path
at_type_path-observe label path l p o m = elim (Bool-cases (str_eq l label)) [
  | inl e ↦
      rw
        (
          lookup-insert l label
              (observe_at (pos_part o.duration) o.error p (paths_or_new (lookup l m))) m,
          e,
        )
        (subst
          (λ (k : String).
            at_key path (observe_at (pos_part o.duration) o.error p (paths_or_new (lookup l m)))
            ≡ observed_if (str_eq p path) o (at_type_path k path m))
          ((eq_iff l label).0 e) (at_key-observe_at path p o (paths_or_new (lookup l m))))
  | inr e ↦
      rw
        (
          lookup-insert l label
              (observe_at (pos_part o.duration) o.error p (paths_or_new (lookup l m))) m,
          e,
        )
        refl
]

-- What every counter of `m'` has counted on top of `m`.
pub record AllCounted (os : List Observation) (m m' : ControlMetrics) : Type 0 where
  pub totals : Counted every os m.totals m'.totals
  pub paths :
      (path : String) → Counted (path_is path) os (at_key path m.by_path) (at_key path m'.by_path)
  pub types :
      (label : String)
      → Counted (type_is label) os (at_key label m.by_type) (at_key label m'.by_type)
  pub types_paths :
      (label path : String)
      → Counted
          (λ o. type_is label o && path_is path o)
          os
          (at_type_path label path m.by_type_path)
          (at_type_path label path m'.by_type_path)
