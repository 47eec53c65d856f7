-- ===== src/Agent/ControlMetrics/Snapshots.antt =====
-- What a snapshot shows for each path and each type (control_metrics.go).
use vibe_deck.Prelude.{
  Option, none, some, List, [], ◌∷◌, String, str_eq, ◌≡◌, refl, sym, ◌∙◌, ap, arith, eq_iff, inl,
  inr, Bool-cases,
}
use mathlib.Core.Path.{subst}
use vibe_deck.GoMap.{GoMap, lookup, insert, lookup-insert, IsMap, insert-IsMap}
use vibe_deck.Agent.ControlMetrics.{
  ControlMetricAccumulator, ControlMetrics, ControlMetricStats, zero_accumulator, zero_stats,
  for_paths, observe_at, observe, snapshot_accumulator, snapshot_into, duration_millis, snapshot,
  empty_control_metrics_snapshot, accumulator_or_new,
}
use vibe_deck.Agent.ControlMetrics.Counts.{Observation, observe_all, at_key}

abbrev pub stats_or_zero : Option ControlMetricStats → ControlMetricStats
stats_or_zero none = zero_stats
stats_or_zero (some s) = s

-- The statistics of a key; zeros where there are none.
abbrev pub stats_at : String → GoMap ControlMetricStats → ControlMetricStats
stats_at key m = stats_or_zero (lookup key m)

abbrev shown_or :
    Option ControlMetricAccumulator → Option ControlMetricStats → Option ControlMetricStats
shown_or none old = old
shown_or (some a) old = some (snapshot_accumulator a)

lookup-snapshot_into :
    (key : String) (m : GoMap ControlMetricAccumulator) (out : GoMap ControlMetricStats)
    → IsMap m
    → lookup key (snapshot_into m out) ≡ shown_or (lookup key m) (lookup key out)
unfolding lookup snapshot_into
lookup-snapshot_into key [] out u = refl
lookup-snapshot_into key ((k, a) ∷ rest) out u = elim (Bool-cases (str_eq k key)) [
  | inl e ↦
      let absent : lookup key rest ≡ none =
        subst (λ (j : String). lookup j rest ≡ none) ((eq_iff k key).0 e) u.0 in
      rw e (
        lookup-snapshot_into key rest (insert k (snapshot_accumulator a) out) u.1
        ∙ rw (absent, lookup-insert k key (snapshot_accumulator a) out, e) refl)
  | inr e ↦ rw e (
      lookup-snapshot_into key rest (insert k (snapshot_accumulator a) out) u.1
      ∙ rw (lookup-insert k key (snapshot_accumulator a) out, e) refl)
]

zeros : (key : String) → stats_at key (for_paths zero_stats) ≡ zero_stats
unfolding lookup
zeros key = ground arith

stats_of_none : snapshot_accumulator zero_accumulator ≡ zero_stats
unfolding snapshot_accumulator duration_millis
stats_of_none = refl

shown :
    (found : Option ControlMetricAccumulator) (old : Option ControlMetricStats)
    → stats_or_zero old ≡ zero_stats
    → stats_or_zero (shown_or found old) ≡ snapshot_accumulator (accumulator_or_new found)
shown none old h = h ∙ sym stats_of_none
shown (some a) old h = refl

pub record AreMaps (m : ControlMetrics) : Type 0 where
  pub paths : IsMap m.by_path
  pub types : IsMap m.by_type

pub observe_all-AreMaps :
    (os : List Observation) (m : ControlMetrics) → AreMaps m → AreMaps (observe_all os m)
unfolding observe_all observe observe_at
observe_all-AreMaps [] m w = w
observe_all-AreMaps (o ∷ os) m w =
    observe_all-AreMaps os (observe o.message_type o.path o.duration o.error m) (record {
      paths = insert-IsMap _ _ m.by_path w.paths;
      types = insert-IsMap _ _ m.by_type w.types;
    })

-- The snapshot shows the counters of each path and each type.
pub snapshot-shows :
    (m : ControlMetrics) (path label : String)
    → AreMaps m
    → (stats_at path (snapshot (some m)).by_path ≡ snapshot_accumulator (at_key path m.by_path))
      × (stats_at label (snapshot (some m)).by_type ≡ snapshot_accumulator (at_key label m.by_type))
unfolding snapshot empty_control_metrics_snapshot lookup
snapshot-shows m path label w = (
  ap stats_or_zero (lookup-snapshot_into path m.by_path (for_paths zero_stats) w.paths)
      ∙ shown (lookup path m.by_path) (lookup path (for_paths zero_stats)) (zeros path),
  ap stats_or_zero (lookup-snapshot_into label m.by_type [] w.types)
      ∙ shown (lookup label m.by_type) none refl,
)
