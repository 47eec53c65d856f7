-- ===== src/Runtime/AckTracker/Metrics.antt =====
-- The gauges of `Metrics` and the pending messages (ack_tracker.go).
use vibe_deck.Prelude.{
  ℕ, ◌+◌, [], ◌∷◌, String, ◌≡◌, refl, arith, str_eq, eq_iff, if◌then◌else◌, length,
}
use vibe_deck.GoMap.{GoMap, lookup, insert, lookup-insert}
use vibe_deck.Runtime.AckTracker.State.{TrackedAck, AckTracker, normalize_transport}
use vibe_deck.Runtime.AckTracker.Table.{
  or_zero, increment, default_pending_by_transport, count_transports, metrics,
}

-- The sum of all counters.
abbrev pub total : GoMap ℕ → ℕ
total [] = 0
total ((k, n) ∷ m) = n + total m

-- How many pending messages have the transport.
abbrev pub carried : String → GoMap TrackedAck → ℕ
carried transport [] = 0
carried transport ((rid, tracked) ∷ rest) =
    (if str_eq (normalize_transport tracked.pending.transport) transport then 1 else 0)
    + carried transport rest

total-insert :
    (k : String) (v : ℕ) (m : GoMap ℕ) → total (insert k v m) + or_zero (lookup k m) ≡ total m + v
unfolding insert lookup
total-insert k v [] = omega arith
total-insert k v ((j, n) ∷ m) = ground (arith, total-insert k v m)

total-increment : (k : String) (m : GoMap ℕ) → total (increment k m) ≡ total m + 1
unfolding increment
total-increment k m = omega (arith, total-insert k (or_zero (lookup k m) + 1) m)

total-count_transports :
    (es : GoMap TrackedAck) (m : GoMap ℕ) → total (count_transports es m) ≡ total m + length es
unfolding count_transports
total-count_transports [] m = omega arith
total-count_transports ((rid, tracked) ∷ rest) m =
    let k = normalize_transport tracked.pending.transport in
    omega (arith, total-increment k m, total-count_transports rest (increment k m))

lookup-increment :
    (k j : String) (m : GoMap ℕ)
    → or_zero (lookup j (increment k m)) ≡ (if str_eq k j then 1 else 0) + or_zero (lookup j m)
unfolding increment
lookup-increment k j m = ground (arith, lookup-insert k j (or_zero (lookup k m) + 1) m, eq_iff k j)

lookup-count_transports :
    (j : String) (es : GoMap TrackedAck) (m : GoMap ℕ)
    → or_zero (lookup j (count_transports es m)) ≡ carried j es + or_zero (lookup j m)
unfolding count_transports
lookup-count_transports j [] m = omega arith
lookup-count_transports j ((rid, tracked) ∷ rest) m =
    let k = normalize_transport tracked.pending.transport in
    omega (arith, lookup-increment k j m, lookup-count_transports j rest (increment k m))

lookup-default : (j : String) → or_zero (lookup j default_pending_by_transport) ≡ 0
unfolding lookup default_pending_by_transport
lookup-default j = ground arith

total-default : total default_pending_by_transport ≡ 0
unfolding default_pending_by_transport
total-default = refl

-- The counter of every transport is the number of pending messages that it carries, and the
-- counters add up to the number of pending messages.
metrics_count :
    (t : AckTracker)
    → ((transport : String)
        → or_zero (lookup transport (metrics t).pending_by_transport) ≡ carried transport t.pending)
      × (total (metrics t).pending_by_transport ≡ length t.pending)
unfolding metrics
metrics_count t = (
  (λ transport. omega (
    arith,
    lookup-count_transports transport t.pending default_pending_by_transport,
    lookup-default transport,
  )),
  omega (arith, total-count_transports t.pending default_pending_by_transport, total-default),
)
