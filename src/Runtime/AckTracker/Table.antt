-- ===== src/Runtime/AckTracker/Table.antt =====
-- ack_tracker.go: registration, acknowledgement, the snapshot and the metrics.
use vibe_deck.Prelude.{
  ℕ, ◌+◌, ◌-◌, ◌/◌, pos, Bool, true, false, Option, none, some, List, [], ◌∷◌, map, String, ltb,
  ◌==◌, str_eq, if◌then◌else◌, length,
}
use vibe_deck.GoMap.{GoMap, lookup, insert, delete}
use vibe_deck.Protocol.Models.{other, type_name}
use vibe_deck.Protocol.Envelope.{Envelope}
use vibe_deck.Runtime.AckTracker.State.{
  transport_unknown, transport_http, transport_p2p, PendingAck, AckMetrics, TrackedAck,
  AckMetricState, AckTracker, normalize_transport, max_retries_for_retry, observe_size,
}

-- The fields that `registerLocked` sets.
abbrev pub stamp : ℕ → TrackedAck → AckTracker → TrackedAck
stamp now entry t =
    let p = entry.pending in
    let stamped : PendingAck = record p {
      registered_at = now;
      last_sent_at = now;
      expires_at = now + t.timeout;
      max_retries = max_retries_for_retry p.retry_enabled t.max_retries;
      transport = normalize_transport p.transport;
    } in
    record entry { pending = stamped }

unfoldable pub register_locked : ℕ → TrackedAck → AckTracker → AckTracker
register_locked now entry t =
    let pending = insert entry.pending.rid (stamp now entry t) t.pending in
    record t { pending = pending; metrics = observe_size (length pending) t.metrics }

-- The zero values of an envelope and of the fields that `registerLocked` sets.
abbrev pub zero_envelope : Envelope
zero_envelope = record {
  sid = "";
  rid = "";
  seq = pos 0;
  ts = pos 0;
  kind = other "";
  payload = "";
}

abbrev pub fresh_pending : String → String → String → String → Bool → ℕ → PendingAck
fresh_pending sid rid message_type transport retry_enabled max_retries = record {
  sid = sid;
  rid = rid;
  message_type = message_type;
  transport = transport;
  registered_at = 0;
  last_sent_at = 0;
  expires_at = 0;
  retry_enabled = retry_enabled;
  retry_count = 0;
  max_retries = max_retries;
}

abbrev pub plain_entry : String → String → String → TrackedAck
plain_entry sid rid message_type = record {
  pending = fresh_pending sid rid message_type transport_unknown false 0;
  envelope = zero_envelope;
}

unfoldable pub register : ℕ → String → String → String → AckTracker → AckTracker
register now sid rid message_type = register_locked now (plain_entry sid rid message_type)

abbrev pub envelope_entry : Envelope → String → Bool → ℕ → TrackedAck
envelope_entry env transport retry_enabled limit = record {
  pending =
      fresh_pending env.sid env.rid (type_name env.kind)
        (if str_eq transport "" then transport_unknown else transport) retry_enabled
        (max_retries_for_retry retry_enabled limit);
  envelope = env;
}

unfoldable pub register_envelope : ℕ → Envelope → String → Bool → AckTracker → AckTracker
register_envelope now env transport retry_enabled t =
    register_locked now (envelope_entry env transport retry_enabled t.max_retries) t

-- `ackedAt.Sub(base)` below zero is set to zero: the subtraction of ℕ.
observe_ack_locked : PendingAck → ℕ → AckMetricState → AckMetricState
observe_ack_locked p acked_at m =
    let base = if p.last_sent_at == 0 then p.registered_at else p.last_sent_at in
    let rtt = acked_at - base in
    record m {
      acked_count = m.acked_count + 1;
      total_ack_rtt = m.total_ack_rtt + rtt;
      last_ack_rtt = rtt;
      max_ack_rtt = if ltb m.max_ack_rtt rtt then rtt else m.max_ack_rtt;
    }

abbrev ack_found : ℕ → String → Option TrackedAck → AckTracker → AckTracker × Bool
ack_found now rid none t = (t, false)
ack_found now rid (some tracked) t = (
  record t {
    pending = delete rid t.pending;
    metrics = observe_ack_locked tracked.pending now t.metrics;
  },
  true,
)

unfoldable pub ack : ℕ → String → AckTracker → AckTracker × Bool
unfolding observe_ack_locked
ack now rid t = ack_found now rid (lookup rid t.pending) t

unfoldable pub pending_count : AckTracker → ℕ
pending_count t = length t.pending

unfoldable pub snapshot : AckTracker → List PendingAck
snapshot t = map (λ e. e.1.pending) t.pending

abbrev pub or_zero : Option ℕ → ℕ
or_zero none = 0
or_zero (some n) = n

-- m[k]++ on a map of counters, where a missing key reads as 0.
unfoldable pub increment : String → GoMap ℕ → GoMap ℕ
increment k m = insert k (or_zero (lookup k m) + 1) m

unfoldable pub default_pending_by_transport : GoMap ℕ
default_pending_by_transport =
    (transport_unknown, 0) ∷ (transport_http, 0) ∷ (transport_p2p, 0) ∷ []

unfoldable pub count_transports : GoMap TrackedAck → GoMap ℕ → GoMap ℕ
count_transports [] counts = counts
count_transports ((rid, tracked) ∷ rest) counts =
    count_transports rest (increment (normalize_transport tracked.pending.transport) counts)

-- Milliseconds() truncates; the durations kept here are not negative.
abbrev pub millis : ℕ → ℕ
millis d = d / 1_000_000

unfoldable pub empty_ack_metrics : AckMetrics
empty_ack_metrics = record {
  pending_count = 0;
  max_pending_count = 0;
  pending_by_transport = default_pending_by_transport;
  acked_count = 0;
  retry_dispatch_count = 0;
  expired_count = 0;
  exhausted_count = 0;
  last_ack_rtt_ms = 0;
  avg_ack_rtt_ms = 0;
  max_ack_rtt_ms = 0;
}

unfoldable pub metrics : AckTracker → AckMetrics
metrics t =
    let m = t.metrics in
    record {
      pending_count = length t.pending;
      max_pending_count = m.max_pending_count;
      pending_by_transport = count_transports t.pending default_pending_by_transport;
      acked_count = m.acked_count;
      retry_dispatch_count = m.retry_dispatch_count;
      expired_count = m.expired_count;
      exhausted_count = m.exhausted_count;
      last_ack_rtt_ms = millis m.last_ack_rtt;
      avg_ack_rtt_ms = if ltb 0 m.acked_count then millis (m.total_ack_rtt / m.acked_count) else 0;
      max_ack_rtt_ms = millis m.max_ack_rtt;
    }
