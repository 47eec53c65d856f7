-- ===== src/Runtime/AckTracker/State.antt =====
-- ack_tracker.go: the structs, the configuration and the constructors.
use vibe_deck.Prelude.{
  ℕ, ◌*◌, ℤ, pos, pos_part, Bool, not, List, [], String, ltb, leb_ℤ, ltb_ℤ, str_eq, if◌then◌else◌,
}
use vibe_deck.GoMap.{GoMap}
use vibe_deck.Protocol.Envelope.{Envelope}

-- AckTransport is a string; these are its constants.
abbrev pub transport_unknown : String
transport_unknown = "unknown"

abbrev pub transport_http : String
transport_http = "http"

abbrev pub transport_p2p : String
transport_p2p = "p2p"

pub record PendingAck : Type 0 where
  pub sid : String
  pub rid : String
  pub message_type : String
  pub transport : String
  pub registered_at : ℕ
  pub last_sent_at : ℕ
  pub expires_at : ℕ
  pub retry_enabled : Bool
  pub retry_count : ℕ
  pub max_retries : ℕ

pub record AckMetrics : Type 0 where
  pub pending_count : ℕ
  pub max_pending_count : ℕ
  pub pending_by_transport : GoMap ℕ
  pub acked_count : ℕ
  pub retry_dispatch_count : ℕ
  pub expired_count : ℕ
  pub exhausted_count : ℕ
  pub last_ack_rtt_ms : ℕ
  pub avg_ack_rtt_ms : ℕ
  pub max_ack_rtt_ms : ℕ

pub record AckTrackerConfig : Type 0 where
  pub timeout : ℤ
  pub max_retries : ℤ
  pub backoff_multiplier : ℤ

pub record TrackedAck : Type 0 where
  pub pending : PendingAck
  pub envelope : Envelope

-- AckRetry has the same two fields.
pub record AckRetryBatch : Type 0 where
  pub retries : List TrackedAck
  pub exhausted : List PendingAck

pub record AckMetricState : Type 0 where
  pub acked_count : ℕ
  pub retry_dispatch_count : ℕ
  pub expired_count : ℕ
  pub exhausted_count : ℕ
  pub max_pending_count : ℕ
  pub total_ack_rtt : ℕ
  pub last_ack_rtt : ℕ
  pub max_ack_rtt : ℕ

pub record AckTracker : Type 0 where
  pub timeout : ℕ
  pub max_retries : ℕ
  pub backoff_multiplier : ℕ
  pub pending : GoMap TrackedAck
  pub metrics : AckMetricState

abbrev pub second : ℕ
second = 1_000_000_000

unfoldable pub default_ack_tracker_config : AckTrackerConfig
default_ack_tracker_config = record {
  timeout = pos (2 * second);
  max_retries = pos 2;
  backoff_multiplier = pos 2;
}

abbrev pub zero_metrics : AckMetricState
zero_metrics = record {
  acked_count = 0;
  retry_dispatch_count = 0;
  expired_count = 0;
  exhausted_count = 0;
  max_pending_count = 0;
  total_ack_rtt = 0;
  last_ack_rtt = 0;
  max_ack_rtt = 0;
}

-- After the three tests the fields are not negative, so `pos_part` loses nothing.
unfoldable pub new_ack_tracker_with_config : AckTrackerConfig → AckTracker
unfolding default_ack_tracker_config
new_ack_tracker_with_config cfg =
    let defaults = default_ack_tracker_config in
    let timeout = if leb_ℤ cfg.timeout (pos 0) then defaults.timeout else cfg.timeout in
    let max_retries =
      if ltb_ℤ cfg.max_retries (pos 0) then defaults.max_retries else cfg.max_retries in
    let multiplier =
      if ltb_ℤ cfg.backoff_multiplier (pos 1)
      then defaults.backoff_multiplier
      else cfg.backoff_multiplier in
    record {
      timeout = pos_part timeout;
      max_retries = pos_part max_retries;
      backoff_multiplier = pos_part multiplier;
      pending = [];
      metrics = zero_metrics;
    }

unfoldable pub new_ack_tracker : ℤ → AckTracker
unfolding new_ack_tracker_with_config
new_ack_tracker timeout =
    let cfg = default_ack_tracker_config in
    new_ack_tracker_with_config
      (if ltb_ℤ (pos 0) timeout then record cfg { timeout = timeout } else cfg)

abbrev pub normalize_transport : String → String
normalize_transport t = if str_eq t "" then transport_unknown else t

abbrev pub max_retries_for_retry : Bool → ℕ → ℕ
max_retries_for_retry retry_enabled max_retries = if not retry_enabled then 0 else max_retries

-- The raise of `maxPendingCount` to the size of the table.
abbrev pub observe_size : ℕ → AckMetricState → AckMetricState
observe_size n m = record m {
  max_pending_count = if ltb m.max_pending_count n then n else m.max_pending_count;
}
