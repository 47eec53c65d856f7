-- ===== src/Runtime/AckTracker.antt =====
-- ack_tracker.go: the table of messages that wait for an acknowledgement, with retries, expiry and
-- metrics. A method takes the clock's reading `t.now()` and returns the new tracker.
-- An instant (`time.Time`) is the number of nanoseconds since Go's zero time, a natural number, so
-- `IsZero` is `== 0`; a `time.Duration` is an int64. The delay of a retry is computed modulo 2^64
-- as the multiplication of int64 is; counters and sums of round trips are not bounded, since they
-- reach 2^63 only after centuries. The mutex makes each method one step.
pub mod State
pub mod Table
pub mod Sweeps
pub mod Invariant
pub mod Batches
pub mod Retries
pub mod Settled
pub mod Ledger
pub mod Metrics
pub mod Delays
