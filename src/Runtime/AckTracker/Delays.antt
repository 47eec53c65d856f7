-- ===== src/Runtime/AckTracker/Delays.antt =====
-- The delay before a retry, against the power of the multiplier (`nextDelay` of ack_tracker.go).
use vibe_deck.Runtime.AckTracker.State.{AckTracker}
