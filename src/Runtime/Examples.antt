-- ===== src/Runtime/Examples.antt =====
-- Runs of the acknowledgement tracker and of the connection manager on concrete values.
use mathlib.Core.Path.{subst}
use vibe_deck.Prelude.{
  ℕ, ◌+◌, ◌≤◌, ℤ, pos, true, Option, none, some, List, [], ◌∷◌, ◌≡◌, refl, arith, length,
}
use vibe_deck.GoMap.{lookup, insert}
use vibe_deck.Protocol.Models.{cmd_ack, type_name}
use vibe_deck.Protocol.Envelope.{Envelope}
use vibe_deck.Runtime.AckTracker.State.{
  AckTracker, AckTrackerConfig, TrackedAck, new_ack_tracker_with_config,
}
use vibe_deck.Runtime.AckTracker.Table.{register_locked, register_envelope}
use vibe_deck.Runtime.AckTracker.Sweeps.{due_retries, due_loop, retry_verdict, backoff, next_delay}
use vibe_deck.Runtime.AckTracker.Invariant.{IsTable, new-IsTable}
use vibe_deck.Runtime.AckTracker.Batches.{mine, given_up}
use vibe_deck.Runtime.AckTracker.Retries.{sweeps, resent, sweeps_exhaust}
use vibe_deck.Runtime.AckTracker.Settled.{
  Call, register_call, register_envelope_call, ack_call, expired_call, calls, call-IsTable,
  calls-IsTable,
}
use vibe_deck.Runtime.AckTracker.Ledger.{
  calls_ledger, total, acked, ended, exhausted, forgotten, entered,
}
use vibe_deck.Runtime.StateManager.{
  pairing, p2p_connecting, relay_fallback, StateManager, ManagerConfig, new_state_manager, Event,
  signaling_began, p2p_began, closing, timer_fired, callback_ran, run, close, mark_p2p_connected,
  begin_reconnect, closed, p2p_connected, reconnecting, relay_connected, on_timeout,
}
use vibe_deck.Runtime.StateManager.History.{IsHistory, Grows, run-IsHistory}
use vibe_deck.Runtime.StateManager.Timers.{HasNoFallback, timers_keep_state}
use vibe_deck.Runtime.StateManager.Fallback.{HasFallback, fallback_overrides}

abbrev config : AckTrackerConfig
config = record { timeout = pos 5; max_retries = pos 1; backoff_multiplier = pos 2 }

abbrev packet : Envelope
packet = record { sid = "s1"; rid = "r1"; seq = pos 0; ts = pos 1; kind = cmd_ack; payload = "{}" }

abbrev empty_tracker : AckTracker
empty_tracker = new_ack_tracker_with_config config

-- One message that takes retries, sent at time 10.
abbrev tracker : AckTracker
tracker = register_envelope 10 packet "p2p" true empty_tracker

tracker-IsTable : IsTable tracker
tracker-IsTable =
    call-IsTable (register_envelope_call 10 packet "p2p" true) empty_tracker (new-IsTable config)

abbrev entry : TrackedAck
entry = record {
  pending = record {
    sid = "s1";
    rid = "r1";
    message_type = "CMD_ACK";
    transport = "p2p";
    registered_at = 10;
    last_sent_at = 10;
    expires_at = 15;
    retry_enabled = true;
    retry_count = 0;
    max_retries = 1;
  };
  envelope = packet;
}

tracker-entry : lookup "r1" tracker.pending ≡ some entry
unfolding lookup register_envelope register_locked new_ack_tracker_with_config insert type_name
tracker-entry = refl

swept-entry :
    lookup "r1" (sweeps (20 ∷ []) tracker).pending
    ≡ some (record {
      pending = record entry.pending { retry_count = 1; last_sent_at = 20; expires_at = 30 };
      envelope = packet;
    })
unfolding sweeps due_retries due_loop retry_verdict next_delay backoff lookup register_envelope
    register_locked new_ack_tracker_with_config insert type_name
swept-entry = refl

-- An entry that is due, found under two names.
is_due :
    (o : Option TrackedAck) (a b : TrackedAck) (now : ℕ)
    → o ≡ some a
    → a.pending.expires_at ≤ now
    → o ≡ some b
    → b.pending.expires_at ≤ now
is_due o a b now e h f =
    let same : a ≡ b = ground arith in subst (λ (x : TrackedAck). x.pending.expires_at ≤ now) same h

sweeps_exhaust_example :
    let r = due_retries 30 (sweeps (20 ∷ []) tracker) in
    (resent "r1" (20 ∷ []) tracker ≡ (packet ∷ []) ∷ [])
    × (lookup "r1" r.0.pending ≡ none)
    × (mine "r1" r.1.retries ≡ [])
    × (last : TrackedAck) × (lookup "r1" (sweeps (20 ∷ []) tracker).pending ≡ some last)
    × (last.pending.retry_count ≡ 1)
    × (given_up "r1" r.1.exhausted ≡ last.pending ∷ [])
sweeps_exhaust_example =
    sweeps_exhaust "r1" (20 ∷ []) 30 tracker entry tracker-IsTable tracker-entry refl refl
      ((λ tracked e. is_due _ entry tracked 20 tracker-entry (omega arith) e), tt)
      (λ last e. is_due _ _ last 30 swept-entry (omega arith) e)

abbrev two_calls : List Call
two_calls =
    register_envelope_call 10 packet "p2p" true
    ∷ register_call 11 "s1" "r2" "CMD_ACK"
    ∷ ack_call 12 "r1"
    ∷ expired_call 40
    ∷ []

calls_ledger_example :
    let t' = calls two_calls empty_tracker in
    (t'.metrics.acked_count ≡ 0 + total acked two_calls empty_tracker)
    × (t'.metrics.expired_count ≡ 0 + total ended two_calls empty_tracker)
    × (t'.metrics.exhausted_count ≡ 0 + total exhausted two_calls empty_tracker)
    × (length t'.pending
          + (total acked two_calls empty_tracker
              + total ended two_calls empty_tracker
              + total exhausted two_calls empty_tracker
              + total forgotten two_calls empty_tracker)
        ≡ 0 + total entered two_calls empty_tracker)
unfolding new_ack_tracker_with_config
calls_ledger_example = calls_ledger two_calls empty_tracker (new-IsTable config)

calls-IsTable_example : IsTable (calls two_calls (new_ack_tracker_with_config config))
calls-IsTable_example = calls-IsTable two_calls config

abbrev timers : ManagerConfig
timers = record { p2p_timeout = pos 3000; relay_fallback_delay = pos 100 }

abbrev new_manager : StateManager
new_manager = new_state_manager (pos 1) timers

abbrev connecting : List (ℤ × Event)
connecting = (pos 2, signaling_began) ∷ (pos 3, p2p_began) ∷ (pos 4, timer_fired 0) ∷ []

abbrev ending : List (ℤ × Event)
ending = (pos 5, callback_ran 0) ∷ (pos 6, closing) ∷ []

run-IsHistory_example :
    IsHistory (run connecting new_manager)
    × Grows (run connecting new_manager) (run ending (run connecting new_manager))
run-IsHistory_example = run-IsHistory (pos 1) timers connecting ending

-- The timeout's callback waits for the mutex while the state is settled.
abbrev waiting : StateManager
waiting = record {
  cfg = timers;
  state = p2p_connecting;
  history =
      (record { state = pairing; at = pos 1; note = "session created" })
      ∷ (record { state = p2p_connecting; at = pos 3; note = "attempting p2p connection" })
      ∷ [];
  p2p_timer = some 0;
  armed = [];
  fired = on_timeout ∷ [];
  next_timer = 1;
}

waiting-HasNoFallback : HasNoFallback waiting
waiting-HasNoFallback = record { armed = tt; fired = (refl, tt) }

timers_keep_state_example :
    ((run ((pos 5, callback_ran 0) ∷ []) (close (pos 5) waiting)).state ≡ closed)
    × ((run ((pos 5, callback_ran 0) ∷ []) (mark_p2p_connected (pos 5) waiting)).state
        ≡ p2p_connected)
    × ((run ((pos 5, callback_ran 0) ∷ []) (begin_reconnect (pos 5) waiting)).state ≡ reconnecting)
timers_keep_state_example =
    timers_keep_state (pos 5) waiting ((pos 5, callback_ran 0) ∷ []) waiting-HasNoFallback (tt, tt)

-- The fallback is scheduled: it is timer 1.
abbrev scheduled : StateManager
scheduled = record waiting {
  state = reconnecting;
  armed = (record { id = 1; callback = relay_fallback }) ∷ [];
  fired = [];
  next_timer = 2;
}

scheduled-HasFallback : HasFallback 1 scheduled
scheduled-HasFallback = record { armed = refl; not_stopped = λ e. ground arith }

fallback_overrides_example :
    let es : List (ℤ × Event) =
      (pos 7, timer_fired 1) ∷ (pos 8, callback_ran (length scheduled.fired)) ∷ [] in
    ((close (pos 6) scheduled).state ≡ closed)
    × ((run es (close (pos 6) scheduled)).state ≡ relay_connected)
    × ((mark_p2p_connected (pos 6) scheduled).state ≡ p2p_connected)
    × ((run es (mark_p2p_connected (pos 6) scheduled)).state ≡ relay_connected)
fallback_overrides_example =
    fallback_overrides (pos 6) (pos 7) (pos 8) 1 scheduled scheduled-HasFallback
