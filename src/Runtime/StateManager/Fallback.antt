-- ===== src/Runtime/StateManager/Fallback.antt =====
-- The relay fallback after a peer-to-peer timeout (state_manager.go).
use vibe_deck.Prelude.{
  ℕ, ℤ, Option, none, some, List, [], ◌∷◌, String, ◌≡◌, ◌≢◌, refl, ap, ◌∙◌, arith, length,
  get_elem?-append_length,
}
use vibe_deck.Runtime.StateManager.{
  ConnectionState, p2p_connected, relay_connected, closed, Callback, relay_fallback, Timer,
  StateManager, set_state_locked, disarm, stop_timer, stop_p2p_timer_locked, mark_p2p_connected,
  mark_relay_connected, close, callbacks_of, fire, callback_body, run_callback, Event, timer_fired,
  callback_ran, step, run,
}
use vibe_deck.Runtime.StateManager.Timers.{set_state_locked-state, set_state_locked_timers}

-- Timer `i` is armed and would run the fallback, and it is not the timer that `stop_p2p_timer_locked` stops.
pub record HasFallback (i : ℕ) (m : StateManager) : Type 0 where
  pub armed : callbacks_of i m.armed ≡ relay_fallback ∷ []
  pub not_stopped : m.p2p_timer ≢ some i

callbacks_of-disarm :
    (i j : ℕ) (ts : List Timer) → j ≢ i → callbacks_of i (disarm j ts) ≡ callbacks_of i ts
unfolding disarm
callbacks_of-disarm i j [] n = refl
callbacks_of-disarm i j (t ∷ ts) n = ground (arith, callbacks_of-disarm i j ts n)

stop_fallback :
    (i : ℕ) (m : StateManager)
    → HasFallback i m
    → (callbacks_of i (stop_p2p_timer_locked m).armed ≡ relay_fallback ∷ [])
      × ((stop_p2p_timer_locked m).fired ≡ m.fired)
unfolding stop_p2p_timer_locked
stop_fallback i m h = go m.p2p_timer refl
  where
    go :
        (o : Option ℕ)
        → m.p2p_timer ≡ o
        → (callbacks_of i (stop_timer o m).armed ≡ relay_fallback ∷ [])
          × ((stop_timer o m).fired ≡ m.fired)
    go none e = (h.armed, refl)
    go (some j) e =
        (callbacks_of-disarm i j m.armed (λ p. h.not_stopped (e ∙ ap some p)) ∙ h.armed, refl)

-- Once the timer fires and its callback has the mutex, the state is RELAY_CONNECTED.
fallback_runs :
    (t1 t2 : ℤ) (i : ℕ) (m : StateManager)
    → callbacks_of i m.armed ≡ relay_fallback ∷ []
    → (run ((t1, timer_fired i) ∷ (t2, callback_ran (length m.fired)) ∷ []) m).state
      ≡ relay_connected
unfolding run step fire run_callback callback_body mark_relay_connected
fallback_runs t1 t2 i m h =
    rw (h, get_elem?-append_length) (set_state_locked-state t2 relay_connected _ _)

settled_fallback :
    (t0 t1 t2 : ℤ) (i : ℕ) (next : ConnectionState) (note : String) (m : StateManager)
    → HasFallback i m
    → (run
        ((t1, timer_fired i) ∷ (t2, callback_ran (length m.fired)) ∷ [])
        (set_state_locked t0 next note (stop_p2p_timer_locked m))).state
      ≡ relay_connected
settled_fallback t0 t1 t2 i next note m h =
    let (a, f, p, n) = set_state_locked_timers t0 next note (stop_p2p_timer_locked m) in
    let (b, g) = stop_fallback i m h in
    let m' = set_state_locked t0 next note (stop_p2p_timer_locked m) in
    let same : length m'.fired ≡ length m.fired = ap (λ (l : List Callback). length l) (f ∙ g) in
    rw (← same) (fallback_runs t1 t2 i m' (rw a b))

-- `close` and `mark_p2p_connected` do not stop a relay fallback that is scheduled: when its timer
-- fires afterwards, the closed or connected manager goes to RELAY_CONNECTED.
pub fallback_overrides :
    (t0 t1 t2 : ℤ) (i : ℕ) (m : StateManager)
    → HasFallback i m
    → let es : List (ℤ × Event) = (t1, timer_fired i) ∷ (t2, callback_ran (length m.fired)) ∷ [] in
      ((close t0 m).state ≡ closed)
      × ((run es (close t0 m)).state ≡ relay_connected)
      × ((mark_p2p_connected t0 m).state ≡ p2p_connected)
      × ((run es (mark_p2p_connected t0 m)).state ≡ relay_connected)
unfolding close mark_p2p_connected
fallback_overrides t0 t1 t2 i m h = (
  set_state_locked-state t0 closed "closed" (stop_p2p_timer_locked m),
  settled_fallback t0 t1 t2 i closed "closed" m h,
  set_state_locked-state t0 p2p_connected "p2p connected" (stop_p2p_timer_locked m),
  settled_fallback t0 t1 t2 i p2p_connected "p2p connected" m h,
)
