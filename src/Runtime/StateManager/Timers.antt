-- ===== src/Runtime/StateManager/Timers.antt =====
-- What the timers of the connection manager do after a method has settled the state
-- (state_manager.go).
use mathlib.Core.Logic.{if_pos, if_neg}
use mathlib.Core.Path.{subst}
use vibe_deck.Prelude.{
  ℕ, zero, suc, ◌==◌, ℤ, Option, none, some, List, [], ◌∷◌, ◌++◌, String, ◌≡◌, ◌≢◌, refl, ap, sym,
  ◌∙◌, arith, inl, inr, Bool-cases, Option-cases, get_elem?, All, All-append,
}
use vibe_deck.Runtime.StateManager.{
  ConnectionState, ConnectionState-discrete, p2p_connecting, p2p_connected, reconnecting, closed,
  Callback, on_timeout, Timer, StateManager, set_state_locked, disarm, stop_timer,
  stop_p2p_timer_locked, mark_p2p_connected, begin_reconnect, close, on_p2p_timeout, callbacks_of,
  fire, remove_at, callback_body, run_callback, Event, timer_fired, callback_ran, step, run,
}

-- The steps of the runtime and its timers, as opposed to calls of methods.
abbrev pub IsTimerStep : ℤ × Event → Type 0
IsTimerStep (now, timer_fired i) = Unit
IsTimerStep (now, callback_ran i) = Unit
IsTimerStep (now, _) = ⊥

-- No relay fallback is scheduled.
pub record HasNoFallback (m : StateManager) : Type 0 where
  pub armed : All (λ (t : Timer). t.callback ≡ on_timeout) m.armed
  pub fired : All (λ (c : Callback). c ≡ on_timeout) m.fired

set_state_same :
    (now : ℤ) (next : ConnectionState) (note : String) (m : StateManager)
    → m.state ≡ next
    → set_state_locked now next note m ≡ m
unfolding set_state_locked
set_state_same now next note m e = rw (if_pos _ e)

set_state_new :
    (now : ℤ) (next : ConnectionState) (note : String) (m : StateManager)
    → m.state ≢ next
    → set_state_locked now next note m ≡ record m {
      state = next;
      history = m.history ++ (record { state = next; at = now; note = note }) ∷ [];
    }
unfolding set_state_locked
set_state_new now next note m n = rw (if_neg _ n)

pub set_state_locked-state :
    (now : ℤ) (next : ConnectionState) (note : String) (m : StateManager)
    → (set_state_locked now next note m).state ≡ next
set_state_locked-state now next note m = elim (ConnectionState-discrete m.state next) [
  | yes e ↦ ap (λ (x : StateManager). x.state) (set_state_same now next note m e) ∙ e
  | no n ↦ ap (λ (x : StateManager). x.state) (set_state_new now next note m n)
]

-- `set_state_locked` leaves the timers alone.
pub set_state_locked_timers :
    (now : ℤ) (next : ConnectionState) (note : String) (m : StateManager)
    → let m' = set_state_locked now next note m in
      (m'.armed ≡ m.armed)
      × (m'.fired ≡ m.fired)
      × (m'.p2p_timer ≡ m.p2p_timer)
      × (m'.next_timer ≡ m.next_timer)
set_state_locked_timers now next note m = elim (ConnectionState-discrete m.state next) [
  | yes e ↦ rw (set_state_same now next note m e) (refl, refl, refl, refl)
  | no n ↦ rw (set_state_new now next note m n) (refl, refl, refl, refl)
]

disarm-All : (P : Timer → Type 0) (i : ℕ) (ts : List Timer) → All P ts → All P (disarm i ts)
unfolding disarm
disarm-All P i [] h = tt
disarm-All P i (t ∷ ts) h = elim (Bool-cases (t.id == i)) [
  | inl e ↦ rw e (disarm-All P i ts h.1)
  | inr e ↦ rw e (h.0, disarm-All P i ts h.1)
]

callbacks_of-All :
    (i : ℕ) (ts : List Timer)
    → All (λ (t : Timer). t.callback ≡ on_timeout) ts
    → All (λ (c : Callback). c ≡ on_timeout) (callbacks_of i ts)
callbacks_of-All i [] h = tt
callbacks_of-All i (t ∷ ts) h = elim (Bool-cases (t.id == i)) [
  | inl e ↦ rw e (h.0, callbacks_of-All i ts h.1)
  | inr e ↦ rw e (callbacks_of-All i ts h.1)
]

remove_at-All :
    (P : Callback → Type 0) (i : ℕ) (cs : List Callback) → All P cs → All P (remove_at i cs)
remove_at-All P i [] h = tt
remove_at-All P zero (c ∷ cs) h = h.1
remove_at-All P (suc i) (c ∷ cs) h = (h.0, remove_at-All P i cs h.1)

get_elem?-All :
    (cs : List Callback) (i : ℕ) (c : Callback)
    → All (λ (d : Callback). d ≡ on_timeout) cs
    → get_elem? cs i ≡ some c
    → c ≡ on_timeout
get_elem?-All [] i c h e = cc
get_elem?-All (d ∷ cs) zero c h e = cc h.0
get_elem?-All (d ∷ cs) (suc i) c h e = get_elem?-All cs i c h.1 e

stop_HasNoFallback : (m : StateManager) → HasNoFallback m → HasNoFallback (stop_p2p_timer_locked m)
unfolding stop_p2p_timer_locked
stop_HasNoFallback m h = go m.p2p_timer
  where
    go : (o : Option ℕ) → HasNoFallback (stop_timer o m)
    go none = h
    go (some i) = record { armed = disarm-All _ i m.armed h.armed; fired = h.fired }

set_HasNoFallback :
    (now : ℤ) (next : ConnectionState) (note : String) (m : StateManager)
    → HasNoFallback m
    → HasNoFallback (set_state_locked now next note m)
set_HasNoFallback now next note m h =
    let (a, f, p, n) = set_state_locked_timers now next note m in
    record { armed = rw a h.armed; fired = rw f h.fired }

fire_quiet : (i : ℕ) (m : StateManager) → HasNoFallback m → HasNoFallback (fire i m)
unfolding fire
fire_quiet i m h = record {
  armed = disarm-All _ i m.armed h.armed;
  fired =
      All-append _ m.fired (callbacks_of i m.armed) h.fired (callbacks_of-All i m.armed h.armed);
}

-- A callback of the timeout does nothing outside P2P_CONNECTING.
on_p2p_timeout_quiet :
    (now : ℤ) (m : StateManager) → m.state ≢ p2p_connecting → on_p2p_timeout now m ≡ m
unfolding on_p2p_timeout
on_p2p_timeout_quiet now m n = rw (if_neg _ n)

callback_quiet :
    (now : ℤ) (i : ℕ) (m : StateManager)
    → m.state ≢ p2p_connecting
    → HasNoFallback m
    → run_callback now i m ≡ record m { fired = remove_at i m.fired }
unfolding run_callback callback_body
callback_quiet now i m n h = elim (Option-cases (get_elem? m.fired i)) [
  | inl e ↦ rw e
  | inr (c, e) ↦
      let t : c ≡ on_timeout = get_elem?-All m.fired i c h.fired e in
      rw (e, t) (on_p2p_timeout_quiet now (record m { fired = remove_at i m.fired }) n)
]

timers_quiet :
    (es : List (ℤ × Event)) (m : StateManager)
    → All IsTimerStep es
    → m.state ≢ p2p_connecting
    → HasNoFallback m
    → ((run es m).state ≡ m.state) × ((run es m).history ≡ m.history)
unfolding run step fire
timers_quiet [] m t n h = (refl, refl)
timers_quiet ((now, timer_fired i) ∷ es) m t n h =
    timers_quiet es (fire i m) t.1 n (fire_quiet i m h)
timers_quiet ((now, callback_ran i) ∷ es) m t n h =
    subst (λ (x : StateManager). ((run es x).state ≡ m.state) × ((run es x).history ≡ m.history))
      (sym (callback_quiet now i m n h))
      (timers_quiet es (record m { fired = remove_at i m.fired }) t.1 n
        (record { armed = h.armed; fired = remove_at-All _ i m.fired h.fired }))
timers_quiet ((now, _) ∷ es) m t n h = elim t.0 [ ]

settled_quiet :
    (now : ℤ) (next : ConnectionState) (note : String) (m : StateManager) (es : List (ℤ × Event))
    → next ≢ p2p_connecting
    → HasNoFallback m
    → All IsTimerStep es
    → (run es (set_state_locked now next note (stop_p2p_timer_locked m))).state ≡ next
settled_quiet now next note m es n h t =
    let m' = set_state_locked now next note (stop_p2p_timer_locked m) in
    let s : m'.state ≡ next = set_state_locked-state now next note (stop_p2p_timer_locked m) in
    (timers_quiet es m' t (λ e. n (sym s ∙ e))
      (set_HasNoFallback now next note (stop_p2p_timer_locked m) (stop_HasNoFallback m h))).0
    ∙ s

-- While no relay fallback is scheduled, no timer and no callback that is still waiting changes the
-- state after `close`, after `mark_p2p_connected` or after `begin_reconnect`, whatever fires and in
-- whatever order.
pub timers_keep_state :
    (now : ℤ) (m : StateManager) (es : List (ℤ × Event))
    → HasNoFallback m
    → All IsTimerStep es
    → ((run es (close now m)).state ≡ closed)
      × ((run es (mark_p2p_connected now m)).state ≡ p2p_connected)
      × ((run es (begin_reconnect now m)).state ≡ reconnecting)
unfolding close mark_p2p_connected begin_reconnect
timers_keep_state now m es h t = (
  settled_quiet now closed "closed" m es (λ e. ground arith) h t,
  settled_quiet now p2p_connected "p2p connected" m es (λ e. ground arith) h t,
  settled_quiet now reconnecting "reconnecting" m es (λ e. ground arith) h t,
)
