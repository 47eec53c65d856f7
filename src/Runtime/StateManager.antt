-- ===== src/Runtime/StateManager.antt =====
-- state_manager.go and types.go: the connection state machine with its two timers.
-- `time.AfterFunc` arms a timer. An armed timer fires when the runtime chooses (`fire`): its callback
-- then waits for the mutex, where `Stop` no longer reaches it, and runs at a later step
-- (`run_callback`). Each method holds the mutex, so it is one step; `now` is `m.now().UnixMilli()`.
pub mod History
pub mod Timers
pub mod Fallback
use mathlib.Core.Logic.{ite}
use vibe_deck.Prelude.{
  ℕ, zero, suc, ◌+◌, ◌==◌, ℤ, pos, Bool, Option, none, some, List, [], ◌∷◌, ◌++◌, String, leb_ℤ,
  ltb_ℤ, str_eq, if◌then◌else◌, get_elem?,
}

pub data ConnectionState : Type 0 where
  pairing signaling p2p_connecting p2p_connected relay_connected reconnecting closed :
      ConnectionState

pub ConnectionState-discrete : Discrete ConnectionState
ConnectionState-discrete = hlevel

pub record Transition : Type 0 where
  pub state : ConnectionState
  pub at : ℤ
  pub note : String

pub record ManagerConfig : Type 0 where
  pub p2p_timeout : ℤ
  pub relay_fallback_delay : ℤ

unfoldable pub default_manager_config : ManagerConfig
default_manager_config = record {
  p2p_timeout = pos 3_000_000_000;
  relay_fallback_delay = pos 100_000_000;
}

pub data Callback : Type 0 where
  on_timeout : Callback
  relay_fallback : Callback

pub record Timer : Type 0 where
  pub id : ℕ
  pub callback : Callback

-- `armed` are the timers that have not fired, `fired` the callbacks that wait for the mutex.
pub record StateManager : Type 0 where
  pub cfg : ManagerConfig
  pub state : ConnectionState
  pub history : List Transition
  pub p2p_timer : Option ℕ
  pub armed : List Timer
  pub fired : List Callback
  pub next_timer : ℕ

append_locked : ℤ → ConnectionState → String → StateManager → StateManager
append_locked now state note m = record m {
  history = m.history ++ (record { state = state; at = now; note = note }) ∷ [];
}

unfoldable pub new_state_manager : ℤ → ManagerConfig → StateManager
unfolding append_locked default_manager_config
new_state_manager now cfg =
    let timeout =
      if leb_ℤ cfg.p2p_timeout (pos 0)
      then default_manager_config.p2p_timeout
      else cfg.p2p_timeout in
    let delay =
      if ltb_ℤ cfg.relay_fallback_delay (pos 0) then pos 0 else cfg.relay_fallback_delay in
    append_locked now pairing "session created" (record {
      cfg = record { p2p_timeout = timeout; relay_fallback_delay = delay };
      state = pairing;
      history = [];
      p2p_timer = none;
      armed = [];
      fired = [];
      next_timer = 0;
    })

unfoldable pub set_state_locked : ℤ → ConnectionState → String → StateManager → StateManager
unfolding append_locked
set_state_locked now next note m =
    ite (ConnectionState-discrete m.state next) m
      (append_locked now next note (record m { state = next }))

-- timer.Stop(): a timer that has fired is not in `armed`, and nothing happens.
unfoldable pub disarm : ℕ → List Timer → List Timer
disarm i [] = []
disarm i (t ∷ ts) = let rest = disarm i ts in if t.id == i then rest else t ∷ rest

abbrev pub stop_timer : Option ℕ → StateManager → StateManager
stop_timer none m = m
stop_timer (some i) m = record m { armed = disarm i m.armed; p2p_timer = none }

unfoldable pub stop_p2p_timer_locked : StateManager → StateManager
stop_p2p_timer_locked m = stop_timer m.p2p_timer m

-- time.AfterFunc
abbrev pub after_func : Callback → StateManager → StateManager
after_func callback m = record m {
  armed = (record { id = m.next_timer; callback = callback }) ∷ m.armed;
  next_timer = m.next_timer + 1;
}

unfoldable pub begin_signaling : ℤ → StateManager → StateManager
begin_signaling now m = set_state_locked now signaling "signaling started" m

unfoldable pub begin_p2p : ℤ → StateManager → StateManager
begin_p2p now m =
    let m1 =
      stop_p2p_timer_locked (set_state_locked now p2p_connecting "attempting p2p connection" m) in
    record (after_func on_timeout m1) { p2p_timer = some m1.next_timer }

unfoldable pub mark_p2p_connected : ℤ → StateManager → StateManager
mark_p2p_connected now m =
    set_state_locked now p2p_connected "p2p connected" (stop_p2p_timer_locked m)

unfoldable pub mark_relay_connected : ℤ → String → StateManager → StateManager
mark_relay_connected now reason m =
    let reason = if str_eq reason "" then "relay connected" else reason in
    set_state_locked now relay_connected reason (stop_p2p_timer_locked m)

unfoldable pub begin_reconnect : ℤ → StateManager → StateManager
begin_reconnect now m = set_state_locked now reconnecting "reconnecting" (stop_p2p_timer_locked m)

unfoldable pub close : ℤ → StateManager → StateManager
close now m = set_state_locked now closed "closed" (stop_p2p_timer_locked m)

unfoldable pub on_p2p_timeout : ℤ → StateManager → StateManager
on_p2p_timeout now m =
    ite (ConnectionState-discrete m.state p2p_connecting)
      (if ltb_ℤ (pos 0) m.cfg.relay_fallback_delay
        then after_func relay_fallback
            (set_state_locked now reconnecting "p2p timeout, scheduling relay fallback" m)
        else set_state_locked now relay_connected "relay fallback after p2p timeout" m)
      m

-- The runtime fires an armed timer.
abbrev pub callbacks_of : ℕ → List Timer → List Callback
callbacks_of i [] = []
callbacks_of i (t ∷ ts) =
    let rest = callbacks_of i ts in if t.id == i then t.callback ∷ rest else rest

unfoldable pub fire : ℕ → StateManager → StateManager
fire i m = record m { armed = disarm i m.armed; fired = m.fired ++ callbacks_of i m.armed }

-- The callback at a place among the waiting ones gets the mutex.
abbrev pub remove_at {ℓ} : {A : Type ℓ} → ℕ → List A → List A
remove_at i [] = []
remove_at zero (x ∷ xs) = xs
remove_at (suc i) (x ∷ xs) = x ∷ remove_at i xs

unfoldable pub callback_body : ℤ → Option Callback → StateManager → StateManager
callback_body now none m = m
callback_body now (some on_timeout) m = on_p2p_timeout now m
callback_body now (some relay_fallback) m =
    mark_relay_connected now "relay fallback after p2p timeout" m

unfoldable pub run_callback : ℤ → ℕ → StateManager → StateManager
run_callback now i m =
    callback_body now (get_elem? m.fired i) (record m { fired = remove_at i m.fired })

-- What can happen to a manager: its methods, and its timers.
pub data Event : Type 0 where
  signaling_began p2p_began p2p_marked reconnect_began closing : Event
  relay_marked : String → Event
  timer_fired : ℕ → Event
  callback_ran : ℕ → Event

unfoldable pub step : ℤ → Event → StateManager → StateManager
step now signaling_began m = begin_signaling now m
step now p2p_began m = begin_p2p now m
step now p2p_marked m = mark_p2p_connected now m
step now reconnect_began m = begin_reconnect now m
step now closing m = close now m
step now (relay_marked reason) m = mark_relay_connected now reason m
step now (timer_fired i) m = fire i m
step now (callback_ran i) m = run_callback now i m

unfoldable pub run : List (ℤ × Event) → StateManager → StateManager
run [] m = m
run ((now, e) ∷ es) m = run es (step now e m)
