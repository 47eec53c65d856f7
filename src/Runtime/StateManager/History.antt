-- ===== src/Runtime/StateManager/History.antt =====
-- The history of the connection (state_manager.go).
use mathlib.Core.Logic.{if_pos, if_neg}
use mathlib.Core.List.{append-nil, append_assoc}
use vibe_deck.Prelude.{
  ℤ, Option, none, some, List, [], ◌∷◌, ◌++◌, String, ◌≡◌, ◌≢◌, refl, ap, sym, ◌∙◌, ltb_ℤ, pos, inl,
  inr, Bool-cases, Option-cases, get_elem?,
}
use vibe_deck.Runtime.StateManager.{
  ConnectionState, ConnectionState-discrete, signaling, p2p_connecting, p2p_connected,
  relay_connected, reconnecting, closed, remove_at, Transition, ManagerConfig, Callback, on_timeout,
  relay_fallback, StateManager, new_state_manager, set_state_locked, stop_p2p_timer_locked,
  begin_signaling, begin_p2p, mark_p2p_connected, mark_relay_connected, begin_reconnect, close,
  on_p2p_timeout, fire, callback_body, run_callback, Event, signaling_began, p2p_began, p2p_marked,
  reconnect_began, closing, relay_marked, timer_fired, callback_ran, step, run,
}

abbrev states : List Transition → List ConnectionState
states [] = []
states (t ∷ ts) = t.state ∷ states ts

-- No state follows itself.
abbrev pub NoStutter : List Transition → Type 0
NoStutter [] = Unit
NoStutter (a ∷ []) = Unit
NoStutter (a ∷ b ∷ ts) = (a.state ≢ b.state) × NoStutter (b ∷ ts)

abbrev pub last_state : List Transition → Option ConnectionState
last_state [] = none
last_state (a ∷ []) = some a.state
last_state (a ∷ b ∷ ts) = last_state (b ∷ ts)

pub record IsHistory (m : StateManager) : Type 0 where
  pub current : last_state m.history ≡ some m.state
  pub no_stutter : NoStutter m.history

last_state-append :
    (ts : List Transition) (t : Transition) → last_state (ts ++ t ∷ []) ≡ some t.state
last_state-append [] t = refl
last_state-append (a ∷ []) t = refl
last_state-append (a ∷ b ∷ ts) t = last_state-append (b ∷ ts) t

NoStutter-append :
    (ts : List Transition) (s : ConnectionState) (t : Transition)
    → NoStutter ts
    → last_state ts ≡ some s
    → s ≢ t.state
    → NoStutter (ts ++ t ∷ [])
NoStutter-append [] s t h e n = tt
NoStutter-append (a ∷ []) s t h e n = ((λ p. n (cc)), tt)
NoStutter-append (a ∷ b ∷ ts) s t h e n = (h.0, NoStutter-append (b ∷ ts) s t h.1 e n)

-- A relation between a manager and a later one: the history grew at its end.
abbrev pub Grows : StateManager → StateManager → Type 0
Grows m m' = (ts : List Transition) × (m'.history ≡ m.history ++ ts)

-- What a step keeps.
record Kept (m m' : StateManager) : Type 0 where
  valid : IsHistory m'
  grows : Grows m m'

same-Kept :
    (m m' : StateManager) → IsHistory m → m'.history ≡ m.history → m'.state ≡ m.state → Kept m m'
same-Kept m m' w e s = record {
  valid = record { current = rw (e, s) w.current; no_stutter = rw e w.no_stutter };
  grows = ([], e ∙ sym (append-nil _));
}

set_state-Kept :
    (now : ℤ) (next : ConnectionState) (note : String) (m : StateManager)
    → IsHistory m
    → Kept m (set_state_locked now next note m)
unfolding set_state_locked
set_state-Kept now next note m w = elim (ConnectionState-discrete m.state next) [
  | yes e ↦ rw (if_pos _ e) (same-Kept m m w refl refl)
  | no n ↦ rw (if_neg _ n) (record {
    valid = record {
      current = last_state-append m.history _;
      no_stutter = NoStutter-append m.history m.state _ w.no_stutter w.current n;
    };
    grows = (_, refl);
  })
]

Kept-trans : {a b c : StateManager} → Kept a b → (IsHistory b → Kept b c) → Kept a c
Kept-trans {a} p k =
    let q = k p.valid in
    let (ts, e) = p.grows in
    let (us, f) = q.grows in
    record {
      valid = q.valid;
      grows =
          (ts ++ us, f ∙ ap (λ (l : List Transition). l ++ us) e ∙ append_assoc a.history ts us);
    }

stop_same :
    (m : StateManager)
    → ((stop_p2p_timer_locked m).history ≡ m.history) × ((stop_p2p_timer_locked m).state ≡ m.state)
unfolding stop_p2p_timer_locked
stop_same m = elim (Option-cases m.p2p_timer) [
  | inl e ↦ rw e (refl, refl)
  | inr (i, e) ↦ rw e (refl, refl)
]

stop-Kept : (m : StateManager) → IsHistory m → Kept m (stop_p2p_timer_locked m)
stop-Kept m w = same-Kept m (stop_p2p_timer_locked m) w (stop_same m).0 (stop_same m).1

stop_set-Kept :
    (now : ℤ) (next : ConnectionState) (note : String) (m : StateManager)
    → IsHistory m
    → Kept m (set_state_locked now next note (stop_p2p_timer_locked m))
stop_set-Kept now next note m w =
    Kept-trans (stop-Kept m w) (set_state-Kept now next note (stop_p2p_timer_locked m))

begin_p2p-Kept : (now : ℤ) (m : StateManager) → IsHistory m → Kept m (begin_p2p now m)
unfolding begin_p2p
begin_p2p-Kept now m w =
    let m0 = set_state_locked now p2p_connecting "attempting p2p connection" m in
    Kept-trans
      (Kept-trans (set_state-Kept now p2p_connecting "attempting p2p connection" m w)
        (stop-Kept m0))
      (λ v. same-Kept (stop_p2p_timer_locked m0) _ v refl refl)

on_p2p_timeout-Kept : (now : ℤ) (m : StateManager) → IsHistory m → Kept m (on_p2p_timeout now m)
unfolding on_p2p_timeout
on_p2p_timeout-Kept now m w = elim (ConnectionState-discrete m.state p2p_connecting) [
  | yes e ↦ rw (if_pos _ e) (elim (Bool-cases (ltb_ℤ (pos 0) m.cfg.relay_fallback_delay)) [
    | inl d ↦ rw d (
        Kept-trans (set_state-Kept now reconnecting "p2p timeout, scheduling relay fallback" m w)
          (λ v. same-Kept _ _ v refl refl))
    | inr d ↦ rw d (set_state-Kept now relay_connected "relay fallback after p2p timeout" m w)
  ])
  | no n ↦ rw (if_neg _ n) (same-Kept m m w refl refl)
]

callback_body-Kept :
    (now : ℤ) (o : Option Callback) (m : StateManager)
    → IsHistory m
    → Kept m (callback_body now o m)
unfolding callback_body mark_relay_connected
callback_body-Kept now none m w = same-Kept m m w refl refl
callback_body-Kept now (some on_timeout) m w = on_p2p_timeout-Kept now m w
callback_body-Kept now (some relay_fallback) m w = stop_set-Kept now relay_connected _ m w

step-Kept : (now : ℤ) (e : Event) (m : StateManager) → IsHistory m → Kept m (step now e m)
unfolding step begin_signaling mark_p2p_connected mark_relay_connected begin_reconnect close fire
    run_callback
step-Kept now signaling_began m w = set_state-Kept now signaling "signaling started" m w
step-Kept now p2p_began m w = begin_p2p-Kept now m w
step-Kept now p2p_marked m w = stop_set-Kept now p2p_connected "p2p connected" m w
step-Kept now reconnect_began m w = stop_set-Kept now reconnecting "reconnecting" m w
step-Kept now closing m w = stop_set-Kept now closed "closed" m w
step-Kept now (relay_marked reason) m w = stop_set-Kept now relay_connected _ m w
step-Kept now (timer_fired i) m w = same-Kept m _ w refl refl
step-Kept now (callback_ran i) m w =
    Kept-trans {b = record m { fired = remove_at i m.fired }} (same-Kept m _ w refl refl)
      (callback_body-Kept now (get_elem? m.fired i) _)

run-Kept : (es : List (ℤ × Event)) (m : StateManager) → IsHistory m → Kept m (run es m)
unfolding run
run-Kept [] m w = same-Kept m m w refl refl
run-Kept ((now, e) ∷ es) m w = Kept-trans (step-Kept now e m w) (run-Kept es (step now e m))

new-IsHistory : (now : ℤ) (cfg : ManagerConfig) → IsHistory (new_state_manager now cfg)
unfolding new_state_manager
new-IsHistory now cfg = record { current = refl; no_stutter = tt }

-- Whatever methods are called and whatever timers fire, from a new manager: the last entry of the
-- history is the current state and no two entries in a row have the same state; and any further
-- calls and timers only append to the history.
pub run-IsHistory :
    (now : ℤ) (cfg : ManagerConfig) (es later : List (ℤ × Event))
    → IsHistory (run es (new_state_manager now cfg))
      × Grows (run es (new_state_manager now cfg)) (run later (run es (new_state_manager now cfg)))
run-IsHistory now cfg es later =
    let w = (run-Kept es (new_state_manager now cfg) (new-IsHistory now cfg)).valid in
    (w, (run-Kept later (run es (new_state_manager now cfg)) w).grows)
