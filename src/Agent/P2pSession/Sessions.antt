-- ===== src/Agent/P2pSession/Sessions.antt =====
-- Which sessions are live (p2p_session.go): starts, stops, rounds of the loops and timers in any order.
use vibe_deck.Prelude.{
  ◌==◌, ◌+◌, sym, ◌∙◌, length-append, ℕ, zero, suc, true, false, Option, none, some, List, [], ◌∷◌,
  ◌++◌, String, length, get_elem?, set, ◌≡◌, refl, ap, arith,
}
use vibe_deck.Protocol.Envelope.{Result, ok, err}
use vibe_deck.Runtime.StateManager.{
  StateManager, begin_reconnect, close, closed, reconnecting, stop_p2p_timer_locked,
}
use vibe_deck.Agent.ThreadStore.Disk.{unix_milli}
use vibe_deck.Runtime.StateManager.Timers.{set_state_locked-state}
use vibe_deck.Runtime.AckTracker.State.{AckTracker}
use vibe_deck.Webrtc.Bridge.{BridgePeer, SignalBridge}
use vibe_deck.Agent.P2pSession.State.{
  P2pRuntime, P2pSessionManager, StartP2pRequest, StartCalls, Opened, opened, failed, open_runtime,
  create_pairing, open_bridge, open_pairing, PairingCreateResponse,
}
use vibe_deck.Agent.P2pSession.Lifecycle.{
  update_state_snapshot, may_start, base_url, install, finish_start, start, new_p2p_session_manager,
  end_runtime, stop_runtime, stop,
}
use vibe_deck.Agent.P2pSession.Loops.{
  Services, Round, peer_state, peer_disconnected, on_peer_state, run_round,
}
use vibe_deck.Agent.P2pSession.Flags.{
  flags, one_if, live_at-absent, flags-set, flags-append, live_at-append, Same, set_last_error-Same,
}
use vibe_deck.Agent.P2pSession.Rounds.{run_round-Same}
use vibe_deck.Agent.P2pSession.Events.{
  SessionEvent, starting, stop_taken, stop_ended, stop_shown, round, timed, Sessions, take_out,
  IsSessions, round_at, taken, ended, shown, session_step, run_session,
}
use vibe_deck.Agent.P2pSession.Places.{take_out-times, times-places, cancelled_place}

abbrev IsFresh : {P : BridgePeer} → Opened P → Type 0
IsFresh (opened rt) = rt.cancelled ≡ false
IsFresh (failed message e) = Unit

open_bridge-IsFresh :
    {P : BridgePeer}
    → (p : PairingCreateResponse) (url : String) (r : Result (SignalBridge P))
    → IsFresh (open_bridge {P = P} p url r)
open_bridge-IsFresh p url (ok bridge) = refl
open_bridge-IsFresh p url (err e) = tt

open_pairing-IsFresh :
    (P : BridgePeer) (pairing : Result PairingCreateResponse) (url : Result String)
    (dialled : Option String) (peer : Result P.State)
    → IsFresh (open_pairing {P = P} pairing url dialled peer)
open_pairing-IsFresh P (err e) url dialled peer = tt
open_pairing-IsFresh P (ok p) (err e) dialled peer = tt
open_pairing-IsFresh P (ok p) (ok url) (some e) peer = tt
open_pairing-IsFresh P (ok p) (ok url) none (err e) = tt
open_pairing-IsFresh P (ok p) (ok url) none (ok peer) = open_bridge-IsFresh p url _

module _ {P : BridgePeer} {O : Type 0} where
  may_start_idle : (m : P2pSessionManager P O) → m.active ≡ none → may_start m ≡ true
  unfolding may_start
  may_start_idle m e = rw e refl

  may_start_busy : (m : P2pSessionManager P O) (i : ℕ) → m.active ≡ some i → may_start m ≡ false
  unfolding may_start
  may_start_busy m i e = rw e refl

module _ {P : BridgePeer} {O : Type 0} (services : Services O) where
  Same-IsSessions :
      (s : Sessions P O) (m : P2pSessionManager P O)
      → Same s.manager m
      → IsSessions s
      → IsSessions (record s { manager = m })
  Same-IsSessions s m same w = record {
    held = λ i. rw (same.cancelled, same.active) (w.held i);
    shown = rw (same.shown, same.active) w.shown;
  }

  round_at-IsSessions :
      (now i : ℕ) (found : Option (P2pRuntime P)) (r : Round) (s : Sessions P O)
      → get_elem? s.manager.runtimes i ≡ found
      → IsSessions s
      → IsSessions (record s { manager = round_at services now i found r s.manager })
  round_at-IsSessions now i none r s e w = w
  round_at-IsSessions now i (some rt) r s e w =
      Same-IsSessions s _ (run_round-Same services now i rt r s.manager e) w

  install-IsSessions :
      (now : ℕ) (url : String) (rt : P2pRuntime P) (s : Sessions P O)
      → rt.cancelled ≡ false
      → s.manager.active ≡ none
      → IsSessions s
      → IsSessions (record s { manager = install now url rt s.manager })
  unfolding install update_state_snapshot
  install-IsSessions now url rt s fresh idle w = record {
    held = λ i.
        rw (flags-append s.manager.runtimes rt, fresh)
          (omega (arith, live_at-append s.manager.runtimes i, rw idle at (w.held i)));
    shown = omega arith;
  }

  finish_start-IsSessions :
      (now : ℕ) (url : String) (o : Opened P) (s : Sessions P O)
      → IsFresh o
      → s.manager.active ≡ none
      → IsSessions s
      → IsSessions (record s { manager = (finish_start now url o s.manager).0 })
  unfolding finish_start
  finish_start-IsSessions now url (opened rt) s fresh idle w =
      install-IsSessions now url rt s fresh idle w
  finish_start-IsSessions now url (failed message e) s fresh idle w =
      Same-IsSessions s _ (set_last_error-Same now message s.manager) w

  start-IsSessions :
      (now : ℕ) (req : StartP2pRequest) (calls : StartCalls P) (s : Sessions P O)
      (active : Option ℕ)
      → s.manager.active ≡ active
      → IsSessions s
      → IsSessions (record s { manager = (start now req calls s.manager).0 })
  unfolding start open_runtime
  start-IsSessions now req calls s none e w = rw (may_start_idle s.manager e) (
      finish_start-IsSessions now (base_url req s.manager) (open_runtime calls) s
        (open_pairing-IsFresh P (create_pairing calls.pairing) calls.ws_url calls.dialled
          calls.peer)
        e w)
  start-IsSessions now req calls s (some i) e w = rw (may_start_busy s.manager i e) w

  taken-IsSessions :
      (active : Option ℕ) (s : Sessions P O)
      → s.manager.active ≡ active
      → IsSessions s
      → IsSessions (taken active s)
  taken-IsSessions none s e w = w
  taken-IsSessions (some i) s e w = record {
    held = λ k. rw e at (w.held k);
    shown = omega (arith, rw e at w.shown);
  }

  end-IsSessions :
      (now i : ℕ) (found : Option (P2pRuntime P)) (rest : List ℕ) (s : Sessions P O)
      → get_elem? s.manager.runtimes i ≡ found
      → take_out i s.ending ≡ some rest
      → IsSessions s
      → IsSessions (record {
        manager = stop_runtime now i found s.manager;
        ending = rest;
        showing = s.showing + 1;
      })
  unfolding update_state_snapshot
  end-IsSessions now i none rest s f h w =
      let (size, each) = take_out-times i s.ending rest h in
      let same : (i == i) ≡ true = ground arith in
      absurd (
        omega (
          arith,
          live_at-absent s.manager.runtimes i f,
          w.held i,
          each i,
          times-places i s.manager.active s.ending,
          ap one_if same,
        ))
  end-IsSessions now i (some rt) rest s f h w =
      let (size, each) = take_out-times i s.ending rest h in
      record {
        held = λ k. rw (flags-set s.manager.runtimes i (end_runtime rt)) (
            cancelled_place (flags s.manager.runtimes) s.manager.active i k s.ending rest (w.held k)
              (each k));
        shown = omega (arith, size, w.shown);
      }

  ended-IsSessions :
      (now i : ℕ) (out : Option (List ℕ)) (s : Sessions P O)
      → take_out i s.ending ≡ out
      → IsSessions s
      → IsSessions (ended now i out s)
  ended-IsSessions now i none s h w = w
  ended-IsSessions now i (some rest) s h w =
      end-IsSessions now i (get_elem? s.manager.runtimes i) rest s refl h w

  shown-IsSessions : (now n : ℕ) (s : Sessions P O) → IsSessions s → IsSessions (shown now n s)
  shown-IsSessions now zero s w = w
  shown-IsSessions now (suc n) s w = record { held = w.held; shown = omega arith }

  step-IsSessions :
      (now : ℕ) (e : SessionEvent P) (s : Sessions P O)
      → IsSessions s
      → IsSessions (session_step services now e s)
  step-IsSessions now (starting req calls) s w =
      start-IsSessions now req calls s s.manager.active refl w
  step-IsSessions now stop_taken s w = taken-IsSessions s.manager.active s refl w
  step-IsSessions now (stop_ended i) s w = ended-IsSessions now i (take_out i s.ending) s refl w
  step-IsSessions now stop_shown s w = shown-IsSessions now s.showing s w
  step-IsSessions now (round i r) s w =
      round_at-IsSessions now i (get_elem? s.manager.runtimes i) r s refl w
  step-IsSessions now (timed e) s w = record { held = w.held; shown = w.shown }

  run-IsSessions :
      (events : List (ℕ × SessionEvent P)) (s : Sessions P O)
      → IsSessions s
      → IsSessions (run_session services events s)
  unfolding run_session
  run-IsSessions [] s w = w
  run-IsSessions ((now, e) ∷ rest) s w =
      run-IsSessions rest (session_step services now e s) (step-IsSessions now e s w)

  -- After any starts, stops, rounds of loops and timers of a new manager, where starts and other stops
  -- may come in between the parts of a stop, but no start comes in between the two halves of another:
  -- the runtimes that are not cancelled are the active one and those that a stop under way has
  -- taken, each of them once; and if the status says active, then a session is active or a stop is
  -- under way.
  pub run_session-IsSessions :
      (events : List (ℕ × SessionEvent P)) (now : ℕ) (state_manager : StateManager)
      (ack_tracker : Option AckTracker) (orchestrator : Option O) (url : String)
      → IsSessions (
          run_session services events (record {
            manager = new_p2p_session_manager now state_manager ack_tracker orchestrator url;
            ending = [];
            showing = 0;
          }))
  unfolding new_p2p_session_manager
  run_session-IsSessions events now state_manager ack_tracker orchestrator url =
      run-IsSessions events _ (record { held = λ i. refl; shown = omega arith })

get_elem?-end :
    {P : BridgePeer}
    → (xs : List (P2pRuntime P)) (x : P2pRuntime P) → get_elem? (xs ++ x ∷ []) (length xs) ≡ some x
get_elem?-end [] x = refl
get_elem?-end (y ∷ xs) x = get_elem?-end xs x

second_set :
    {P : BridgePeer}
    → (xs : List (P2pRuntime P)) (b c : P2pRuntime P)
    → get_elem? (set (xs ++ b ∷ []) (length xs) c) (length xs) ≡ some c
second_set [] b c = refl
second_set (x ∷ xs) b c = second_set xs b c

first_stays :
    {P : BridgePeer}
    → (xs : List (P2pRuntime P)) (a b c : P2pRuntime P)
    → get_elem? (set ((xs ++ a ∷ []) ++ b ∷ []) (length (xs ++ a ∷ [])) c) (length xs) ≡ some a
first_stays [] a b c = refl
first_stays (x ∷ xs) a b c = first_stays xs a b c

-- Let two starts both pass the check of one manager, and both open a runtime. The first then installs
-- its own, as if it were alone; the second, which is past its check, goes on after it. Both succeed,
-- the runtime of the second stands behind that of the first and is the active one, and a stop
-- afterwards succeeds, cancels the second and closes its connections. No session is active then, but
-- the runtime of the first stays as it was opened.
pub start_twice :
    {P : BridgePeer} {O : Type 0}
    → (now : ℕ) (req req' : StartP2pRequest) (calls calls' : StartCalls P)
      (first second : P2pRuntime P) (m : P2pSessionManager P O)
    → may_start m ≡ true
    → open_runtime calls ≡ opened first
    → open_runtime calls' ≡ opened second
    → let one = start now req calls m in
      let two = finish_start now (base_url req' m) (open_runtime calls') one.0 in
      let s = stop now two.0 in
      let i = length m.runtimes in
      (one.1 ≡ none)
      × (two.1 ≡ none)
      × (two.0.active ≡ some (i + 1))
      × (get_elem? two.0.runtimes (i + 1) ≡ some second)
      × (s.1 ≡ none)
      × (s.0.active ≡ none)
      × (get_elem? s.0.runtimes (i + 1)
          ≡ some (record second { cancelled = true; ws_closed = true; peer_closed = true }))
      × (get_elem? s.0.runtimes i ≡ some first)
unfolding start finish_start install stop update_state_snapshot
start_twice now req req' calls calls' first second m h o o' =
    let xs = m.runtimes ++ first ∷ [] in
    let n : length xs ≡ length m.runtimes + 1 = length-append m.runtimes (first ∷ []) in
    let found = get_elem?-end xs second in
    rw (h, o, o', found)
      (
        refl,
        refl,
        ap some n,
        ap (λ (k : ℕ). get_elem? (xs ++ second ∷ []) k) (sym n) ∙ found,
        refl,
        refl,
        ap (λ (k : ℕ). get_elem? (set (xs ++ second ∷ []) (length xs) (end_runtime second)) k)
              (sym n)
            ∙ second_set xs second (end_runtime second),
        first_stays m.runtimes first second (end_runtime second),
      )

-- After a stop of the active session the loop over its peer's states may still take a state: a
-- lost connection then moves the closed state manager to RECONNECTING, and the status shows that,
-- though no session is active.
pub stop_then_disconnect :
    {P : BridgePeer} {O : Type 0}
    → (services : Services O) (now later i : ℕ) (rt : P2pRuntime P) (m : P2pSessionManager P O)
    → m.active ≡ some i
    → get_elem? m.runtimes i ≡ some rt
    → let s = (stop now m).0 in
      let m' = run_round services later i (end_runtime rt) (peer_state peer_disconnected) s in
      (s.state_manager.state ≡ closed)
      × (s.status.active ≡ false)
      × (m'.active ≡ none)
      × (m'.status.active ≡ false)
      × (m'.state_manager.state ≡ reconnecting)
      × (m'.status.state ≡ reconnecting)
unfolding stop run_round on_peer_state update_state_snapshot begin_reconnect close
stop_then_disconnect services now later i rt m a f =
    rw (a, f)
      (
        set_state_locked-state (unix_milli now) closed "closed"
            (stop_p2p_timer_locked m.state_manager),
        refl,
        refl,
        refl,
        set_state_locked-state (unix_milli later) reconnecting "reconnecting" _,
        set_state_locked-state (unix_milli later) reconnecting "reconnecting" _,
      )
