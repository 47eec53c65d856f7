-- ===== src/Agent/P2pSession/Events.antt =====
-- The manager of p2p_session.go and the calls of `Stop` under way, through starts, stops, rounds of the
-- loops and timers in any order.
use vibe_deck.Prelude.{
  ◌==◌, ◌+◌, ◌≤◌, if◌then◌else◌, ℕ, zero, suc, Option, none, some, List, [], ◌∷◌, length, get_elem?,
  ◌≡◌,
}
use vibe_deck.Runtime.StateManager.{Event, step}
use vibe_deck.Agent.ThreadStore.Disk.{unix_milli}
use vibe_deck.Webrtc.Bridge.{BridgePeer}
use vibe_deck.Agent.P2pSession.State.{P2pRuntime, P2pSessionManager, StartP2pRequest, StartCalls}
use vibe_deck.Agent.P2pSession.Lifecycle.{start, is_some_place, stop_take, stop_end, stop_show}
use vibe_deck.Agent.P2pSession.Loops.{Services, Round, run_round}
use vibe_deck.Agent.P2pSession.Flags.{flags, one_if, live_at, times}

-- What happens to the manager. A call of `Stop` is three events: `stop_taken` is its first locked
-- region, `stop_ended i` goes on to the end of the runtime at the place `i`, which it has taken, and
-- `stop_shown` is its last locked region. `round i r` is a round of a loop of the runtime at the
-- place `i`; `timed` is anything that the state manager does by itself.
pub data SessionEvent (P : BridgePeer) : Type 0 where
  starting : StartP2pRequest → StartCalls P → SessionEvent P
  stop_taken : SessionEvent P
  stop_ended : ℕ → SessionEvent P
  stop_shown : SessionEvent P
  round : ℕ → Round → SessionEvent P
  timed : Event → SessionEvent P

-- The manager and the calls of `Stop` under way: the places that those after their first region hold,
-- and the number of those before their last one.
pub record Sessions (P : BridgePeer) (O : Type 0) : Type 0 where
  pub manager : P2pSessionManager P O
  pub ending : List ℕ
  pub showing : ℕ

abbrev pub places : Option ℕ → List ℕ → List ℕ
places none ending = ending
places (some i) ending = i ∷ ending

abbrev pub and_keep : ℕ → Option (List ℕ) → Option (List ℕ)
and_keep j none = none
and_keep j (some rest) = some (j ∷ rest)

-- The list without its first `i`; none if it has none.
abbrev pub take_out : ℕ → List ℕ → Option (List ℕ)
take_out i [] = none
take_out i (j ∷ rest) = if j == i then some rest else and_keep j (take_out i rest)

-- A runtime is not cancelled exactly if it is the active one or a stop under way has taken it, and it
-- is not both, nor taken twice. If the status says active, a session is active or a stop is under
-- way.
pub record IsSessions {P : BridgePeer} {O : Type 0} (s : Sessions P O) : Type 0 where
  pub held :
      (i : ℕ) → live_at (flags s.manager.runtimes) i ≡ times i (places s.manager.active s.ending)
  pub shown :
      one_if s.manager.status.active
      ≤ one_if (is_some_place s.manager.active) + length s.ending + s.showing

module _ {P : BridgePeer} {O : Type 0} where
  abbrev pub taken : Option ℕ → Sessions P O → Sessions P O
  taken none s = s
  taken (some i) s = record s { manager = stop_take s.manager; ending = i ∷ s.ending }

  abbrev pub ended : ℕ → ℕ → Option (List ℕ) → Sessions P O → Sessions P O
  ended now i none s = s
  ended now i (some rest) s = record {
    manager = stop_end now i s.manager;
    ending = rest;
    showing = s.showing + 1;
  }

  abbrev pub shown : ℕ → ℕ → Sessions P O → Sessions P O
  shown now zero s = s
  shown now (suc n) s = record s { manager = stop_show now s.manager; showing = n }

module _ {P : BridgePeer} {O : Type 0} (services : Services O) where
  abbrev pub round_at :
      ℕ → ℕ → Option (P2pRuntime P) → Round → P2pSessionManager P O → P2pSessionManager P O
  round_at now i none r m = m
  round_at now i (some rt) r m = run_round services now i rt r m

  abbrev pub session_step : ℕ → SessionEvent P → Sessions P O → Sessions P O
  session_step now (starting req calls) s = record s { manager = (start now req calls s.manager).0 }
  session_step now stop_taken s = taken s.manager.active s
  session_step now (stop_ended i) s = ended now i (take_out i s.ending) s
  session_step now stop_shown s = shown now s.showing s
  session_step now (round i r) s = record s {
    manager = round_at now i (get_elem? s.manager.runtimes i) r s.manager;
  }
  session_step now (timed e) s = record s {
    manager = record s.manager { state_manager = step (unix_milli now) e s.manager.state_manager };
  }

  unfoldable pub run_session : List (ℕ × SessionEvent P) → Sessions P O → Sessions P O
  run_session [] s = s
  run_session ((now, e) ∷ rest) s = run_session rest (session_step now e s)
