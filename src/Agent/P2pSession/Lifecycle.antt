-- ===== src/Agent/P2pSession/Lifecycle.antt =====
-- p2p_session.go: what starts and ends a session, and its status.
use vibe_deck.Prelude.{
  ℕ, pos, Bool, true, false, Option, none, some, [], ◌∷◌, ◌++◌, String, str_eq, if◌then◌else◌,
  length, get_elem?, set,
}
use vibe_deck.Text.{trim_space}
use vibe_deck.Runtime.StateManager.{StateManager, begin_signaling, close}
use vibe_deck.Runtime.AckTracker.State.{AckTracker, transport_p2p}
use vibe_deck.Runtime.AckTracker.Sweeps.{forget_by_session_transport}
use vibe_deck.Control.Router.{new_control_router}
use vibe_deck.Webrtc.Bridge.{BridgePeer}
use vibe_deck.Agent.ControlMetrics.{ControlMetrics}
use vibe_deck.Agent.ThreadStore.Disk.{unix_milli}
use vibe_deck.Agent.P2pSession.State.{
  StartP2pRequest, P2pSessionStatus, P2pRuntime, P2pSessionManager, StartCalls, Opened,
  open_runtime, opened, failed,
}

abbrev pub is_some_place : Option ℕ → Bool
is_some_place none = false
is_some_place (some i) = true

abbrev pub forget_acks : String → Option AckTracker → Option AckTracker
forget_acks session_id none = none
forget_acks session_id (some t) = some (forget_by_session_transport session_id transport_p2p t)

abbrev pub end_runtime : {P : BridgePeer} → P2pRuntime P → P2pRuntime P
end_runtime rt = record rt { cancelled = true; ws_closed = true; peer_closed = true }

abbrev pub inactive : ℕ → P2pSessionStatus → P2pSessionStatus
inactive now s = record s {
  active = false;
  session_id = "";
  pairing_code = "";
  expires_at = pos 0;
  updated_at = unix_milli now;
}

module _ {P : BridgePeer} {O : Type 0} where
  unfoldable pub new_p2p_session_manager :
      ℕ → StateManager → Option AckTracker → Option O → String → P2pSessionManager P O
  unfolding new_control_router
  new_p2p_session_manager now state_manager ack_tracker orchestrator url = record {
    state_manager = state_manager;
    control_metrics = none;
    control_router = new_control_router orchestrator ack_tracker;
    default_signaling_base_url =
        if str_eq (trim_space url) "" then "http://127.0.0.1:8081" else url;
    runtimes = [];
    active = none;
    status = record {
      active = false;
      session_id = "";
      pairing_code = "";
      expires_at = pos 0;
      signaling_base_url = "";
      state = state_manager.state;
      last_error = "";
      updated_at = unix_milli now;
    };
    started = false;
  }

  unfoldable pub set_control_metrics :
      Option ControlMetrics → P2pSessionManager P O → P2pSessionManager P O
  set_control_metrics metrics m = record m { control_metrics = metrics }

  unfoldable pub set_last_error : ℕ → String → P2pSessionManager P O → P2pSessionManager P O
  set_last_error now message m = record m {
    status = record m.status {
      last_error = message;
      state = m.state_manager.state;
      updated_at = unix_milli now;
    };
  }

  unfoldable pub update_state_snapshot : ℕ → P2pSessionManager P O → P2pSessionManager P O
  update_state_snapshot now m = record m {
    status = record m.status { state = m.state_manager.state; updated_at = unix_milli now };
  }

  unfoldable pub status_of : ℕ → P2pSessionManager P O → P2pSessionManager P O × P2pSessionStatus
  unfolding update_state_snapshot
  status_of now m = let m' = if m.started then update_state_snapshot now m else m in (m', m'.status)

  -- m.stateManager.X(); m.updateStateSnapshot()
  abbrev pub in_state_manager :
      ℕ → (StateManager → StateManager) → P2pSessionManager P O → P2pSessionManager P O
  in_state_manager now f m =
      update_state_snapshot now (record m { state_manager = f m.state_manager })

  -- The first locked region of `Start`: it goes on if there is no active session.
  unfoldable pub may_start : P2pSessionManager P O → Bool
  may_start m = elim (is_some_place m.active) [ true ↦ false | false ↦ true ]

  unfoldable pub base_url : StartP2pRequest → P2pSessionManager P O → String
  base_url req m =
      let url = trim_space req.signaling_base_url in
      if str_eq url "" then m.default_signaling_base_url else url

  -- The second locked region, and what follows it.
  unfoldable pub install : ℕ → String → P2pRuntime P → P2pSessionManager P O → P2pSessionManager P O
  install now url rt m = in_state_manager now (begin_signaling (unix_milli now)) (record m {
    runtimes = m.runtimes ++ rt ∷ [];
    active = some (length m.runtimes);
    started = true;
    status = record {
      active = true;
      session_id = rt.session_id;
      pairing_code = rt.pairing_code;
      expires_at = rt.expires_at;
      signaling_base_url = url;
      state = m.state_manager.state;
      last_error = "";
      updated_at = unix_milli now;
    };
  })

  -- From the first region's check on.
  unfoldable pub finish_start :
      ℕ → String → Opened P → P2pSessionManager P O → P2pSessionManager P O × Option String
  finish_start now url (failed message e) m = (set_last_error now message m, some e)
  finish_start now url (opened rt) m = (install now url rt m, none)

  unfoldable pub start :
      ℕ
      → StartP2pRequest
      → StartCalls P
      → P2pSessionManager P O
      → P2pSessionManager P O × Option String
  start now req calls m =
      if may_start m
      then finish_start now (base_url req m) (open_runtime calls) m
      else (m, some "p2p session already active")

  -- `Stop` in its parts. Its first locked region takes the active runtime away; `i` is its place.
  abbrev pub stop_take : P2pSessionManager P O → P2pSessionManager P O
  stop_take m = record m { active = none }

  -- What follows without the lock: the runtime is cancelled, its messages are forgotten, its
  -- connections are closed, and the state manager is closed.
  abbrev pub stop_runtime :
      ℕ → ℕ → Option (P2pRuntime P) → P2pSessionManager P O → P2pSessionManager P O
  stop_runtime now i none m = m
  stop_runtime now i (some rt) m = in_state_manager now (close (unix_milli now)) (record m {
    runtimes = set m.runtimes i (end_runtime rt);
    control_router = record m.control_router {
      ack_tracker = forget_acks rt.session_id m.control_router.ack_tracker;
    };
  })

  abbrev pub stop_end : ℕ → ℕ → P2pSessionManager P O → P2pSessionManager P O
  stop_end now i m = stop_runtime now i (get_elem? m.runtimes i) m

  -- The last locked region.
  abbrev pub stop_show : ℕ → P2pSessionManager P O → P2pSessionManager P O
  stop_show now m = record m { status = inactive now m.status }

  abbrev pub stop_active :
      ℕ → Option ℕ → P2pSessionManager P O → P2pSessionManager P O × Option String
  stop_active now none m = (m, some "p2p session is not active")
  stop_active now (some i) m = (stop_show now (stop_end now i (stop_take m)), none)

  -- The parts with nothing in between.
  unfoldable pub stop : ℕ → P2pSessionManager P O → P2pSessionManager P O × Option String
  stop now m = stop_active now m.active m
