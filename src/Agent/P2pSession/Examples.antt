-- ===== src/Agent/P2pSession/Examples.antt =====
-- A manager of peer-to-peer sessions on concrete values.
use vibe_deck.Prelude.{
  ℕ, suc, pos, true, none, some, List, [], ◌∷◌, String, ◌≡◌, refl, false, get_elem?,
}
use vibe_deck.Protocol.Envelope.{ok, err}
use vibe_deck.Protocol.TestCodec.{test_codec}
use vibe_deck.Runtime.StateManager.{new_state_manager, default_manager_config, closed, reconnecting}
use vibe_deck.Webrtc.Bridge.{BridgePeer, side_pc, fresh_bridge, new_signal_bridge}
use vibe_deck.Agent.ControlMetrics.{other_error}
use vibe_deck.Agent.P2pSession.State.{
  P2pRuntime, P2pSessionManager, StartCalls, answered, PairingCreateResponse, StartP2pRequest,
  open_runtime, create_pairing,
}
use vibe_deck.Agent.P2pSession.Lifecycle.{
  new_p2p_session_manager, finish_start, stop, end_runtime, start, base_url, may_start,
}
use vibe_deck.Agent.P2pSession.Loops.{
  Services, ws_read, peer_state, peer_connected, peer_disconnected, run_round,
}
use vibe_deck.Agent.P2pSession.Events.{
  SessionEvent, starting, stop_taken, stop_ended, stop_shown, round, run_session, IsSessions,
}
use vibe_deck.Agent.P2pSession.Sessions.{run_session-IsSessions, start_twice, stop_then_disconnect}

abbrev plain_peer : BridgePeer
plain_peer = record {
  State = ℕ;
  create_offer = λ n. (n, ok "v=0");
  apply_offer_and_create_answer = λ sdp n. (n, ok sdp);
  apply_answer = λ sdp n. (n, none);
  add_remote_ice_candidate = λ c n. (n, none);
}

-- An orchestrator that answers nothing and counts its envelopes.
abbrev services : Services ℕ
services = record {
  codec = test_codec;
  command = λ env n. (suc n, [], none);
  observed = λ e. other_error;
}

abbrev pairing_answer : PairingCreateResponse
pairing_answer = record {
  code = "AB12CD";
  session_id = "s1";
  pc_device_key = "k";
  expires_at = pos 9;
}

abbrev calls : StartCalls plain_peer
calls = record {
  pairing = answered 201 (ok pairing_answer);
  ws_url = ok "ws://h/v1/sessions/s1/ws";
  dialled = none;
  peer = ok 0;
}

abbrev manager : P2pSessionManager plain_peer ℕ
manager =
    new_p2p_session_manager 5000000 (new_state_manager (pos 5) default_manager_config) none (some 0)
      ""

abbrev events : List (ℕ × SessionEvent plain_peer)
events =
    (6000000, starting (record { signaling_base_url = "" }) calls)
    ∷ (7000000, round 0 (peer_state peer_connected))
    ∷ (8000000, round 0 (ws_read (err "closed")))
    ∷ (9000000, stop_taken)
    ∷ (9000000, starting (record { signaling_base_url = "" }) calls)
    ∷ (9000000, stop_ended 0)
    ∷ (9000000, stop_shown)
    ∷ []

run_session-IsSessions_example :
    IsSessions
      (run_session services events (record { manager = manager; ending = []; showing = 0 }))
run_session-IsSessions_example =
    run_session-IsSessions services events 5000000
      (new_state_manager (pos 5) default_manager_config) none (some 0) ""

abbrev runtime : String → P2pRuntime plain_peer
runtime id = record {
  session_id = id;
  pairing_code = "AB12CD";
  expires_at = pos 9;
  ws_url = "ws://h/v1/sessions/s1/ws";
  bridge = fresh_bridge id side_pc 0;
  cancelled = false;
  ws_closed = false;
  peer_closed = false;
  reading = true;
  writing = true;
  replying = true;
  retrying = true;
}

abbrev calls_again : StartCalls plain_peer
calls_again = record calls {
  pairing = answered 201 (ok (record pairing_answer { session_id = "s2" }));
}

abbrev request : StartP2pRequest
request = record { signaling_base_url = "" }

start_twice_example :
    let one = start 7 request calls manager in
    let two = finish_start 7 (base_url request manager) (open_runtime calls_again) one.0 in
    let s = stop 7 two.0 in
    (one.1 ≡ none)
    × (two.1 ≡ none)
    × (two.0.active ≡ some 1)
    × (get_elem? two.0.runtimes 1 ≡ some (runtime "s2"))
    × (s.1 ≡ none)
    × (s.0.active ≡ none)
    × (get_elem? s.0.runtimes 1
        ≡ some (record (runtime "s2") { cancelled = true; ws_closed = true; peer_closed = true }))
    × (get_elem? s.0.runtimes 0 ≡ some (runtime "s1"))
unfolding new_p2p_session_manager may_start open_runtime new_signal_bridge create_pairing
start_twice_example =
    start_twice 7 request request calls calls_again (runtime "s1") (runtime "s2") manager refl refl
      refl

abbrev serving : P2pSessionManager plain_peer ℕ
serving = record manager { runtimes = runtime "s1" ∷ []; active = some 0 }

stop_then_disconnect_example :
    let s = (stop 7 serving).0 in
    let m' = run_round services 8 0 (end_runtime (runtime "s1")) (peer_state peer_disconnected) s in
    (s.state_manager.state ≡ closed)
    × (s.status.active ≡ false)
    × (m'.active ≡ none)
    × (m'.status.active ≡ false)
    × (m'.state_manager.state ≡ reconnecting)
    × (m'.status.state ≡ reconnecting)
stop_then_disconnect_example = stop_then_disconnect services 7 8 0 (runtime "s1") serving refl refl
