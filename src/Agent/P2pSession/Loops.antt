-- ===== src/Agent/P2pSession/Loops.antt =====
-- p2p_session.go: the loops of a session. Each function is one round of a loop that the runtime at the
-- place `i` started; a loop that has returned takes no further round.
use Prim.Native.String.{◌++◌ as concat}
use vibe_deck.Prelude.{
  ℕ, ℤ, Bool, true, false, not, ◌&&◌, Option, none, some, List, [], ◌∷◌, String, str_eq,
  if◌then◌else◌, set,
}
use vibe_deck.Text.{decimal}
use vibe_deck.Protocol.Models.{MessageType, signal_offer}
use vibe_deck.Protocol.Envelope.{Envelope, Codec, Result, ok, err, validate}
use vibe_deck.Runtime.StateManager.{begin_p2p, begin_reconnect, mark_p2p_connected}
use vibe_deck.Runtime.AckTracker.State.{
  AckTracker, PendingAck, TrackedAck, AckRetryBatch, transport_p2p,
}
use vibe_deck.Runtime.AckTracker.Sweeps.{due_retries}
use vibe_deck.Control.Router.{
  ControlRouter, ControlHandleResult, is_cmd_ack, handle_envelope, register_ackable_responses,
}
use vibe_deck.Webrtc.Bridge.{BridgePeer, SignalBridge, inbound_envelope}
use vibe_deck.Agent.ControlMetrics.{ControlMetrics, Observed, control_path_p2p, observe}
use vibe_deck.Agent.ThreadStore.Disk.{unix_milli}
use vibe_deck.Agent.P2pSession.State.{P2pRuntime, P2pSessionManager}
use vibe_deck.Agent.P2pSession.Lifecycle.{set_last_error, in_state_manager}

-- webrtc.PeerState
pub data PeerState : Type 0 where
  peer_new peer_connecting peer_connected peer_disconnected peer_failed peer_closed : PeerState

-- What the router and the metrics take from outside: the codec, the orchestrator's handler, and
-- whether an error is a deadline's.
pub record Services (O : Type 0) : Type 0 where
  pub codec : Codec
  pub command : Envelope → O → O × List Envelope × Option String
  pub observed : Option String → Observed

abbrev pub retry_exhausted_text : PendingAck → String
retry_exhausted_text p = concat "ack retry exhausted: rid=" (
    concat p.rid
      (concat " type=" (concat p.message_type (concat " retries=" (decimal p.retry_count)))))

abbrev pub retry_failed_text : PendingAck → String → String
retry_failed_text p e =
    concat "ack retry send failed: rid="
      (concat p.rid (concat " attempt=" (concat (decimal p.retry_count) (concat " err=" e))))

-- p.Transport != AckTransportP2P || p.SID != rt.sessionID, negated
abbrev pub is_mine : String → PendingAck → Bool
is_mine session_id p = str_eq p.transport transport_p2p && str_eq p.sid session_id

abbrev pub observe_in : MessageType → ℤ → Observed → Option ControlMetrics → Option ControlMetrics
observe_in kind duration observed none = none
observe_in kind duration observed (some metrics) =
    some (observe kind control_path_p2p duration observed metrics)

module _ {P : BridgePeer} {O : Type 0} where
  abbrev pub put_runtime : ℕ → P2pRuntime P → P2pSessionManager P O → P2pSessionManager P O
  put_runtime i rt m = record m { runtimes = set m.runtimes i rt }

  abbrev pub note_inbound :
      ℕ
      → ℕ
      → P2pRuntime P
      → SignalBridge P × Option String
      → P2pSessionManager P O
      → P2pSessionManager P O
  note_inbound now i rt (bridge, none) m = put_runtime i (record rt { bridge = bridge }) m
  note_inbound now i rt (bridge, some e) m =
      set_last_error now (concat "bridge inbound failed: " e)
        (put_runtime i (record rt { bridge = bridge }) m)

  -- setLastError, BeginReconnect and updateStateSnapshot
  unfoldable pub reconnect_after : ℕ → String → P2pSessionManager P O → P2pSessionManager P O
  reconnect_after now message m =
      in_state_manager now (begin_reconnect (unix_milli now)) (set_last_error now message m)

  -- `read` is the result of ReadJSON.
  abbrev pub ws_read_checked :
      ℕ
      → ℕ
      → P2pRuntime P
      → Envelope
      → Option String
      → P2pSessionManager P O
      → P2pSessionManager P O
  ws_read_checked now i rt env (some e) m = m
  ws_read_checked now i rt env none m = note_inbound now i rt (inbound_envelope env rt.bridge) m

  abbrev pub ws_read_result :
      ℕ → ℕ → P2pRuntime P → Result Envelope → P2pSessionManager P O → P2pSessionManager P O
  ws_read_result now i rt (ok env) m = ws_read_checked now i rt env (validate env) m
  ws_read_result now i rt (err e) m =
      let m1 = put_runtime i (record rt { reading = false }) m in
      if rt.cancelled then m1 else reconnect_after now (concat "signaling ws read failed: " e) m1

  -- case env := <-rt.bridge.Outbound(); `written` is the result of WriteJSON
  abbrev pub begin_p2p_if : ℕ → MessageType → P2pSessionManager P O → P2pSessionManager P O
  begin_p2p_if now signal_offer m = in_state_manager now (begin_p2p (unix_milli now)) m
  begin_p2p_if now kind m = m

  abbrev pub ws_write_result :
      ℕ → ℕ → P2pRuntime P → Option String → P2pSessionManager P O → P2pSessionManager P O
  ws_write_result now i rt none m = m
  ws_write_result now i rt (some e) m =
      let m1 = put_runtime i (record rt { writing = false }) m in
      if rt.cancelled then m1 else reconnect_after now (concat "signaling ws write failed: " e) m1

  abbrev pub ws_write_next :
      ℕ
      → ℕ
      → P2pRuntime P
      → List Envelope
      → Option String
      → P2pSessionManager P O
      → P2pSessionManager P O
  ws_write_next now i rt [] written m = m
  ws_write_next now i rt (env ∷ rest) written m =
      let rt' = record rt { bridge = record rt.bridge { outbound = rest } } in
      ws_write_result now i rt' written (begin_p2p_if now env.kind (put_runtime i rt' m))

  -- case err := <-rt.bridge.Errors()
  abbrev pub bridge_error_next :
      ℕ → ℕ → P2pRuntime P → List String → P2pSessionManager P O → P2pSessionManager P O
  bridge_error_next now i rt [] m = m
  bridge_error_next now i rt (e ∷ rest) m =
      reconnect_after now (concat "bridge runtime error: " e)
        (put_runtime i (record rt { bridge = record rt.bridge { errors = rest } }) m)

  -- case state := <-rt.peer.States()
  unfoldable pub on_peer_state : ℕ → PeerState → P2pSessionManager P O → P2pSessionManager P O
  on_peer_state now peer_connected m = in_state_manager now (mark_p2p_connected (unix_milli now)) m
  on_peer_state now peer_disconnected m = in_state_manager now (begin_reconnect (unix_milli now)) m
  on_peer_state now peer_failed m = in_state_manager now (begin_reconnect (unix_milli now)) m
  on_peer_state now _ m = m

  -- The loop over the responses; `send` is the result of sending each.
  abbrev pub send_responses :
      ℕ
      → ℕ
      → P2pRuntime P
      → (Envelope → Option String)
      → List Envelope
      → P2pSessionManager P O
      → P2pSessionManager P O
  send_responses now i rt send [] m = m
  send_responses now i rt send (response ∷ rest) m = elim (send response) [
    | some e ↦
        let m1 = put_runtime i (record rt { replying = false }) m in
        if rt.cancelled
        then m1
        else reconnect_after now (concat "send control response failed: " e) m1
    | none ↦ send_responses now i rt send rest (record m {
      control_router = record m.control_router {
        ack_tracker =
            register_ackable_responses now m.control_router.ack_tracker (response ∷ [])
              transport_p2p true;
      };
    })
  ]

  abbrev pub note_failed : ℕ → Option String → P2pSessionManager P O → P2pSessionManager P O
  note_failed now none m = m
  note_failed now (some e) m = set_last_error now (concat "control envelope handling failed: " e) m

  -- `duration` is how long the handler took.
  abbrev pub handled :
      Services O
      → ℕ
      → ℤ
      → ℕ
      → P2pRuntime P
      → (Envelope → Option String)
      → Envelope
      → ControlRouter O × ControlHandleResult × Option String
      → P2pSessionManager P O
      → P2pSessionManager P O
  handled services now duration i rt send env (router, result, error) m =
      let m1 = record m { control_router = router } in
      if is_cmd_ack env.kind
      then note_failed now error m1
      else send_responses now i rt send result.responses (
          note_failed now error (record m1 {
            control_metrics =
                observe_in env.kind duration (services.observed error) m1.control_metrics;
          }))

  abbrev pub peer_message_checked :
      Services O
      → ℕ
      → ℤ
      → ℕ
      → P2pRuntime P
      → (Envelope → Option String)
      → Envelope
      → Option String
      → P2pSessionManager P O
      → P2pSessionManager P O
  peer_message_checked services now duration i rt send env (some e) m =
      set_last_error now (concat "invalid control envelope: " e) m
  peer_message_checked services now duration i rt send env none m =
      if not (str_eq env.sid rt.session_id)
      then set_last_error now
          (concat "control envelope sid mismatch: expected="
            (concat rt.session_id (concat " got=" env.sid)))
          m
      else handled services now duration i rt send env
          (handle_envelope services.codec services.command now env m.control_router) m

  -- `message` is the decoded message of the peer.
  unfoldable pub on_peer_message :
      Services O
      → ℕ
      → ℤ
      → ℕ
      → P2pRuntime P
      → (Envelope → Option String)
      → Result Envelope
      → P2pSessionManager P O
      → P2pSessionManager P O
  on_peer_message services now duration i rt send (err e) m =
      set_last_error now (concat "decode control envelope failed: " e) m
  on_peer_message services now duration i rt send (ok env) m =
      peer_message_checked services now duration i rt send env (validate env) m

  abbrev pub note_exhausted :
      ℕ → String → List PendingAck → P2pSessionManager P O → P2pSessionManager P O
  note_exhausted now session_id [] m = m
  note_exhausted now session_id (p ∷ rest) m =
      note_exhausted now session_id rest
        (if is_mine session_id p then reconnect_after now (retry_exhausted_text p) m else m)

  abbrev pub send_retries :
      ℕ
      → ℕ
      → P2pRuntime P
      → (Envelope → Option String)
      → List TrackedAck
      → P2pSessionManager P O
      → P2pSessionManager P O
  send_retries now i rt send [] m = m
  send_retries now i rt send (r ∷ rest) m =
      let later = send_retries now i rt send rest m in
      elim (is_mine rt.session_id r.pending) [
        | false ↦ later
        | true ↦ elim (send r.envelope) [
          | none ↦ later
          | some e ↦
              let m1 = put_runtime i (record rt { retrying = false }) m in
              if rt.cancelled then m1 else reconnect_after now (retry_failed_text r.pending e) m1
        ]
      ]

  -- case <-ticker.C
  abbrev pub retry_batch :
      ℕ
      → ℕ
      → P2pRuntime P
      → (Envelope → Option String)
      → AckTracker × AckRetryBatch
      → P2pSessionManager P O
      → P2pSessionManager P O
  retry_batch now i rt send (t, batch) m = send_retries now i rt send batch.retries (
      note_exhausted now rt.session_id batch.exhausted
        (record m { control_router = record m.control_router { ack_tracker = some t } }))

  abbrev pub on_tick :
      ℕ
      → ℕ
      → P2pRuntime P
      → (Envelope → Option String)
      → Option AckTracker
      → P2pSessionManager P O
      → P2pSessionManager P O
  on_tick now i rt send none m = m
  on_tick now i rt send (some t) m = retry_batch now i rt send (due_retries now t) m

-- A round of one of the loops.
pub data Round : Type 0 where
  ws_read : Result Envelope → Round
  ws_write : Option String → Round
  bridge_error : Round
  peer_state : PeerState → Round
  peer_message : ℤ → (Envelope → Option String) → Result Envelope → Round
  ack_retry : (Envelope → Option String) → Round

module _ {P : BridgePeer} {O : Type 0} (services : Services O) where
  unfoldable pub run_round :
      ℕ → ℕ → P2pRuntime P → Round → P2pSessionManager P O → P2pSessionManager P O
  run_round now i rt (ws_read read) m = if rt.reading then ws_read_result now i rt read m else m
  run_round now i rt (ws_write written) m =
      if rt.writing then ws_write_next now i rt rt.bridge.outbound written m else m
  run_round now i rt bridge_error m = bridge_error_next now i rt rt.bridge.errors m
  run_round now i rt (peer_state state) m = on_peer_state now state m
  run_round now i rt (peer_message duration send message) m =
      if rt.replying then on_peer_message services now duration i rt send message m else m
  run_round now i rt (ack_retry send) m =
      if rt.retrying then on_tick now i rt send m.control_router.ack_tracker m else m
