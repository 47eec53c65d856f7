-- ===== src/Agent/P2pSession/Rounds.antt =====
-- A round of a loop leaves the sessions alone (p2p_session.go).
use vibe_deck.Prelude.{
  ℕ, ℤ, Bool, true, false, Option, none, some, List, [], ◌∷◌, String, str_eq, if◌then◌else◌,
  get_elem?, ◌≡◌, refl, inl, inr, Bool-cases, Option-cases,
}
use vibe_deck.Protocol.Models.{MessageType, signal_offer}
use vibe_deck.Protocol.Envelope.{Envelope, Result, ok, err, validate}
use vibe_deck.Runtime.StateManager.{begin_p2p, begin_reconnect, mark_p2p_connected}
use vibe_deck.Agent.ThreadStore.Disk.{unix_milli}
use vibe_deck.Runtime.AckTracker.State.{
  AckTracker, PendingAck, TrackedAck, AckRetryBatch, transport_p2p,
}
use vibe_deck.Runtime.AckTracker.Sweeps.{due_retries}
use vibe_deck.Control.Router.{
  ControlRouter, ControlHandleResult, is_cmd_ack, handle_envelope, register_ackable_responses,
}
use vibe_deck.Webrtc.Bridge.{BridgePeer, SignalBridge, inbound_envelope}
use vibe_deck.Agent.P2pSession.State.{P2pRuntime, P2pSessionManager}
use vibe_deck.Agent.P2pSession.Loops.{
  Services, Round, ws_read, ws_write, bridge_error, peer_state, peer_message, ack_retry, PeerState,
  peer_connected, peer_disconnected, peer_failed, put_runtime, note_inbound, reconnect_after,
  ws_read_checked, ws_read_result, begin_p2p_if, ws_write_result, ws_write_next, bridge_error_next,
  on_peer_state, send_responses, note_failed, handled, peer_message_checked, on_peer_message,
  note_exhausted, send_retries, retry_batch, on_tick, run_round, is_mine, observe_in,
  retry_exhausted_text,
}
use vibe_deck.Agent.P2pSession.Flags.{
  Same, get_elem?-flags, Same-refl, Same-trans, put_runtime-Same, reconnect_after-Same,
  set_last_error-Same, in_state_manager-Same, At, At-Same, ended-Same,
}

module _ {P : BridgePeer} {O : Type 0} where
  note_inbound-Same :
      (now i : ℕ) (rt : P2pRuntime P) (r : SignalBridge P × Option String)
      (m : P2pSessionManager P O)
      → At i rt m
      → Same m (note_inbound now i rt r m)
  note_inbound-Same now i rt (bridge, none) m h =
      put_runtime-Same i (record rt { bridge = bridge }) m h
  note_inbound-Same now i rt (bridge, some e) m h =
      Same-trans m (put_runtime i (record rt { bridge = bridge }) m) _
        (put_runtime-Same i (record rt { bridge = bridge }) m h)
        (set_last_error-Same now _ (put_runtime i (record rt { bridge = bridge }) m))

  ws_read-Same :
      (now i : ℕ) (rt : P2pRuntime P) (read : Result Envelope) (m : P2pSessionManager P O)
      → At i rt m
      → Same m (ws_read_result now i rt read m)
  ws_read-Same now i rt (err e) m h =
      ended-Same now i rt.cancelled (record rt { reading = false }) _ m h
  ws_read-Same now i rt (ok env) m h = go (validate env)
    where
      go : (checked : Option String) → Same m (ws_read_checked now i rt env checked m)
      go (some e) = Same-refl m
      go none = note_inbound-Same now i rt (inbound_envelope env rt.bridge) m h

  begin_p2p_if-Same :
      (now : ℕ) (kind : MessageType) (m : P2pSessionManager P O) → Same m (begin_p2p_if now kind m)
  begin_p2p_if-Same now signal_offer m = in_state_manager-Same now (begin_p2p (unix_milli now)) m
  begin_p2p_if-Same now _ m = Same-refl m

  ws_write_result-Same :
      (now i : ℕ) (rt : P2pRuntime P) (written : Option String) (m : P2pSessionManager P O)
      → At i rt m
      → Same m (ws_write_result now i rt written m)
  ws_write_result-Same now i rt none m h = Same-refl m
  ws_write_result-Same now i rt (some e) m h =
      ended-Same now i rt.cancelled (record rt { writing = false }) _ m h

  ws_write-Same :
      (now i : ℕ) (rt : P2pRuntime P) (out : List Envelope) (written : Option String)
      (m : P2pSessionManager P O)
      → At i rt m
      → Same m (ws_write_next now i rt out written m)
  ws_write-Same now i rt [] written m h = Same-refl m
  ws_write-Same now i rt (env ∷ rest) written m h =
      let rt' = record rt { bridge = record rt.bridge { outbound = rest } } in
      let m1 = put_runtime i rt' m in
      let m2 = begin_p2p_if now env.kind m1 in
      let s = Same-trans m m1 m2 (put_runtime-Same i rt' m h) (begin_p2p_if-Same now env.kind m1) in
      Same-trans m m2 _ s (ws_write_result-Same now i rt' written m2 (At-Same i rt m m2 s h))

  bridge_error-Same :
      (now i : ℕ) (rt : P2pRuntime P) (errors : List String) (m : P2pSessionManager P O)
      → At i rt m
      → Same m (bridge_error_next now i rt errors m)
  bridge_error-Same now i rt [] m h = Same-refl m
  bridge_error-Same now i rt (e ∷ rest) m h =
      ended-Same now i false (record rt { bridge = record rt.bridge { errors = rest } }) _ m h

  peer_state-Same :
      (now : ℕ) (state : PeerState) (m : P2pSessionManager P O) → Same m (on_peer_state now state m)
  unfolding on_peer_state
  peer_state-Same now peer_connected m =
      in_state_manager-Same now (mark_p2p_connected (unix_milli now)) m
  peer_state-Same now peer_disconnected m =
      in_state_manager-Same now (begin_reconnect (unix_milli now)) m
  peer_state-Same now peer_failed m = in_state_manager-Same now (begin_reconnect (unix_milli now)) m
  peer_state-Same now _ m = Same-refl m

  abbrev registered : ℕ → Envelope → P2pSessionManager P O → P2pSessionManager P O
  registered now response m = record m {
    control_router = record m.control_router {
      ack_tracker =
          register_ackable_responses now m.control_router.ack_tracker (response ∷ []) transport_p2p
            true;
    };
  }

  send_responses-Same :
      (now i : ℕ) (rt : P2pRuntime P) (send : Envelope → Option String) (out : List Envelope)
      (m : P2pSessionManager P O)
      → At i rt m
      → Same m (send_responses now i rt send out m)
  send_responses-Same now i rt send [] m h = Same-refl m
  send_responses-Same now i rt send (response ∷ rest) m h = elim (Option-cases (send response)) [
    | inr (e, f) ↦
        rw (f, send_responses)
          (ended-Same now i rt.cancelled (record rt { replying = false }) _ m h)
    | inl f ↦
        rw (f, send_responses)
          (Same-trans m (registered now response m) _
            (record { active = refl; cancelled = refl; shown = refl })
            (send_responses-Same now i rt send rest (registered now response m) h))
  ]

  note_failed-Same :
      (now : ℕ) (error : Option String) (m : P2pSessionManager P O)
      → Same m (note_failed now error m)
  note_failed-Same now none m = Same-refl m
  note_failed-Same now (some e) m = set_last_error-Same now _ m

  handled-Same :
      (services : Services O) (now : ℕ) (duration : ℤ) (i : ℕ) (rt : P2pRuntime P)
      (send : Envelope → Option String) (env : Envelope)
      (r : ControlRouter O × ControlHandleResult × Option String) (m : P2pSessionManager P O)
      → At i rt m
      → Same m (handled services now duration i rt send env r m)
  handled-Same services now duration i rt send env (router, result, error) m h =
      go (is_cmd_ack env.kind)
    where
      go :
          (c : Bool)
          → Same m (
              if c
              then note_failed now error (record m { control_router = router })
              else send_responses now i rt send result.responses (
                  note_failed now error (record m {
                    control_router = router;
                    control_metrics =
                        observe_in env.kind duration (services.observed error) m.control_metrics;
                  })))
      go true =
          Same-trans m (record m { control_router = router }) _
            (record { active = refl; cancelled = refl; shown = refl })
            (note_failed-Same now error _)
      go false =
          let m2 = record m {
            control_router = router;
            control_metrics =
                observe_in env.kind duration (services.observed error) m.control_metrics;
          } in
          let m3 = note_failed now error m2 in
          let s : Same m m3 =
            Same-trans m m2 m3 (record { active = refl; cancelled = refl; shown = refl })
              (note_failed-Same now error m2) in
          Same-trans m m3 _ s
            (send_responses-Same now i rt send result.responses m3 (At-Same i rt m m3 s h))

  peer_message-Same :
      (services : Services O) (now : ℕ) (duration : ℤ) (i : ℕ) (rt : P2pRuntime P)
      (send : Envelope → Option String) (message : Result Envelope) (m : P2pSessionManager P O)
      → At i rt m
      → Same m (on_peer_message services now duration i rt send message m)
  unfolding on_peer_message
  peer_message-Same services now duration i rt send (err e) m h = set_last_error-Same now _ m
  peer_message-Same services now duration i rt send (ok env) m h = go (validate env)
    where
      go :
          (checked : Option String)
          → Same m (peer_message_checked services now duration i rt send env checked m)
      go (some e) = set_last_error-Same now _ m
      go none = elim (Bool-cases (str_eq env.sid rt.session_id)) [
        | inr e ↦ rw e (set_last_error-Same now _ m)
        | inl e ↦ rw e (
            handled-Same services now duration i rt send env
              (handle_envelope services.codec services.command now env m.control_router) m h)
      ]

  note_exhausted-Same :
      (now : ℕ) (session_id : String) (ps : List PendingAck) (m : P2pSessionManager P O)
      → Same m (note_exhausted now session_id ps m)
  note_exhausted-Same now session_id [] m = Same-refl m
  note_exhausted-Same now session_id (p ∷ rest) m =
      let m1 = if is_mine session_id p then reconnect_after now (retry_exhausted_text p) m else m in
      Same-trans m m1 _ (noted (is_mine session_id p)) (note_exhausted-Same now session_id rest m1)
    where
      noted : (c : Bool) → Same m (if c then reconnect_after now (retry_exhausted_text p) m else m)
      noted true = reconnect_after-Same now _ m
      noted false = Same-refl m

  send_retries-Same :
      (now i : ℕ) (rt : P2pRuntime P) (send : Envelope → Option String) (out : List TrackedAck)
      (m : P2pSessionManager P O)
      → At i rt m
      → Same m (send_retries now i rt send out m)
  send_retries-Same now i rt send [] m h = Same-refl m
  send_retries-Same now i rt send (r ∷ rest) m h =
      let later = send_retries-Same now i rt send rest m h in
      elim (Bool-cases (is_mine rt.session_id r.pending)) [
        | inr f ↦ rw (f, send_retries) later
        | inl f ↦ elim (Option-cases (send r.envelope)) [
          | inl g ↦ rw (f, g, send_retries) later
          | inr (e, g) ↦
              rw (f, g, send_retries)
                (ended-Same now i rt.cancelled (record rt { retrying = false }) _ m h)
        ]
      ]

  tick-Same :
      (now i : ℕ) (rt : P2pRuntime P) (send : Envelope → Option String)
      (tracker : Option AckTracker) (m : P2pSessionManager P O)
      → At i rt m
      → Same m (on_tick now i rt send tracker m)
  tick-Same now i rt send none m h = Same-refl m
  tick-Same now i rt send (some t) m h = go (due_retries now t)
    where
      go : (r : AckTracker × AckRetryBatch) → Same m (retry_batch now i rt send r m)
      go (t', batch) =
          let m1 = record m {
            control_router = record m.control_router { ack_tracker = some t' };
          } in
          let m2 = note_exhausted now rt.session_id batch.exhausted m1 in
          let s : Same m m2 =
            Same-trans m m1 m2 (record { active = refl; cancelled = refl; shown = refl })
              (note_exhausted-Same now rt.session_id batch.exhausted m1) in
          Same-trans m m2 _ s
            (send_retries-Same now i rt send batch.retries m2 (At-Same i rt m m2 s h))

  pub run_round-Same :
      (services : Services O) (now i : ℕ) (rt : P2pRuntime P) (round : Round)
      (m : P2pSessionManager P O)
      → get_elem? m.runtimes i ≡ some rt
      → Same m (run_round services now i rt round m)
  unfolding run_round
  run_round-Same services now i rt round m found = go round (get_elem?-flags m.runtimes i rt found)
    where
      when : (c : Bool) (m' : P2pSessionManager P O) → Same m m' → Same m (if c then m' else m)
      when true m' s = s
      when false m' s = Same-refl m

      go : (round : Round) → At i rt m → Same m (run_round services now i rt round m)
      go (ws_read read) h = when rt.reading _ (ws_read-Same now i rt read m h)
      go (ws_write written) h =
          when rt.writing _ (ws_write-Same now i rt rt.bridge.outbound written m h)
      go bridge_error h = bridge_error-Same now i rt rt.bridge.errors m h
      go (peer_state state) h = peer_state-Same now state m
      go (peer_message duration send message) h =
          when rt.replying _ (peer_message-Same services now duration i rt send message m h)
      go (ack_retry send) h =
          when rt.retrying _ (tick-Same now i rt send m.control_router.ack_tracker m h)
