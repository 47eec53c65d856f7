-- ===== src/Webrtc/Examples.antt =====
-- A signal bridge on concrete values.
use vibe_deck.Prelude.{ℕ, zero, suc, pos, none, some, List, [], ◌∷◌, String, ◌≡◌, refl}
use vibe_deck.Protocol.Models.{signal_ready}
use vibe_deck.Protocol.Envelope.{Envelope, Result, ok, err, decode_payload}
use vibe_deck.Protocol.TestCodec.{test_codec}
use vibe_deck.Webrtc.Bridge.{
  side_pc, BridgePeer, SignalBridge, fresh_bridge, new_signal_bridge, start_offer, process_envelope,
}
use vibe_deck.Webrtc.Bridge.Sending.{Holds}
use vibe_deck.Webrtc.Bridge.Runs.{
  BridgeEvent, process, run_next, inbound, take, run_bridge, run_bridge-Holds, start_offer_again,
}

-- A peer that fails the first time it is asked for an offer.
abbrev offer_at : ℕ → ℕ × Result String
offer_at zero = (1, err "no transport")
offer_at (suc n) = (suc n, ok "v=0")

abbrev flaky_peer : BridgePeer
flaky_peer = record {
  State = ℕ;
  create_offer = offer_at;
  apply_offer_and_create_answer = λ sdp n. (n, ok sdp);
  apply_answer = λ sdp n. (n, none);
  add_remote_ice_candidate = λ c n. (n, none);
}

abbrev ready : Envelope
ready = record {
  sid = "s1";
  rid = "r1";
  seq = pos 1;
  ts = pos 1;
  kind = signal_ready;
  payload = "mobile";
}

abbrev bridge : SignalBridge flaky_peer
bridge = fresh_bridge "s1" side_pc 0

abbrev events : List BridgeEvent
events = inbound ready ∷ run_next 5 5000000 ∷ process 6 6000000 ready ∷ take ∷ []

run_bridge-Holds_example :
    let s = run_bridge test_codec events ([], bridge) in Holds "s1" side_pc 1 s.0 s.1
unfolding new_signal_bridge
run_bridge-Holds_example = run_bridge-Holds test_codec "s1" side_pc events (some 0) bridge refl

start_offer_again_example :
    let b = (start_offer test_codec 5 5000000 bridge).0 in
    start_offer test_codec 6 6000000 b ≡ (b, none)
start_offer_again_example = start_offer_again test_codec 5 5000000 6 6000000 bridge refl

-- After the failure no offer is waiting, and none is made when the other side is ready again.
offer_lost :
    (run_bridge test_codec
      (process 5 5000000 ready ∷ process 6 6000000 ready ∷ [])
      ([], bridge)).1.outbound
    ≡ []
unfolding run_bridge process_envelope decode_payload start_offer
offer_lost = refl
