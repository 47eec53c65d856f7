-- ===== src/Webrtc/Bridge.antt =====
-- internal/webrtc/bridge.go: the signal bridge. The peer is a record of operations over a state of its
-- own. The channels are lists with their capacities; a call of a method and a case of the loop of
-- `Run` are one step. A step takes two readings of the clock in nanoseconds: for the id of the
-- envelope that it may send, and for its time.
pub mod Sending
pub mod Processing
pub mod Runs
use Prim.Native.String.{◌++◌ as concat}
use vibe_deck.Prelude.{
  ℕ, ◌+◌, ℤ, pos, Bool, true, false, not, ◌&&◌, Option, none, some, List, [], ◌∷◌, ◌++◌, String,
  ltb, str_eq, if◌then◌else◌, length,
}
use vibe_deck.Text.{decimal}
use vibe_deck.Protocol.Models.{
  MessageType, signal_offer, signal_answer, signal_ice, signal_ready, cmd_ack, type_name, Payload,
  of_signal_offer, of_signal_answer, of_signal_ice, SignalReadyPayload, SignalOfferPayload,
  SignalAnswerPayload, SignalIcePayload,
}
use vibe_deck.Protocol.Envelope.{Envelope, Codec, Result, ok, err, new_envelope, decode_payload}
use vibe_deck.Agent.ThreadStore.Disk.{unix_milli}

abbrev pub side_pc : String
side_pc = "pc"

abbrev pub side_mobile : String
side_mobile = "mobile"

-- What the bridge asks of a peer; an error alone is an `Option String`.
pub record BridgePeer : Type 1 where
  pub State : Type 0
  pub create_offer : State → State × Result String
  pub apply_offer_and_create_answer : String → State → State × Result String
  pub apply_answer : String → State → State × Option String
  pub add_remote_ice_candidate : SignalIcePayload → State → State × Option String

pub record SignalBridge (P : BridgePeer) : Type 0 where
  pub session_id : String
  pub side : String
  pub peer : P.State
  pub inbound : List Envelope
  pub outbound : List Envelope
  pub errors : List String
  pub seq : ℕ
  pub offer_started : Bool
  pub closed : Bool

abbrev pub queue_capacity : ℕ
queue_capacity = 256

abbrev pub error_capacity : ℕ
error_capacity = 128

-- fmt.Errorf("...: %w", err) of an error that may be nil
abbrev pub wrap_error : String → Option String → Option String
wrap_error context none = none
wrap_error context (some e) = some (concat context e)

module _ {P : BridgePeer} where
  abbrev pub fresh_bridge : String → String → P.State → SignalBridge P
  fresh_bridge session_id side peer = record {
    session_id = session_id;
    side = side;
    peer = peer;
    inbound = [];
    outbound = [];
    errors = [];
    seq = 0;
    offer_started = false;
    closed = false;
  }

  abbrev pub with_peer : String → String → Option P.State → Result (SignalBridge P)
  with_peer session_id side none = err "peer is required"
  with_peer session_id side (some peer) = ok (fresh_bridge session_id side peer)

  -- A nil peer is `none`.
  unfoldable pub new_signal_bridge : String → String → Option P.State → Result (SignalBridge P)
  new_signal_bridge session_id side peer =
      if str_eq session_id ""
      then err "sessionID is required"
      else if str_eq side ""
      then err "side is required"
      else with_peer session_id side peer

  unfoldable pub inbound_envelope : Envelope → SignalBridge P → SignalBridge P × Option String
  inbound_envelope env b =
      if b.closed
      then (b, some "bridge is closed")
      else if ltb (length b.inbound) queue_capacity
      then (record b { inbound = b.inbound ++ env ∷ [] }, none)
      else (b, some "inbound queue is full")

  abbrev pub put_outbound : Result Envelope → SignalBridge P → SignalBridge P × Option String
  put_outbound (err e) b = (b, some (concat "build envelope: " e))
  put_outbound (ok env) b =
      if ltb (length b.outbound) queue_capacity
      then (record b { outbound = b.outbound ++ env ∷ [] }, none)
      else (b, some "outbound queue is full")

  unfoldable pub emit :
      Codec → ℕ → ℕ → MessageType → Payload → SignalBridge P → SignalBridge P × Option String
  emit codec stamp now kind payload b =
      put_outbound
        (new_envelope codec (unix_milli now) b.session_id
          (concat "bridge_" (concat (type_name kind) (concat "_" (decimal stamp))))
          (pos (b.seq + 1)) kind payload)
        (record b { seq = b.seq + 1 })

  unfoldable pub report_error : Option String → SignalBridge P → SignalBridge P
  report_error none b = b
  report_error (some e) b =
      if ltb (length b.errors) error_capacity then record b { errors = b.errors ++ e ∷ [] } else b

  abbrev pub send_offer :
      Codec → ℕ → ℕ → Result String → SignalBridge P → SignalBridge P × Option String
  send_offer codec stamp now (err e) b = (b, some (concat "create offer: " e))
  send_offer codec stamp now (ok sdp) b =
      emit codec stamp now signal_offer (of_signal_offer (record { sdp = sdp })) b

  -- The flag is set before the peer is asked.
  unfoldable pub start_offer : Codec → ℕ → ℕ → SignalBridge P → SignalBridge P × Option String
  start_offer codec stamp now b =
      if not (str_eq b.side side_pc)
      then (b, some "only pc bridge can start offer")
      else if b.offer_started
      then (b, none)
      else let (peer, offer) = P.create_offer b.peer in
        send_offer codec stamp now offer (record b { peer = peer; offer_started = true })

  abbrev pub on_ready :
      Codec → ℕ → ℕ → Result SignalReadyPayload → SignalBridge P → SignalBridge P × Option String
  on_ready codec stamp now (err e) b = (b, some (concat "decode signal ready payload: " e))
  on_ready codec stamp now (ok p) b =
      if p.peer_connected && str_eq b.side side_pc then start_offer codec stamp now b else (b, none)

  abbrev pub send_answer :
      Codec → ℕ → ℕ → Result String → SignalBridge P → SignalBridge P × Option String
  send_answer codec stamp now (err e) b = (b, some (concat "apply offer/create answer: " e))
  send_answer codec stamp now (ok sdp) b =
      emit codec stamp now signal_answer (of_signal_answer (record { sdp = sdp })) b

  abbrev pub on_offer :
      Codec → ℕ → ℕ → Result SignalOfferPayload → SignalBridge P → SignalBridge P × Option String
  on_offer codec stamp now (err e) b = (b, some (concat "decode signal offer payload: " e))
  on_offer codec stamp now (ok p) b =
      let (peer, answer) = P.apply_offer_and_create_answer p.sdp b.peer in
      send_answer codec stamp now answer (record b { peer = peer })

  abbrev pub on_answer :
      Result SignalAnswerPayload → SignalBridge P → SignalBridge P × Option String
  on_answer (err e) b = (b, some (concat "decode signal answer payload: " e))
  on_answer (ok p) b =
      let (peer, failed) = P.apply_answer p.sdp b.peer in
      (record b { peer = peer }, wrap_error "apply answer: " failed)

  abbrev pub on_ice : Result SignalIcePayload → SignalBridge P → SignalBridge P × Option String
  on_ice (err e) b = (b, some (concat "decode signal ice payload: " e))
  on_ice (ok p) b =
      let (peer, failed) = P.add_remote_ice_candidate p b.peer in
      (record b { peer = peer }, wrap_error "add remote ice candidate: " failed)

  -- The `switch` on the type.
  abbrev pub process_kind :
      Codec → ℕ → ℕ → Envelope → MessageType → SignalBridge P → SignalBridge P × Option String
  process_kind codec stamp now env signal_ready b =
      on_ready codec stamp now (decode_payload codec.unmarshal_signal_ready env) b
  process_kind codec stamp now env signal_offer b =
      if not (str_eq b.side side_mobile)
      then (b, some "only mobile bridge can process SIGNAL_OFFER")
      else on_offer codec stamp now (decode_payload codec.unmarshal_signal_offer env) b
  process_kind codec stamp now env signal_answer b =
      if not (str_eq b.side side_pc)
      then (b, some "only pc bridge can process SIGNAL_ANSWER")
      else on_answer (decode_payload codec.unmarshal_signal_answer env) b
  process_kind codec stamp now env signal_ice b =
      on_ice (decode_payload codec.unmarshal_signal_ice env) b
  process_kind codec stamp now env cmd_ack b = (b, none)
  process_kind codec stamp now env kind b =
      (b, some (concat "unsupported signaling envelope type: " (type_name kind)))

  unfoldable pub process_envelope :
      Codec → ℕ → ℕ → Envelope → SignalBridge P → SignalBridge P × Option String
  process_envelope codec stamp now env b =
      if not (str_eq env.sid b.session_id)
      then (
        b,
        some (concat "sid mismatch: expected=" (concat b.session_id (concat " got=" env.sid))),
      )
      else process_kind codec stamp now env env.kind b

  abbrev pub reported : SignalBridge P × Option String → SignalBridge P
  reported (b, error) = report_error error b

  -- case env := <-b.inbound
  abbrev pub run_inbound : Codec → ℕ → ℕ → List Envelope → SignalBridge P → SignalBridge P
  run_inbound codec stamp now [] b = b
  run_inbound codec stamp now (env ∷ rest) b =
      reported (process_envelope codec stamp now env (record b { inbound = rest }))

  -- case candidate := <-b.peer.LocalCandidates()
  abbrev pub run_candidate : Codec → ℕ → ℕ → SignalIcePayload → SignalBridge P → SignalBridge P
  run_candidate codec stamp now candidate b =
      if str_eq candidate.candidate ""
      then b
      else reported (emit codec stamp now signal_ice (of_signal_ice candidate) b)
