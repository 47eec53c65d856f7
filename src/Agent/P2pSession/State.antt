-- ===== src/Agent/P2pSession/State.antt =====
-- p2p_session.go: the structs, the pairing request and the opening of a session.
use Prim.Native.String.{◌++◌ as concat}
use vibe_deck.Prelude.{
  ℕ, ◌==◌, ℤ, Bool, true, false, ◌||◌, Option, none, some, List, String, str_eq, if◌then◌else◌,
}
use vibe_deck.Text.{decimal}
use vibe_deck.Protocol.Envelope.{Result, ok, err}
use vibe_deck.Runtime.StateManager.{ConnectionState, StateManager}
use vibe_deck.Control.Router.{ControlRouter}
use vibe_deck.Webrtc.Bridge.{BridgePeer, SignalBridge, side_pc, new_signal_bridge}
use vibe_deck.Agent.ControlMetrics.{ControlMetrics}

pub record StartP2pRequest : Type 0 where
  pub signaling_base_url : String

pub record P2pSessionStatus : Type 0 where
  pub active : Bool
  pub session_id : String
  pub pairing_code : String
  pub expires_at : ℤ
  pub signaling_base_url : String
  pub state : ConnectionState
  pub last_error : String
  pub updated_at : ℤ

pub record PairingCreateResponse : Type 0 where
  pub code : String
  pub session_id : String
  pub pc_device_key : String
  pub expires_at : ℤ

-- `cancelled` is the session's context; the last four tell which of its loops still run.
pub record P2pRuntime (P : BridgePeer) : Type 0 where
  pub session_id : String
  pub pairing_code : String
  pub expires_at : ℤ
  pub ws_url : String
  pub bridge : SignalBridge P
  pub cancelled : Bool
  pub ws_closed : Bool
  pub peer_closed : Bool
  pub reading : Bool
  pub writing : Bool
  pub replying : Bool
  pub retrying : Bool

pub record P2pSessionManager (P : BridgePeer) (O : Type 0) : Type 0 where
  pub state_manager : StateManager
  pub control_metrics : Option ControlMetrics
  pub control_router : ControlRouter O
  pub default_signaling_base_url : String
  pub runtimes : List (P2pRuntime P)
  pub active : Option ℕ
  pub status : P2pSessionStatus
  pub started : Bool

-- What becomes of the pairing request.
pub data PairingCall : Type 0 where
  bad_url bad_request not_sent : String → PairingCall
  answered : ℕ → Result PairingCreateResponse → PairingCall

abbrev pub pairing_body : Result PairingCreateResponse → Result PairingCreateResponse
pairing_body (err e) = err (concat "decode pairing response: " e)
pairing_body (ok out) =
    if str_eq out.code "" || str_eq out.session_id "" || str_eq out.pc_device_key ""
    then err "invalid pairing response"
    else ok out

unfoldable pub create_pairing : PairingCall → Result PairingCreateResponse
create_pairing (bad_url e) = err e
create_pairing (bad_request e) = err (concat "new pairing request: " e)
create_pairing (not_sent e) = err (concat "pairing request failed: " e)
create_pairing (answered code body) =
    if code == 201
    then pairing_body body
    else err (concat "pairing request unexpected status: " (decimal code))

-- The answers that `Start` gets, in the order in which it asks for them.
pub record StartCalls (P : BridgePeer) : Type 0 where
  pub pairing : PairingCall
  pub ws_url : Result String
  pub dialled : Option String
  pub peer : Result P.State

-- A runtime, or the text of `setLastError` and the error.
pub data Opened (P : BridgePeer) : Type 0 where
  opened : P2pRuntime P → Opened P
  failed : String → String → Opened P

module _ {P : BridgePeer} where
  abbrev pub open_bridge : PairingCreateResponse → String → Result (SignalBridge P) → Opened P
  open_bridge p url (err e) = failed (concat "new signal bridge failed: " e) e
  open_bridge p url (ok bridge) = opened (record {
    session_id = p.session_id;
    pairing_code = p.code;
    expires_at = p.expires_at;
    ws_url = url;
    bridge = bridge;
    cancelled = false;
    ws_closed = false;
    peer_closed = false;
    reading = true;
    writing = true;
    replying = true;
    retrying = true;
  })

  abbrev pub open_peer : PairingCreateResponse → String → Result P.State → Opened P
  open_peer p url (err e) = failed (concat "new pc peer failed: " e) e
  open_peer p url (ok peer) = open_bridge p url (new_signal_bridge p.session_id side_pc (some peer))

  abbrev pub open_socket :
      PairingCreateResponse → String → Option String → Result P.State → Opened P
  open_socket p url (some e) peer = failed (concat "dial signaling ws failed: " e) e
  open_socket p url none peer = open_peer p url peer

  abbrev pub open_url :
      PairingCreateResponse → Result String → Option String → Result P.State → Opened P
  open_url p (err e) dialled peer = failed (concat "build ws url failed: " e) e
  open_url p (ok url) dialled peer = open_socket p url dialled peer

  abbrev pub open_pairing :
      Result PairingCreateResponse → Result String → Option String → Result P.State → Opened P
  open_pairing (err e) url dialled peer = failed (concat "create pairing failed: " e) e
  open_pairing (ok p) url dialled peer = open_url p url dialled peer

  unfoldable pub open_runtime : StartCalls P → Opened P
  open_runtime calls =
      open_pairing (create_pairing calls.pairing) calls.ws_url calls.dialled calls.peer
