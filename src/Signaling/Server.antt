-- ===== src/Signaling/Server.antt =====
-- signaling/server.go: the handlers of the pairing requests, the request for a session's connection,
-- and the loop that reads from it. The HTTP server, the upgrade to a web socket and the socket itself
-- are libraries: a request is its method, its path and its query values, a reply is the status and
-- the values that the code puts in it, a connection is a number, and what `WriteJSON` returns is an
-- argument.
pub mod Pairings
pub mod Rounds
pub mod Delivery
use Prim.Native.String.{◌++◌ as concat}
use Prim.Native.Char.{Char}
use vibe_deck.Prelude.{
  ℕ, ◌/◌, ◌+◌, ℤ, Bool, true, false, Option, none, some, List, [], ◌∷◌, ◌++◌, String, str_eq, ◌&&◌,
  not, if◌then◌else◌,
}
use vibe_deck.Text.{trim_space, trim_slashes, split_slash, has_suffix}
use vibe_deck.Protocol.Models.{cmd_ack, signal_ready, of_cmd_ack, of_signal_ready}
use vibe_deck.Protocol.Envelope.{Envelope, Codec, validate, new_envelope}
use vibe_deck.Protocol.Envelope as Protocol
use vibe_deck.Signaling.Store.{
  Store, Pairing, Error, pairing_not_found, pairing_expired, pairing_claimed, token_failed, Role,
  pc, mobile, Result, ok, err, create_pairing, claim_pairing, validate_session_key,
}
use vibe_deck.Signaling.Validation.{validate_signal_envelope}
use vibe_deck.Signaling.Room.Acts.{rooms_after}
use vibe_deck.Signaling.Room.{
  Rooms, Forwarding, no_room, queued, written_to, attach_conn, detach_conn, forward_or_queue,
}

pub data Reply : Type 0 where
  refused : ℕ → String → Reply
  failed : ℕ → Error → Reply
  pairing_created : String → String → String → ℕ → Reply
  pairing_claimed_by : String → String → ℕ → Reply

-- t.UnixMilli()
abbrev pub unix_milli : ℕ → ℕ
unix_milli t = t / 1000000

abbrev pub created_reply : Result Pairing → Reply
created_reply (err e) = failed 500 e
created_reply (ok p) = pairing_created p.code p.session_id p.pc_device_key (unix_milli p.expires_at)

abbrev pub answer : (Result Pairing → Reply) → Store × Result Pairing → Store × Reply
answer reply (s, r) = (s, reply r)

unfoldable pub handle_pairings :
    (Char → Char)
    → ℕ
    → ℕ
    → Option String
    → Option String
    → Option String
    → String
    → Store
    → Store × Reply
handle_pairings upper evicted_at now code id key method s =
    if str_eq method "POST"
    then answer created_reply (create_pairing upper evicted_at now code id key s)
    else (s, refused 405 "method not allowed")

abbrev pub claim_status : Error → ℕ
claim_status pairing_not_found = 404
claim_status pairing_expired = 409
claim_status pairing_claimed = 409
claim_status (token_failed context) = 500

abbrev pub claim_reply : Result Pairing → Reply
claim_reply (err e) = failed (claim_status e) e
claim_reply (ok p) = pairing_claimed_by p.session_id p.mobile_device_key (unix_milli p.expires_at)

-- /v1/pairings/{code}/claim
abbrev pub claim_code : List String → Option String
claim_code (v ∷ p ∷ code ∷ c ∷ []) =
    if str_eq v "v1" && str_eq p "pairings" && str_eq c "claim" then some code else none
claim_code _ = none

abbrev pub claim_with : (Char → Char) → ℕ → Option String → Option String → Store → Store × Reply
claim_with upper now key none s = (s, refused 404 "invalid claim path")
claim_with upper now key (some code) s = answer claim_reply (claim_pairing upper now key code s)

unfoldable pub handle_pairing_claim :
    (Char → Char) → ℕ → Option String → String → String → Store → Store × Reply
handle_pairing_claim upper now key method path s =
    if str_eq method "POST"
    then claim_with upper now key (claim_code (split_slash (trim_slashes path))) s
    else (s, refused 405 "method not allowed")

pub data WsRequest : Type 0 where
  refuse : ℕ → String → WsRequest
  accept : String → Role → WsRequest

abbrev pub role_name : Role → String
role_name pc = "pc"
role_name mobile = "mobile"

-- /v1/sessions/{sessionID}/ws
abbrev pub session_path : List String → Option String
session_path (v ∷ p ∷ id ∷ c ∷ []) =
    if str_eq v "v1" && str_eq p "sessions" && str_eq c "ws" then some id else none
session_path _ = none

abbrev pub with_role : String → String → Option Role → WsRequest
with_role id requested none = refuse 401 "invalid session or key"
with_role id requested (some role) =
    if not (str_eq requested "") && not (str_eq requested (role_name role))
    then refuse 401 "role mismatch"
    else accept id role

abbrev pub with_session : ℕ → String → String → Option String → Store → WsRequest
with_session now key requested none s = refuse 404 "invalid session path"
with_session now key requested (some id) s =
    if str_eq key ""
    then refuse 401 "deviceKey is required"
    else with_role id requested (validate_session_key now id key s)

-- `handleSessionWS` up to the upgrade.
unfoldable pub session_ws_request : ℕ → String → String → String → Store → WsRequest
session_ws_request now path device_key role s =
    if has_suffix "/ws" path
    then with_session now (trim_space device_key) (trim_space role)
        (session_path (split_slash (trim_slashes path))) s
    else refuse 404 "not found"

-- Packets with the connections that they are written to.
abbrev pub Writes : Type 0
Writes = List (ℕ × Envelope)

abbrev pub write_to : ℕ → Protocol.Result Envelope → Writes
write_to conn (Protocol.ok env) = (conn, env) ∷ []
write_to conn (Protocol.err e) = []

-- `stamp` is the text of `time.Now().UTC().UnixNano()`, `now` the time in milliseconds.
unfoldable pub build_signal_ready_envelope :
    Codec → ℤ → String → String → Role → Protocol.Result Envelope
build_signal_ready_envelope codec now stamp session_id role =
    new_envelope codec now session_id (concat "signal_ready_" stamp) now signal_ready
      (of_signal_ready (record { role = role_name role; peer_connected = true; timestamp = now }))

abbrev pub write_each : ℕ → List Envelope → Writes
write_each conn [] = []
write_each conn (env ∷ rest) = (conn, env) ∷ write_each conn rest

abbrev pub write_ready : Protocol.Result Envelope → List ℕ → Writes
write_ready ready [] = []
write_ready ready (conn ∷ rest) = write_to conn ready ++ write_ready ready rest

-- `handleSessionWS` from the upgrade on. All packets of a call carry one time.
unfoldable pub open_session : Codec → ℤ → String → String → Role → ℕ → Rooms → Rooms × Writes
open_session codec now stamp session_id role conn rooms =
    let a = attach_conn session_id role conn rooms in
    (
      a.rooms,
      write_each conn a.pending
          ++ write_ready (build_signal_ready_envelope codec now stamp session_id role) a.ready,
    )

unfoldable pub send_server_ack : Codec → ℤ → String → String → ℕ → String → Bool → String → Writes
send_server_ack codec now stamp session_id conn request_rid accepted message = write_to conn (
    new_envelope codec now session_id (concat "srv_ack_" stamp) now cmd_ack
      (of_cmd_ack (record { request_rid = request_rid; accepted = accepted; message = message })))

-- The error that `forwardOrQueue` returns, and the packet that it writes.
abbrev pub forward_error : String → Option String → Forwarding → Option String
forward_error session_id write_error no_room =
    some (concat "room " (concat session_id " not found"))
forward_error session_id write_error (queued rooms) = none
forward_error session_id write_error (written_to conn) = write_error

abbrev pub forward_writes : Envelope → Forwarding → Writes
forward_writes env (written_to conn) = (conn, env) ∷ []
forward_writes env _ = []

pub record Round : Type 0 where
  pub rooms : Rooms
  pub writes : Writes
  pub error : Option String

-- The checks of `readLoop` on an envelope, in their order, and the forwarding.
abbrev pub judge_checked :
    Option String → Option String → String → Role → Option String → Envelope → Rooms → Round
judge_checked (some e) signal session_id role write_error env rooms = record {
  rooms = rooms;
  writes = [];
  error = some "invalid envelope";
}
judge_checked none (some e) session_id role write_error env rooms = record {
  rooms = rooms;
  writes = [];
  error = some e;
}
judge_checked none none session_id role write_error env rooms =
    let f = forward_or_queue session_id role env rooms in
    record {
      rooms = rooms_after f rooms;
      writes = forward_writes env f;
      error = forward_error session_id write_error f;
    }

unfoldable pub judge : Codec → String → Role → Option String → Envelope → Rooms → Round
judge codec session_id role write_error env rooms =
    judge_checked (validate env) (validate_signal_envelope codec session_id role env) session_id
      role write_error env rooms

abbrev pub accepted_of : Option String → Bool
accepted_of none = true
accepted_of (some e) = false

abbrev pub message_of : Option String → String
message_of none = "accepted"
message_of (some e) = e

-- What a round of `readLoop` reads: the time and its text, what a write to the peer would return,
-- and the envelope.
pub record Frame : Type 0 where
  pub now : ℤ
  pub stamp : String
  pub write_error : Option String
  pub env : Envelope

unfoldable pub read_round : Codec → String → Role → ℕ → Frame → Rooms → Rooms × Writes
read_round codec session_id role conn f rooms =
    let r = judge codec session_id role f.write_error f.env rooms in
    (
      r.rooms,
      r.writes
          ++ send_server_ack codec f.now f.stamp session_id conn f.env.rid (accepted_of r.error)
              (message_of r.error),
    )

-- `readLoop` over the frames that `ReadJSON` returns before its first error.
unfoldable pub read_loop : Codec → String → Role → ℕ → List Frame → Rooms → Rooms × Writes
read_loop codec session_id role conn [] rooms = (detach_conn session_id role conn rooms, [])
read_loop codec session_id role conn (f ∷ rest) rooms =
    let (next, now) = read_round codec session_id role conn f rooms in
    let (last, later) = read_loop codec session_id role conn rest next in (last, now ++ later)
