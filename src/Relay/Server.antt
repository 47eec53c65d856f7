-- ===== src/Relay/Server.antt =====
-- relay/server.go: the request for a relay connection, and the loop that reads from it.
-- The HTTP server, the upgrade to a web socket and the socket itself are libraries: the request is
-- its path and its `peer` query value, and the socket is the list of envelopes that `ReadJSON`
-- returns before its first error, after which it is closed. `writeLoop` is the reader `take_packet` of the session's channel.
pub mod Requests
use vibe_deck.Prelude.{
  ℕ, ℤ, pos, Bool, true, false, Option, none, some, List, [], ◌∷◌, ◌++◌, String, str_eq, ◌&&◌, ◌||◌,
  not, if◌then◌else◌, leb_ℤ, pos_part, set,
}
use vibe_deck.Text.{trim_space, trim_slashes, split_slash, has_suffix}
use vibe_deck.Protocol.Envelope.{Envelope, Codec, Result, ok, err, validate, new_cmd_ack}
use vibe_deck.Relay.Session.{
  Session, Outcome, done, panic, ◌>>=◌, unregister, route, route_to_peer, targets,
}
use vibe_deck.Relay.Hub.{Hub, remove_if_empty}

pub data WsRequest : Type 0 where
  refuse : ℕ → String → WsRequest
  accept : String → String → WsRequest

-- /v1/relay/{sessionID}/ws
abbrev relay_session : List String → Option String
relay_session (v ∷ r ∷ id ∷ ws ∷ []) =
    if str_eq v "v1" && str_eq r "relay" && str_eq ws "ws" then some id else none
relay_session _ = none

abbrev with_peer : String → Option String → WsRequest
with_peer peer none = refuse 404 "invalid path"
with_peer peer (some id) =
    if str_eq peer "" then refuse 400 "peer query is required" else accept id peer

-- `handleRelayWS` up to the upgrade.
unfoldable pub relay_ws_request : String → String → WsRequest
relay_ws_request path peer_query =
    if not (has_suffix "/ws" path)
    then refuse 404 "not found"
    else with_peer (trim_space peer_query) (relay_session (split_slash (trim_slashes path)))

-- One round of `readLoop`: the session, and what is written back on the socket.
abbrev acks_of : Codec → ℤ → Envelope → Option String → List Envelope
acks_of codec now env none = []
acks_of codec now env (some message) =
    elim (new_cmd_ack codec now env.sid env.seq env.rid false message) [
      | ok ack ↦ ack ∷ []
      | err e ↦ []
    ]

unfoldable pub read_round :
    Codec → ℤ → (String → Bool) → String → Envelope → Session → Outcome (Session × List Envelope)
read_round codec now drained peer env s = elim (validate env) [
  | some e ↦ done (s, [])
  | none ↦ (route codec now drained peer env s >>= λ r. done (r.0, acks_of codec now env r.1))
]

-- The session that a panic of `Route` leaves: what the earlier targets were sent stays, and the target
-- of the panic has been sent nothing.
abbrev left_by : Codec → ℤ → (String → Bool) → List String → Envelope → Session → Session
left_by codec now drained [] env s = s
left_by codec now drained (target ∷ rest) env s =
    elim (route_to_peer codec now (drained target) target env s) [
      | panic ↦ s
      | done r ↦ elim r.1 [ none ↦ left_by codec now drained rest env r.0 | some e ↦ r.0 ]
    ]

-- What the loop leaves: the hub, what it has written on its socket, and whether it ended by a panic.
pub record Ended : Type 0 where
  pub hub : Hub
  pub writes : List Envelope
  pub panicked : Bool

-- The deferred calls, with the session at the pointer `p`: they run at the end of the input, and also
-- before a panic goes on to net/http, which recovers it.
abbrev leave : String → String → ℕ → Bool → Session → Hub → Outcome Ended
leave session_id peer p panicked s h = unregister peer s >>= λ t. done (record {
  hub = remove_if_empty session_id (record h { heap = set h.heap p t });
  writes = [];
  panicked = panicked;
})

unfoldable pub read_loop :
    Codec
    → ℤ
    → (String → Bool)
    → String
    → String
    → ℕ
    → List Envelope
    → Session
    → Hub
    → Outcome Ended
read_loop codec now drained session_id peer p [] s h = leave session_id peer p false s h
read_loop codec now drained session_id peer p (env ∷ rest) s h =
    elim (read_round codec now drained peer env s) [
      | panic ↦
          leave session_id peer p true (left_by codec now drained (targets peer s.peers) env s) h
      | done r ↦ read_loop codec now drained session_id peer p rest r.0 h >>= λ q.
          done (record q { writes = r.1 ++ q.writes })
    ]

-- `queueSizeFromEnv`, where `parsed` is the result of `strconv.Atoi`.
unfoldable pub queue_size_from_env : String → Option ℤ → ℤ → ℤ
queue_size_from_env raw parsed fallback =
    if str_eq raw ""
    then fallback
    else elim parsed [ none ↦ fallback | some n ↦ if leb_ℤ n (pos 0) then fallback else n ]
