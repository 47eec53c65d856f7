-- ===== src/Relay/Session.antt =====
-- relay/session.go: the peers of one session and their queues.
-- A Go channel is an object: `channels` is the heap of the channels that `register` made, a channel
-- is its index there, and `peers` maps a peer to its channel. A send on a closed channel, or a second
-- close, panics. The reader of a channel takes packets from its front.
-- The locks make each method one step, but for `route_to_peer`: it looks the channel up under the
-- lock and sends after it has let the lock go (`deliver`).
pub mod Safety
pub mod Sends
pub mod Races
pub mod Terminal
pub mod Stream
use Prim.Native.String.{◌++◌ as concat}
use mathlib.Core.List.{tail}
use vibe_deck.Prelude.{
  ℕ, zero, suc, ◌+◌, ◌==◌, ℤ, pos, Bool, true, false, Option, none, some, List, [], ◌∷◌, ◌++◌,
  String, ltb, str_eq, if◌then◌else◌, length, get_elem?, set,
}
use vibe_deck.GoMap.{GoMap, lookup, insert, delete}
use vibe_deck.Protocol.Models.{MessageType, term, term_summary, TermSummaryPayload, of_term_summary}
use vibe_deck.Protocol.Envelope.{Envelope, Codec, Result, ok, err, new_envelope}

pub record Channel : Type 0 where
  pub buffer : List Envelope
  pub closed : Bool

pub record Session : Type 0 where
  pub id : String
  pub queue_size : ℕ
  pub peers : GoMap ℕ
  pub dropped_term : GoMap ℕ
  pub channels : List Channel

-- A run of the code: its value, or a panic.
pub data Outcome {ℓ} (A : Type ℓ) : Type ℓ where
  done : A → Outcome A
  panic : Outcome A

infixl 5 ◌>>=◌
abbrev pub ◌>>=◌ {ℓ κ} : {A : Type ℓ} {B : Type κ} → Outcome A → (A → Outcome B) → Outcome B
done a >>= f = f a
panic >>= f = panic

unfoldable pub new_session : String → ℕ → Session
new_session id queue_size = record {
  id = id;
  queue_size = queue_size;
  peers = [];
  dropped_term = [];
  channels = [];
}

-- close(ch)
abbrev close_found : ℕ → Option Channel → Session → Outcome Session
close_found i none s = panic
close_found i (some ch) s =
    if ch.closed
    then panic
    else done (record s { channels = set s.channels i (record ch { closed = true }) })

unfoldable pub close_channel : ℕ → Session → Outcome Session
close_channel i s = close_found i (get_elem? s.channels i) s

abbrev close_old : Option ℕ → Session → Outcome Session
close_old none s = done s
close_old (some old) s = close_channel old s

-- The result is the new channel, which the caller reads from.
unfoldable pub register : String → Session → Outcome (Session × ℕ)
register peer s =
    let ch = length s.channels in
    let made = record s {
      channels = s.channels ++ (record { buffer = []; closed = false }) ∷ [];
    } in
    close_old (lookup peer made.peers) made >>= λ t.
    done (record t { peers = insert peer ch t.peers }, ch)

abbrev unregister_found : String → Option ℕ → Session → Outcome Session
unregister_found peer none s = done s
unregister_found peer (some ch) s =
    close_channel ch
      (record s { peers = delete peer s.peers; dropped_term = delete peer s.dropped_term })

unfoldable pub unregister : String → Session → Outcome Session
unregister peer s = unregister_found peer (lookup peer s.peers) s

unfoldable pub peer_count : Session → ℕ
peer_count s = length s.peers

-- What a channel does with a packet now: `select` with a send and a default.
pub data Sending : Type 0 where
  sent : Session → Sending
  full : Sending
  broken : Sending

abbrev send_found : ℕ → Envelope → Option Channel → Session → Sending
send_found i env none s = broken
send_found i env (some ch) s =
    if ch.closed
    then broken
    else if ltb (length ch.buffer) s.queue_size
    then sent
        (record s { channels = set s.channels i (record ch { buffer = ch.buffer ++ env ∷ [] }) })
    else full

unfoldable pub try_send : ℕ → Envelope → Session → Sending
try_send i env s = send_found i env (get_elem? s.channels i) s

abbrev pub or_zero : Option ℕ → ℕ
or_zero none = 0
or_zero (some n) = n

unfoldable pub current_drop_counter : String → Session → ℕ
current_drop_counter target s = or_zero (lookup target s.dropped_term)

unfoldable pub increment_drop_counter : String → Session → Session
increment_drop_counter target s = record s {
  dropped_term = insert target (or_zero (lookup target s.dropped_term) + 1) s.dropped_term;
}

unfoldable pub reset_drop_counter : String → Session → Session
reset_drop_counter target s = record s { dropped_term = insert target 0 s.dropped_term }

abbrev pub after_summary : String → Session → Sending → Outcome Session
after_summary target s (sent s') = done (reset_drop_counter target s')
after_summary target s full = done s
after_summary target s broken = panic

abbrev pub emit_summary : ℕ → String → Session → Result Envelope → Outcome Session
emit_summary ch target s (err e) = done s
emit_summary ch target s (ok summary) = after_summary target s (try_send ch summary s)

-- The packet that stands for the dropped ones.
abbrev pub term_summary_of : Codec → ℤ → Envelope → ℕ → Result Envelope
term_summary_of codec now env dropped =
    new_envelope codec now env.sid (concat env.rid "_term_summary") env.seq term_summary
      (of_term_summary (record { skipped_lines = pos dropped }))

unfoldable pub try_emit_term_summary : Codec → ℤ → ℕ → Envelope → String → Session → Outcome Session
try_emit_term_summary codec now ch env target s =
    let dropped = current_drop_counter target s in
    if dropped == 0
    then done s
    else emit_summary ch target s (term_summary_of codec now env dropped)

abbrev pub after_term : String → Session → Sending → Outcome (Session × Option String)
after_term target s (sent s') = done (s', none)
after_term target s full = done (increment_drop_counter target s, none)
after_term target s broken = panic

-- The first packet leaves the channel, which makes room for the one that waits.
abbrev pub push_after_take : ℕ → Envelope → Option Channel → Session → Session
push_after_take i env none s = s
push_after_take i env (some ch) s = record s {
  channels = set s.channels i (record ch { buffer = tail ch.buffer ++ env ∷ [] });
}

-- The `select` of a control packet with `time.After`: at a full channel it waits until the reader
-- takes a packet (`drained`) or 800 ms are over.
abbrev pub after_control :
    Bool → ℕ → Envelope → String → Session → Sending → Outcome (Session × Option String)
after_control drained ch env target s (sent s') = done (s', none)
after_control drained ch env target s full =
    if drained
    then done (push_after_take ch env (get_elem? s.channels ch) s, none)
    else done (s, some (concat "control packet timeout for target=" target))
after_control drained ch env target s broken = panic

abbrev pub is_term : MessageType → Bool
is_term term = true
is_term _ = false

-- The part of `routeToPeer` after the lookup.
unfoldable pub deliver :
    Codec → ℤ → Bool → ℕ → String → Envelope → Session → Outcome (Session × Option String)
deliver codec now drained ch target env s =
    if is_term env.kind
    then (try_emit_term_summary codec now ch env target s >>= λ t.
        after_term target t (try_send ch env t))
    else after_control drained ch env target s (try_send ch env s)

abbrev route_found :
    Codec → ℤ → Bool → Option ℕ → String → Envelope → Session → Outcome (Session × Option String)
route_found codec now drained none target env s = done (s, none)
route_found codec now drained (some ch) target env s = deliver codec now drained ch target env s

unfoldable pub route_to_peer :
    Codec → ℤ → Bool → String → Envelope → Session → Outcome (Session × Option String)
route_to_peer codec now drained target env s =
    route_found codec now drained (lookup target s.peers) target env s

-- The peers other than the sender, at the time of the call.
unfoldable pub targets : String → GoMap ℕ → List String
targets from [] = []
targets from ((peer, ch) ∷ rest) =
    let others = targets from rest in if str_eq peer from then others else peer ∷ others

-- The loop stops at the first error.
unfoldable pub route_all :
    Codec
    → ℤ
    → (String → Bool)
    → List String
    → Envelope
    → Session
    → Outcome (Session × Option String)
route_all codec now drained [] env s = done (s, none)
route_all codec now drained (target ∷ rest) env s =
    route_to_peer codec now (drained target) target env s >>= λ r. elim r.1 [
      | none ↦ route_all codec now drained rest env r.0
      | some e ↦ done (r.0, some e)
    ]

unfoldable pub route :
    Codec → ℤ → (String → Bool) → String → Envelope → Session → Outcome (Session × Option String)
route codec now drained from env s = route_all codec now drained (targets from s.peers) env s

-- The writer of the connection takes the first packet of its channel.
abbrev pub take_found : ℕ → Option Channel → Session → Session
take_found i none s = s
take_found i (some ch) s = record s {
  channels = set s.channels i (record ch { buffer = tail ch.buffer });
}

unfoldable pub take_packet : ℕ → Session → Session
take_packet i s = take_found i (get_elem? s.channels i) s
