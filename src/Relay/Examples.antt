-- ===== src/Relay/Examples.antt =====
-- Runs of the relay on concrete sessions.
use vibe_deck.Prelude.{
  ℕ, ◌+◌, pos, true, false, none, some, List, [], ◌∷◌, String, ◌≡◌, ◌≢◌, refl, sym, ◌∙◌, arith,
  get_elem?, eq_iff,
}
use vibe_deck.GoMap.{lookup}
use vibe_deck.Text.{
  trim_space, trim_slashes, split_slash, has_suffix, trim_left, trim_right, is_space,
}
use vibe_deck.Protocol.Models.{term}
use vibe_deck.Protocol.Envelope.{Envelope}
use vibe_deck.Protocol.TestCodec.{test_codec, read_count, test_codec-reads}
use vibe_deck.Relay.Session.{
  Channel, Session, done, panic, new_session, register, unregister, deliver, current_drop_counter,
  peer_count,
}
use vibe_deck.Relay.Session.Safety.{IsSession, fresh_channel}
use vibe_deck.Relay.Session.Sends.{Returns}
use vibe_deck.Relay.Session.Races.{
  Act, join, leave, pass, take, acts, acts_well, send_after_leave, old_connection_removes_new,
}
use vibe_deck.Relay.Session.Terminal.{ReadsSummary, lines, Holds}
use vibe_deck.Relay.Session.Stream.{TermAct, line, read, stream, line_count, stream_accounts}
use vibe_deck.Relay.Hub.{Hub, get_or_create, remove_if_empty}
use vibe_deck.Relay.Hub.Sharing.{orphaned_session}
use vibe_deck.Relay.Server.{relay_ws_request}
use vibe_deck.Relay.Server.Requests.{accept_relay}

abbrev output : Envelope
output = record { sid = "s1"; rid = "r1"; seq = pos 0; ts = pos 1; kind = term; payload = "{}" }

abbrev todo : List Act
todo = join "pc" ∷ join "phone" ∷ pass (λ t. false) "pc" output ∷ take 1 ∷ leave "phone" ∷ []

acts_well_example : Returns IsSession (acts test_codec (pos 5) todo (new_session "s1" 1))
acts_well_example = acts_well test_codec (pos 5) todo "s1" 1 (omega arith)

abbrev empty_session : Session
empty_session = new_session "s1" 1

-- The session with the phone on channel 0.
abbrev session : Session
session = record {
  id = "s1";
  queue_size = 1;
  peers = ("phone", 0) ∷ [];
  dropped_term = [];
  channels = fresh_channel ∷ [];
}

session-peer :
    (peer : String) (i : ℕ) → lookup peer session.peers ≡ some i → (i ≡ 0) × (peer ≡ "phone")
unfolding lookup
session-peer peer i e = ground (arith, eq_iff "phone" peer)

session-IsSession : IsSession session
unfolding lookup
session-IsSession = record {
  unique = (refl, tt);
  open_channel = λ peer i e. record {
    channel = fresh_channel;
    there = rw ((session-peer peer i e).0) refl;
    not_closed = refl;
    fits = omega arith;
  };
  distinct = λ peer other i e f. (session-peer peer i e).1 ∙ sym (session-peer other i f).1;
}

reads : ReadsSummary test_codec read_count
unfolding ReadsSummary
reads = test_codec-reads

session-Holds : Holds session 0 "phone" [] 0
unfolding current_drop_counter lookup
session-Holds = record { there = refl; counted = refl }

send_after_leave_example :
    (s' : Session) × (unregister "phone" session ≡ done s')
    × (deliver test_codec (pos 5) true 0 "phone" output s' ≡ panic)
unfolding lookup
send_after_leave_example =
    send_after_leave test_codec (pos 5) true "phone" 0 output session session-IsSession refl

old_connection_removes_new_example :
    (s1 s2 s3 : Session) × (i j : ℕ) × (register "phone" session ≡ done (s1, i))
    × (register "phone" s1 ≡ done (s2, j))
    × (unregister "phone" s2 ≡ done s3)
    × (lookup "phone" s3.peers ≡ none)
    × (c : Channel) × (get_elem? s3.channels j ≡ some c)
    × (c.closed ≡ true)
old_connection_removes_new_example = old_connection_removes_new "phone" session session-IsSession

abbrev burst : List TermAct
burst = line output ∷ line output ∷ read ∷ line output ∷ []

stream_accounts_example :
    (s' : Session) × (n' : ℕ) × (buffer' : List Envelope) × (count' : ℕ) × (stream test_codec
        read_count
        (pos 5)
        0
        "phone"
        burst
        session
        0
      ≡ done (s', n'))
    × Holds s' 0 "phone" buffer' count'
    × (n' + lines read_count buffer' + count' ≡ 0 + lines read_count [] + 0 + line_count burst)
stream_accounts_example =
    stream_accounts test_codec read_count reads (pos 5) 0 "phone" burst session 0 [] 0
      (refl, (refl, (tt, (refl, tt)))) session-Holds

abbrev hub : Hub
hub = record { sessions = ("s1", 0) ∷ []; queue_size = 1; heap = empty_session ∷ [] }

orphaned_session_example :
    (get_or_create "s1" (remove_if_empty "s1" (get_or_create "s1" hub).0)).1
    ≢ (get_or_create "s1" hub).1
unfolding get_or_create lookup peer_count new_session
orphaned_session_example = orphaned_session "s1" hub empty_session refl refl

abbrev peer_name : String
peer_name = "pc"

accept_relay_example :
    (split_slash (trim_slashes "/v1/relay/s1/ws") ≡ "v1" ∷ "relay" ∷ "s1" ∷ "ws" ∷ [])
    × (peer_name ≡ trim_space " pc")
    × (peer_name ≢ "")
unfolding relay_ws_request split_slash trim_slashes trim_space trim_left trim_right is_space
    has_suffix
accept_relay_example = accept_relay "/v1/relay/s1/ws" " pc" "s1" peer_name refl
