-- ===== src/Signaling/Room/Acts.antt =====
-- The steps of the rooms of signaling/server.go: the connects, disconnects and signals of any
-- devices, in the order in which they take the mutex.
use vibe_deck.Prelude.{ℕ, List, [], ◌∷◌, String}
use vibe_deck.Protocol.Envelope.{Envelope}
use vibe_deck.Signaling.Store.{Role}
use vibe_deck.Signaling.Room.{
  Rooms, attach_conn, detach_conn, forward_or_queue, Forwarding, no_room, queued, written_to,
}

pub data Act : Type 0 where
  attach : String → Role → ℕ → Act
  detach : String → Role → ℕ → Act
  signal : String → Role → Envelope → Act

abbrev pub rooms_after : Forwarding → Rooms → Rooms
rooms_after no_room rooms = rooms
rooms_after (queued next) rooms = next
rooms_after (written_to conn) rooms = rooms

abbrev pub act : Act → Rooms → Rooms
act (attach session_id role conn) rooms = (attach_conn session_id role conn rooms).rooms
act (detach session_id role conn) rooms = detach_conn session_id role conn rooms
act (signal session_id role env) rooms =
    rooms_after (forward_or_queue session_id role env rooms) rooms

abbrev pub run : List Act → Rooms → Rooms
run [] rooms = rooms
run (a ∷ rest) rooms = run rest (act a rooms)
