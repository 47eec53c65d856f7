-- ===== src/Signaling/Room.antt =====
-- The rooms of signaling/server.go: the connections of a session's two devices, and the signals that
-- wait for one that is not connected. A `*peerConn` is a number; the test `rm.pcConn == conn`
-- compares these. The mutex makes `attachConn`, `detachConn` and the choice of `forwardOrQueue` one
-- step each. A write on a socket is a library's: the functions say to which connection the
-- packet goes.
pub mod Queue
pub mod Acts
pub mod Seats
pub mod Occupied
use vibe_deck.Prelude.{
  ℕ, zero, suc, ◌+◌, ◌==◌, Bool, true, false, ◌&&◌, Option, none, some, List, [], ◌∷◌, ◌++◌, String,
  leb, if◌then◌else◌, length,
}
use mathlib.Core.List.{tail}
use vibe_deck.GoMap.{GoMap, lookup, insert, delete}
use vibe_deck.Protocol.Envelope.{Envelope}
use vibe_deck.Signaling.Store.{Role, pc, mobile}

abbrev pub max_pending_signals : ℕ
max_pending_signals = 128

pub record Room : Type 0 where
  pub pc_conn : Option ℕ
  pub mobile_conn : Option ℕ
  pub pending_for_pc : List Envelope
  pub pending_for_mobile : List Envelope

abbrev pub empty_room : Room
empty_room = record {
  pc_conn = none;
  mobile_conn = none;
  pending_for_pc = [];
  pending_for_mobile = [];
}

abbrev pub Rooms : Type 0
Rooms = GoMap Room

abbrev pub or_empty : Option Room → Room
or_empty none = empty_room
or_empty (some rm) = rm

-- The room after the device has taken its seat, the connection that it replaces (which is closed),
-- and the signals that waited for it.
unfoldable pub take_seat : Role → ℕ → Room → Room × Option ℕ × List Envelope
take_seat pc conn rm =
    (record rm { pc_conn = some conn; pending_for_pc = [] }, rm.pc_conn, rm.pending_for_pc)
take_seat mobile conn rm = (
  record rm { mobile_conn = some conn; pending_for_mobile = [] },
  rm.mobile_conn,
  rm.pending_for_mobile,
)

-- Both connections, once both devices are there.
abbrev pub ready_targets : Option ℕ → Option ℕ → List ℕ
ready_targets (some a) (some b) = a ∷ b ∷ []
ready_targets _ _ = []

pub record Attached : Type 0 where
  pub rooms : Rooms
  pub closed_conn : Option ℕ
  pub pending : List Envelope
  pub ready : List ℕ

unfoldable pub attach_conn : String → Role → ℕ → Rooms → Attached
attach_conn session_id role conn rooms =
    let (rm, old, pending) = take_seat role conn (or_empty (lookup session_id rooms)) in
    record {
      rooms = insert session_id rm rooms;
      closed_conn = old;
      pending = pending;
      ready = ready_targets rm.pc_conn rm.mobile_conn;
    }

abbrev pub is_conn : Option ℕ → ℕ → Bool
is_conn none conn = false
is_conn (some c) conn = c == conn

abbrev pub is_none : Option ℕ → Bool
is_none none = true
is_none (some c) = false

unfoldable pub leave_seat : Role → ℕ → Room → Room
leave_seat pc conn rm = if is_conn rm.pc_conn conn then record rm { pc_conn = none } else rm
leave_seat mobile conn rm =
    if is_conn rm.mobile_conn conn then record rm { mobile_conn = none } else rm

abbrev pub detach_found : String → Role → ℕ → Option Room → Rooms → Rooms
detach_found session_id role conn none rooms = rooms
detach_found session_id role conn (some old) rooms =
    let rm = leave_seat role conn old in
    if is_none rm.pc_conn && is_none rm.mobile_conn
    then delete session_id rooms
    else insert session_id rm rooms

unfoldable pub detach_conn : String → Role → ℕ → Rooms → Rooms
detach_conn session_id role conn rooms =
    detach_found session_id role conn (lookup session_id rooms) rooms

-- At the limit the oldest signal is dropped.
unfoldable pub append_pending : List Envelope → Envelope → List Envelope
append_pending queue env =
    (if leb max_pending_signals (length queue) then tail queue else queue) ++ env ∷ []

-- What becomes of a signal.
pub data Forwarding : Type 0 where
  no_room : Forwarding
  queued : Rooms → Forwarding
  written_to : ℕ → Forwarding

-- Without a target the room `rm` is kept, with the signal among those that wait.
abbrev pub forward_to : String → Option ℕ → Room → Rooms → Forwarding
forward_to session_id none rm rooms = queued (insert session_id rm rooms)
forward_to session_id (some target) rm rooms = written_to target

abbrev pub forward_found : String → Role → Envelope → Option Room → Rooms → Forwarding
forward_found session_id role env none rooms = no_room
forward_found session_id pc env (some rm) rooms =
    forward_to session_id rm.mobile_conn
      (record rm { pending_for_mobile = append_pending rm.pending_for_mobile env }) rooms
forward_found session_id mobile env (some rm) rooms =
    forward_to session_id rm.pc_conn
      (record rm { pending_for_pc = append_pending rm.pending_for_pc env }) rooms

unfoldable pub forward_or_queue : String → Role → Envelope → Rooms → Forwarding
forward_or_queue session_id role env rooms =
    forward_found session_id role env (lookup session_id rooms) rooms
