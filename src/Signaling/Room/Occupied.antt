-- ===== src/Signaling/Room/Occupied.antt =====
-- The shape of the rooms of signaling/server.go.
use vibe_deck.Prelude.{
  ℕ, ◌≤◌, Bool, false, ◌&&◌, Option, none, some, List, [], ◌∷◌, String, ◌≡◌, refl, arith, length,
  length-append, inl, inr, Bool-cases,
}
use vibe_deck.GoMap.{
  lookup, insert, IsMap, insert-IsMap, delete-IsMap, Each, Each-insert, Each-delete, Each-lookup,
}
use vibe_deck.Protocol.Envelope.{Envelope}
use vibe_deck.Signaling.Store.{Role, pc, mobile}
use vibe_deck.Signaling.Room.{
  Room, Rooms, max_pending_signals, append_pending, attach_conn, detach_conn, forward_or_queue,
  or_empty, take_seat, leave_seat, is_conn, is_none, detach_found, forward_found, forward_to,
  empty_room,
}
use vibe_deck.Signaling.Room.Acts.{Act, attach, detach, signal, rooms_after, act, run}

-- No signal waits for a device that is connected, and at most `max_pending_signals` for one that
-- is not.
abbrev pub WellQueued : Option ℕ → List Envelope → Type 0
WellQueued none queue = length queue ≤ max_pending_signals
WellQueued (some conn) queue = queue ≡ []

pub record IsRoom (rm : Room) : Type 0 where
  pub pc_well : WellQueued rm.pc_conn rm.pending_for_pc
  pub mobile_well : WellQueued rm.mobile_conn rm.pending_for_mobile

abbrev pub Occupied : Room → Type 0
Occupied rm = IsRoom rm × (is_none rm.pc_conn && is_none rm.mobile_conn ≡ false)

-- One room to a session, and none without a connection.
abbrev pub IsRooms : Rooms → Type 0
IsRooms rooms = IsMap rooms × Each (λ id rm. Occupied rm) rooms

length-append_pending :
    (queue : List Envelope) (env : Envelope)
    → length queue ≤ max_pending_signals
    → length (append_pending queue env) ≤ max_pending_signals
unfolding append_pending
length-append_pending [] env h = omega arith
length-append_pending (x ∷ xs) env h =
    ground (arith, length-append xs (env ∷ []), length-append (x ∷ xs) (env ∷ []))

insert-IsRooms :
    (id : String) (rm : Room) (rooms : Rooms)
    → Occupied rm
    → IsRooms rooms
    → IsRooms (insert id rm rooms)
insert-IsRooms id rm rooms o h = (
  insert-IsMap id rm rooms h.0,
  Each-insert (λ (i : String) (r : Room). Occupied r) id rm rooms o h.1,
)

found-Occupied :
    (id : String) (rm : Room) (rooms : Rooms)
    → IsRooms rooms
    → lookup id rooms ≡ some rm
    → Occupied rm
found-Occupied id rm rooms h l =
    Each-lookup (λ (i : String) (r : Room). Occupied r) id rm rooms h.1 l

empty-IsRoom : IsRoom empty_room
empty-IsRoom = record { pc_well = omega arith; mobile_well = omega arith }

or_empty-IsRoom :
    (id : String) (o : Option Room) (rooms : Rooms)
    → IsRooms rooms
    → lookup id rooms ≡ o
    → IsRoom (or_empty o)
or_empty-IsRoom id none rooms h l = empty-IsRoom
or_empty-IsRoom id (some rm) rooms h l = (found-Occupied id rm rooms h l).0

and_false : (b : Bool) → b && false ≡ false
and_false b = ground arith

take_seat-Occupied :
    (role : Role) (conn : ℕ) (rm : Room) → IsRoom rm → Occupied (take_seat role conn rm).0
unfolding take_seat
take_seat-Occupied pc conn rm h = (record { pc_well = refl; mobile_well = h.mobile_well }, refl)
take_seat-Occupied mobile conn rm h =
    (record { pc_well = h.pc_well; mobile_well = refl }, and_false (is_none rm.pc_conn))

bounded :
    (target : Option ℕ) (queue : List Envelope)
    → WellQueued target queue
    → length queue ≤ max_pending_signals
bounded none queue h = h
bounded (some conn) queue h = rw h (omega arith)

leave_seat-IsRoom :
    (role : Role) (conn : ℕ) (rm : Room) → IsRoom rm → IsRoom (leave_seat role conn rm)
unfolding leave_seat
leave_seat-IsRoom pc conn rm h = elim (Bool-cases (is_conn rm.pc_conn conn)) [
  | inl e ↦ rw e (record {
    pc_well = bounded rm.pc_conn rm.pending_for_pc h.pc_well;
    mobile_well = h.mobile_well;
  })
  | inr e ↦ rw e h
]
leave_seat-IsRoom mobile conn rm h = elim (Bool-cases (is_conn rm.mobile_conn conn)) [
  | inl e ↦ rw e (record {
    pc_well = h.pc_well;
    mobile_well = bounded rm.mobile_conn rm.pending_for_mobile h.mobile_well;
  })
  | inr e ↦ rw e h
]

detach_found-IsRooms :
    (id : String) (role : Role) (conn : ℕ) (o : Option Room) (rooms : Rooms)
    → IsRooms rooms
    → lookup id rooms ≡ o
    → IsRooms (detach_found id role conn o rooms)
detach_found-IsRooms id role conn none rooms h l = h
detach_found-IsRooms id role conn (some old) rooms h l =
    let rm = leave_seat role conn old in
    elim (Bool-cases (is_none rm.pc_conn && is_none rm.mobile_conn)) [
      | inl e ↦ rw e (
        delete-IsMap id rooms h.0,
        Each-delete (λ (i : String) (r : Room). Occupied r) id rooms h.1,
      )
      | inr e ↦
          let well = leave_seat-IsRoom role conn old (found-Occupied id old rooms h l).0 in
          rw e (insert-IsRooms id rm rooms (well, e) h)
    ]

-- A signal is queued only where the target `none` is.
forward_to-IsRooms :
    (id : String) (target : Option ℕ) (rm : Room) (rooms : Rooms)
    → IsRooms rooms
    → (target ≡ none → Occupied rm)
    → IsRooms (rooms_after (forward_to id target rm rooms) rooms)
forward_to-IsRooms id none rm rooms h o = insert-IsRooms id rm rooms (o refl) h
forward_to-IsRooms id (some conn) rm rooms h o = h

append_pending-WellQueued :
    (target : Option ℕ) (queue : List Envelope) (env : Envelope)
    → WellQueued target queue
    → target ≡ none
    → WellQueued target (append_pending queue env)
append_pending-WellQueued none queue env h e = length-append_pending queue env h
append_pending-WellQueued (some conn) queue env h e = cc

forward_found-IsRooms :
    (id : String) (role : Role) (env : Envelope) (o : Option Room) (rooms : Rooms)
    → IsRooms rooms
    → lookup id rooms ≡ o
    → IsRooms (rooms_after (forward_found id role env o rooms) rooms)
forward_found-IsRooms id role env none rooms h l = h
forward_found-IsRooms id pc env (some rm) rooms h l =
    let (well, seated) = found-Occupied id rm rooms h l in
    let queue = append_pending rm.pending_for_mobile env in
    forward_to-IsRooms id rm.mobile_conn (record rm { pending_for_mobile = queue }) rooms h
      λ e. (
        record {
          pc_well = well.pc_well;
          mobile_well =
              append_pending-WellQueued rm.mobile_conn rm.pending_for_mobile env well.mobile_well e;
        },
        seated,
      )
forward_found-IsRooms id mobile env (some rm) rooms h l =
    let (well, seated) = found-Occupied id rm rooms h l in
    let queue = append_pending rm.pending_for_pc env in
    forward_to-IsRooms id rm.pc_conn (record rm { pending_for_pc = queue }) rooms h
      λ e. (
        record {
          pc_well = append_pending-WellQueued rm.pc_conn rm.pending_for_pc env well.pc_well e;
          mobile_well = well.mobile_well;
        },
        seated,
      )

act-IsRooms : (a : Act) (rooms : Rooms) → IsRooms rooms → IsRooms (act a rooms)
unfolding attach_conn detach_conn forward_or_queue
act-IsRooms (attach id role conn) rooms h =
    let old = or_empty (lookup id rooms) in
    insert-IsRooms id (take_seat role conn old).0 rooms
      (take_seat-Occupied role conn old (or_empty-IsRoom id (lookup id rooms) rooms h refl)) h
act-IsRooms (detach id role conn) rooms h =
    detach_found-IsRooms id role conn (lookup id rooms) rooms h refl
act-IsRooms (signal id role env) rooms h =
    forward_found-IsRooms id role env (lookup id rooms) rooms h refl

-- After any connects, disconnects and signals, each session with a room has one, it has at least
-- one connection, no signal waits for a connected device, and at most `max_pending_signals` wait
-- for a device.
pub run-IsRooms : (acts : List Act) (rooms : Rooms) → IsRooms rooms → IsRooms (run acts rooms)
run-IsRooms [] rooms h = h
run-IsRooms (a ∷ rest) rooms h = run-IsRooms rest (act a rooms) (act-IsRooms a rooms h)
