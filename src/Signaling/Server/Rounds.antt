-- ===== src/Signaling/Server/Rounds.antt =====
-- What the loop of signaling/server.go does with the envelopes that it reads.
use Prim.Native.String.{◌++◌ as concat, len}
use text.Mathlib.TextPositions.{len-append}
use vibe_deck.Prelude.{
  ℕ, ℤ, pos, true, false, Option, none, some, List, [], ◌∷◌, ◌++◌, String, ltb_ℤ, leb_ℤ, ◌≡◌, ◌≢◌,
  refl, sym, ◌∙◌, ap, arith, inl, inr, Bool-cases, Option-cases, if◌then◌else◌, eq_refl,
}
use vibe_deck.Protocol.Models.{CmdAckPayload}
use vibe_deck.Protocol.Envelope.{Envelope, Codec, IsJson, validate, decode_payload}
use vibe_deck.Protocol.Envelope as Protocol
use vibe_deck.Protocol.Envelope.Laws.{IsComplete, validate_iff, ack_envelope_round_trip}
use vibe_deck.Signaling.Store.{Role, pc, mobile}
use vibe_deck.Signaling.Validation.{
  MaySend, validate_signal_envelope, validate_signal_envelope-MaySend,
}
use vibe_deck.GoMap.{lookup, insert}
use vibe_deck.Signaling.Room.Queue.{
  joined, waiting, conn_of, pending_of, peer_of, forward_queues, forward_writes_to,
}
use vibe_deck.Signaling.Room.{Room, Rooms, forward_or_queue, is_conn}
use vibe_deck.Signaling.Room.Acts.{Act, detach, signal, act, run, rooms_after}
use vibe_deck.Signaling.Room.Seats.{seats_of, same_role, seats_refine}
use vibe_deck.Signaling.Room.Occupied.{IsRooms, run-IsRooms}
use vibe_deck.Signaling.Server.{
  Writes, write_to, send_server_ack, judge_checked, judge, accepted_of, message_of, Frame,
  read_round, read_loop, forward_error, forward_writes,
}

stamped-ne : (stamp : String) → concat "srv_ack_" stamp ≢ ""
stamped-ne stamp h =
    let e : len (concat "srv_ack_" stamp) ≡ 0 = ap len h in
    let k : len "srv_ack_" ≡ 8 = refl in omega (arith, len-append "srv_ack_" stamp)

nonneg_of_pos : (now : ℤ) → leb_ℤ now (pos 0) ≡ false → ltb_ℤ now (pos 0) ≡ false
nonneg_of_pos now h = ground arith

-- Each envelope that the loop reads is answered by one acknowledgement on the connection that it came
-- from, for a session with an id and a clock past 1970: after the packet that is forwarded, if one
-- is, and with the rid of the request and the verdict, which is decoded again as it was.
pub round_acked :
    (codec : Codec)
    → IsJson codec
    → (session_id : String) (role : Role) (conn : ℕ) (f : Frame) (rooms : Rooms) → session_id ≢ ""
    → leb_ℤ f.now (pos 0) ≡ false
    → let r = judge codec session_id role f.write_error f.env rooms in
      (ack : Envelope) × ((read_round codec session_id role conn f rooms).1
        ≡ r.writes ++ (conn, ack) ∷ [])
      × (decode_payload codec.unmarshal_cmd_ack ack
          ≡ Protocol.ok (record {
            request_rid = f.env.rid;
            accepted = accepted_of r.error;
            message = message_of r.error;
          }))
unfolding read_round send_server_ack
round_acked codec json session_id role conn f rooms h1 h2 =
    let r = judge codec session_id role f.write_error f.env rooms in
    let p : CmdAckPayload = record {
      request_rid = f.env.rid;
      accepted = accepted_of r.error;
      message = message_of r.error;
    } in
    let (ack, built, is_ack, decoded) =
      ack_envelope_round_trip codec json f.now session_id f.now (concat "srv_ack_" f.stamp) p
        (stamped-ne f.stamp) h1 (nonneg_of_pos f.now h2) h2 in
    (ack, ap (λ (x : Protocol.Result Envelope). r.writes ++ write_to conn x) built, decoded)

-- How an accepted envelope is passed on: to the connection in the peer's seat, without an error, or,
-- if that seat is empty, into the peer's queue.
pub data Passed (session_id : String) (role : Role) (f : Frame) (rooms : Rooms)
    : Writes → Rooms → Type 0 where
  to_peer :
      (rm : Room) (target : ℕ)
      → lookup session_id rooms ≡ some rm
      → conn_of (peer_of role) rm ≡ some target
      → f.write_error ≡ none
      → Passed session_id role f rooms ((target, f.env) ∷ []) rooms
  to_queue :
      (rm : Room)
      → lookup session_id rooms ≡ some rm
      → conn_of (peer_of role) rm ≡ none
      → Passed session_id role f rooms []
          (insert session_id (waiting role (joined (pending_of (peer_of role) rm) f.env) rm) rooms)

forwarded_in :
    (session_id : String) (role : Role) (f : Frame) (rooms : Rooms) (rm : Room)
    → lookup session_id rooms ≡ some rm
    → let o = forward_or_queue session_id role f.env rooms in
      forward_error session_id f.write_error o ≡ none
      → Passed session_id role f rooms (forward_writes f.env o) (rooms_after o rooms)
forwarded_in session_id role f rooms rm l h = elim (Option-cases (conn_of (peer_of role) rm)) [
  | inl c ↦ rw (forward_queues session_id role f.env rooms rm l c) (to_queue rm l c)
  | inr (target, c) ↦
      let e = forward_writes_to session_id role f.env rooms rm target l c in
      rw e (to_peer rm target l c (rw e at h))
]

passed :
    (session_id : String) (role : Role) (f : Frame) (rooms : Rooms)
    → let o = forward_or_queue session_id role f.env rooms in
      forward_error session_id f.write_error o ≡ none
      → Passed session_id role f rooms (forward_writes f.env o) (rooms_after o rooms)
unfolding forward_or_queue
passed session_id role f rooms h = elim (Option-cases (lookup session_id rooms)) [
  | inl l ↦ absurd (ground (arith, l))
  | inr (rm, l) ↦ forwarded_in session_id role f rooms rm l h
]

checked-ok :
    (v s : Option String) (session_id : String) (role : Role) (f : Frame) (rooms : Rooms)
    → let r = judge_checked v s session_id role f.write_error f.env rooms in
      r.error ≡ none → (v ≡ none) × (s ≡ none) × Passed session_id role f rooms r.writes r.rooms
checked-ok (some e) s session_id role f rooms h = absurd (ground arith)
checked-ok none (some e) session_id role f rooms h = absurd (ground arith)
checked-ok none none session_id role f rooms h = (refl, refl, passed session_id role f rooms h)

-- An envelope that is acknowledged as accepted is complete, belongs to the session of its
-- connection, has a type that the device may send, and there is a room for the session: it was
-- written, alone, to the connection in the peer's seat without an error, with the rooms unchanged,
-- or, if that seat is empty, nothing was written and it joined the peer's queue in that room, at the
-- end, where the oldest leaves a full queue.
pub judge-accepted :
    (codec : Codec) (session_id : String) (role : Role) (f : Frame) (rooms : Rooms)
    → (judge codec session_id role f.write_error f.env rooms).error ≡ none
    → let r = judge codec session_id role f.write_error f.env rooms in
      IsComplete f.env
      × (f.env.sid ≡ session_id)
      × MaySend role f.env.kind
      × Passed session_id role f rooms r.writes r.rooms
unfolding judge
judge-accepted codec session_id role f rooms h =
    let (v, s, p) =
      checked-ok (validate f.env) (validate_signal_envelope codec session_id role f.env) session_id
        role f rooms h in
    let (same, may) = validate_signal_envelope-MaySend codec session_id role f.env s in
    ((validate_iff f.env).0 v, same, may, p)

checked_act :
    (v s : Option String) (session_id : String) (role : Role) (f : Frame) (rooms : Rooms)
    → let r = judge_checked v s session_id role f.write_error f.env rooms in
      (acts : List Act) × (r.rooms ≡ run acts rooms)
checked_act (some e) s session_id role f rooms = ([], refl)
checked_act none (some e) session_id role f rooms = ([], refl)
checked_act none none session_id role f rooms = (signal session_id role f.env ∷ [], refl)

run-append : (xs ys : List Act) (rooms : Rooms) → run (xs ++ ys) rooms ≡ run ys (run xs rooms)
run-append [] ys rooms = refl
run-append (a ∷ xs) ys rooms = run-append xs ys (act a rooms)

-- What the loop does to the rooms is a sequence of signals of its device and, at its end, the detach
-- of its connection.
read_loop_acts :
    (codec : Codec) (session_id : String) (role : Role) (conn : ℕ) (fs : List Frame) (rooms : Rooms)
    → (acts : List Act) × ((read_loop codec session_id role conn fs rooms).0
        ≡ act (detach session_id role conn) (run acts rooms))
unfolding read_loop read_round judge
read_loop_acts codec session_id role conn [] rooms = ([], refl)
read_loop_acts codec session_id role conn (f ∷ rest) rooms =
    let next = (read_round codec session_id role conn f rooms).0 in
    let (first, e) =
      checked_act (validate f.env) (validate_signal_envelope codec session_id role f.env) session_id
        role f rooms in
    let (acts, k) = read_loop_acts codec session_id role conn rest next in
    (
      first ++ acts,
      k
          ∙ ap (λ (r : Rooms). act (detach session_id role conn) (run acts r)) e
          ∙ ap (act (detach session_id role conn)) (sym (run-append first acts rooms)),
    )

left_seat : (o : Option ℕ) (conn : ℕ) → is_conn (if is_conn o conn then none else o) conn ≡ false
left_seat o conn = elim (Bool-cases (is_conn o conn)) [ inl e ↦ rw e refl | inr e ↦ rw e e ]

same_role_refl : (role : Role) → same_role role role ≡ true
same_role_refl pc = refl
same_role_refl mobile = refl

-- A connection's loop, whatever it reads, keeps the shape of the rooms, and when it has ended its
-- connection has no seat.
read_loop_leaves :
    (codec : Codec) (session_id : String) (role : Role) (conn : ℕ) (fs : List Frame) (rooms : Rooms)
    → IsRooms rooms
    → let after = (read_loop codec session_id role conn fs rooms).0 in
      IsRooms after × (is_conn (seats_of after session_id role) conn ≡ false)
read_loop_leaves codec session_id role conn fs rooms h =
    let (acts, e) = read_loop_acts codec session_id role conn fs rooms in
    let middle = run acts rooms in
    rw e (
      run-IsRooms (detach session_id role conn ∷ []) middle (run-IsRooms acts rooms h),
      rw
          (
            seats_refine (detach session_id role conn ∷ []) middle session_id role,
            eq_refl session_id,
            same_role_refl role,
          )
          (left_seat (seats_of middle session_id role) conn),
    )
