-- ===== src/Signaling/Room/Seats.antt =====
-- Who sits in the rooms of signaling/server.go, after any sequence of connects, disconnects and
-- signals of any devices.
use vibe_deck.Prelude.{
  ℕ, Bool, true, false, ◌&&◌, Option, none, some, List, [], ◌∷◌, String, ◌≡◌, refl, sym, ◌∙◌, arith,
  if◌then◌else◌, inl, inr, Bool-cases, eq_iff, str_eq,
}
use mathlib.Core.Path.{subst}
use vibe_deck.GoMap.{lookup, insert, delete, lookup-insert, lookup-delete}
use vibe_deck.Protocol.Envelope.{Envelope}
use vibe_deck.Signaling.Store.{Role, pc, mobile}
use vibe_deck.Signaling.Room.{
  Room, Rooms, append_pending, attach_conn, detach_conn, forward_or_queue, or_empty, take_seat,
  leave_seat, is_conn, is_none, detach_found, forward_found, forward_to,
}
use vibe_deck.Signaling.Room.Acts.{Act, attach, detach, signal, rooms_after, act, run}

-- The specification: a seat holds at most one connection.
abbrev pub Seats : Type 0
Seats = String → Role → Option ℕ

abbrev pub same_role : Role → Role → Bool
same_role pc pc = true
same_role mobile mobile = true
same_role _ _ = false

abbrev pub sit : Act → Seats → Seats
sit (attach id role conn) seats j r =
    if str_eq id j && same_role role r then some conn else seats j r
sit (detach id role conn) seats j r =
    if str_eq id j && same_role role r && is_conn (seats j r) conn then none else seats j r
sit (signal id role env) seats j r = seats j r

abbrev pub sit_all : List Act → Seats → Seats
sit_all [] seats = seats
sit_all (a ∷ rest) seats = sit_all rest (sit a seats)

abbrev pub conn_in : Role → Option Room → Option ℕ
conn_in r none = none
conn_in pc (some rm) = rm.pc_conn
conn_in mobile (some rm) = rm.mobile_conn

abbrev pub seats_of : Rooms → Seats
seats_of rooms j r = conn_in r (lookup j rooms)

seats_of-insert :
    (id : String) (rm : Room) (rooms : Rooms) (j : String) (r : Role)
    → seats_of (insert id rm rooms) j r
      ≡ (if str_eq id j then conn_in r (some rm) else seats_of rooms j r)
seats_of-insert id rm rooms j r = elim (Bool-cases (str_eq id j)) [
  | inl e ↦ rw (lookup-insert id j rm rooms, e) refl
  | inr e ↦ rw (lookup-insert id j rm rooms, e) refl
]

seats_of-delete :
    (id : String) (rooms : Rooms) (j : String) (r : Role)
    → seats_of (delete id rooms) j r ≡ (if str_eq id j then none else seats_of rooms j r)
seats_of-delete id rooms j r = elim (Bool-cases (str_eq id j)) [
  | inl e ↦ rw (lookup-delete id j rooms, e) refl
  | inr e ↦ rw (lookup-delete id j rooms, e) refl
]

-- A step that changes the seats of the room `id` only.
local_change :
    (id : String) (f : Option ℕ) (rooms : Rooms) (j : String) (r : Role) (g : Bool) (v : Option ℕ)
    → f ≡ (if g then v else seats_of rooms id r)
    → (if str_eq id j then f else seats_of rooms j r)
      ≡ (if str_eq id j && g then v else seats_of rooms j r)
local_change id f rooms j r g v h = elim (Bool-cases (str_eq id j)) [
  | inl e ↦
      rw e (subst (λ (i : String). f ≡ (if g then v else seats_of rooms i r)) ((eq_iff id j).0 e) h)
  | inr e ↦ rw e refl
]

take_seat-conn :
    (role : Role) (conn : ℕ) (o : Option Room) (r : Role)
    → conn_in r (some (take_seat role conn (or_empty o)).0)
      ≡ (if same_role role r then some conn else conn_in r o)
unfolding take_seat
take_seat-conn pc conn none pc = refl
take_seat-conn pc conn none mobile = refl
take_seat-conn mobile conn none pc = refl
take_seat-conn mobile conn none mobile = refl
take_seat-conn pc conn (some rm) pc = refl
take_seat-conn pc conn (some rm) mobile = refl
take_seat-conn mobile conn (some rm) pc = refl
take_seat-conn mobile conn (some rm) mobile = refl

attach_seats :
    (id : String) (role : Role) (conn : ℕ) (rooms : Rooms) (j : String) (r : Role)
    → seats_of (act (attach id role conn) rooms) j r
      ≡ sit (attach id role conn) (seats_of rooms) j r
unfolding attach_conn
attach_seats id role conn rooms j r =
    let rm = (take_seat role conn (or_empty (lookup id rooms))).0 in
    seats_of-insert id rm rooms j r
    ∙ local_change id (conn_in r (some rm)) rooms j r (same_role role r) (some conn)
        (take_seat-conn role conn (lookup id rooms) r)

leave_seat-conn :
    (role : Role) (conn : ℕ) (rm : Room) (r : Role)
    → conn_in r (some (leave_seat role conn rm)) ≡ (
        if same_role role r && is_conn (conn_in r (some rm)) conn
        then none
        else conn_in r (some rm))
unfolding leave_seat
leave_seat-conn pc conn rm pc = ground arith
leave_seat-conn pc conn rm mobile = ground arith
leave_seat-conn mobile conn rm pc = ground arith
leave_seat-conn mobile conn rm mobile = ground arith

is_none_lem : (o : Option ℕ) → is_none o ≡ true → o ≡ none
is_none_lem none h = refl
is_none_lem (some c) h = ground arith

empty_seats :
    (rm : Room) (r : Role)
    → is_none rm.pc_conn && is_none rm.mobile_conn ≡ true
    → none ≡ conn_in r (some rm)
empty_seats rm pc h = sym (is_none_lem rm.pc_conn (ground arith))
empty_seats rm mobile h = sym (is_none_lem rm.mobile_conn (ground arith))

detach_found-seats :
    (id : String) (role : Role) (conn : ℕ) (o : Option Room) (rooms : Rooms)
    → lookup id rooms ≡ o
    → (j : String) (r : Role)
    → seats_of (detach_found id role conn o rooms) j r ≡ (
        if str_eq id j && (same_role role r && is_conn (conn_in r o) conn)
        then none
        else seats_of rooms j r)
detach_found-seats id role conn none rooms l j r = ground arith
detach_found-seats id role conn (some old) rooms l j r =
    let rm = leave_seat role conn old in
    let g = same_role role r && is_conn (conn_in r (some old)) conn in
    let left : conn_in r (some rm) ≡ (if g then none else seats_of rooms id r) =
      rw l (leave_seat-conn role conn old r) in
    elim (Bool-cases (is_none rm.pc_conn && is_none rm.mobile_conn)) [
      | inl e ↦ rw e (
          seats_of-delete id rooms j r
          ∙ local_change id none rooms j r g none (empty_seats rm r e ∙ left))
      | inr e ↦ rw e (
          seats_of-insert id rm rooms j r
          ∙ local_change id (conn_in r (some rm)) rooms j r g none left)
    ]

detach_seats :
    (id : String) (role : Role) (conn : ℕ) (rooms : Rooms) (j : String) (r : Role)
    → seats_of (act (detach id role conn) rooms) j r
      ≡ sit (detach id role conn) (seats_of rooms) j r
unfolding detach_conn
detach_seats id role conn rooms j r =
    detach_found-seats id role conn (lookup id rooms) rooms refl j r
    ∙ elim (Bool-cases (str_eq id j)) [
      | inl e ↦
          subst
            (λ (i : String).
              (if str_eq id j && (same_role role r && is_conn (seats_of rooms id r) conn)
                then none
                else seats_of rooms j r)
              ≡ (if str_eq id j && same_role role r && is_conn (seats_of rooms i r) conn
                  then none
                  else seats_of rooms j r))
            ((eq_iff id j).0 e) (ground arith)
      | inr e ↦ rw e refl
    ]

unseated :
    (id : String) (rm : Room) (rooms : Rooms) (j : String) (r : Role)
    → conn_in r (some rm) ≡ seats_of rooms id r
    → seats_of (insert id rm rooms) j r ≡ seats_of rooms j r
unseated id rm rooms j r h =
    seats_of-insert id rm rooms j r
    ∙ local_change id (conn_in r (some rm)) rooms j r false none h
    ∙ ground arith

forward_to-seats :
    (id : String) (target : Option ℕ) (rm : Room) (rooms : Rooms) (j : String) (r : Role)
    → conn_in r (some rm) ≡ seats_of rooms id r
    → seats_of (rooms_after (forward_to id target rm rooms) rooms) j r ≡ seats_of rooms j r
forward_to-seats id none rm rooms j r h = unseated id rm rooms j r h
forward_to-seats id (some target) rm rooms j r h = refl

same_conns :
    (rm : Room) (for_pc for_mobile : List Envelope) (r : Role)
    → conn_in r (some (record rm { pending_for_pc = for_pc; pending_for_mobile = for_mobile }))
      ≡ conn_in r (some rm)
same_conns rm for_pc for_mobile pc = refl
same_conns rm for_pc for_mobile mobile = refl

forward_found-seats :
    (id : String) (role : Role) (env : Envelope) (o : Option Room) (rooms : Rooms)
    → lookup id rooms ≡ o
    → (j : String) (r : Role)
    → seats_of (rooms_after (forward_found id role env o rooms) rooms) j r ≡ seats_of rooms j r
forward_found-seats id role env none rooms l j r = refl
forward_found-seats id pc env (some rm) rooms l j r =
    let waits = record rm { pending_for_mobile = append_pending rm.pending_for_mobile env } in
    forward_to-seats id rm.mobile_conn waits rooms j r
      (rw l (same_conns rm rm.pending_for_pc (append_pending rm.pending_for_mobile env) r))
forward_found-seats id mobile env (some rm) rooms l j r =
    let waits = record rm { pending_for_pc = append_pending rm.pending_for_pc env } in
    forward_to-seats id rm.pc_conn waits rooms j r
      (rw l (same_conns rm (append_pending rm.pending_for_pc env) rm.pending_for_mobile r))

signal_seats :
    (id : String) (role : Role) (env : Envelope) (rooms : Rooms) (j : String) (r : Role)
    → seats_of (act (signal id role env) rooms) j r ≡ seats_of rooms j r
unfolding forward_or_queue
signal_seats id role env rooms j r =
    forward_found-seats id role env (lookup id rooms) rooms refl j r

act_seats :
    (a : Act) (rooms : Rooms) (j : String) (r : Role)
    → seats_of (act a rooms) j r ≡ sit a (seats_of rooms) j r
act_seats (attach id role conn) rooms j r = attach_seats id role conn rooms j r
act_seats (detach id role conn) rooms j r = detach_seats id role conn rooms j r
act_seats (signal id role env) rooms j r = signal_seats id role env rooms j r

sit-cong :
    (a : Act) (f g : Seats) (j : String) (r : Role) → f j r ≡ g j r → sit a f j r ≡ sit a g j r
sit-cong (attach id role conn) f g j r h = rw h refl
sit-cong (detach id role conn) f g j r h = rw h refl
sit-cong (signal id role env) f g j r h = h

sit_all-cong :
    (acts : List Act) (f g : Seats)
    → ((j : String) (r : Role) → f j r ≡ g j r)
    → (j : String) (r : Role) → sit_all acts f j r ≡ sit_all acts g j r
sit_all-cong [] f g h j r = h j r
sit_all-cong (a ∷ rest) f g h j r =
    sit_all-cong rest (sit a f) (sit a g) (λ i q. sit-cong a f g i q (h i q)) j r

-- The rooms keep the seats as the specification does: the last connection of a device has its
-- seat, and only its own end empties it, however the old connections of the device end.
pub seats_refine :
    (acts : List Act) (rooms : Rooms) (j : String) (r : Role)
    → seats_of (run acts rooms) j r ≡ sit_all acts (seats_of rooms) j r
seats_refine [] rooms j r = refl
seats_refine (a ∷ rest) rooms j r =
    seats_refine rest (act a rooms) j r
    ∙ sit_all-cong rest (seats_of (act a rooms)) (sit a (seats_of rooms)) (act_seats a rooms) j r
