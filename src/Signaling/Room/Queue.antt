-- ===== src/Signaling/Room/Queue.antt =====
-- The signals that wait for a device (`appendPending` and `attachConn` of signaling/server.go).
use mathlib.Core.List.{append-nil, append_assoc}
use vibe_deck.Prelude.{
  ℕ, ◌+◌, ◌≤◌, ◌<◌, Bool, true, false, Option, none, some, List, [], ◌∷◌, ◌++◌, String, ◌≡◌, refl,
  sym, ap, ◌∙◌, arith, leb, length, length-append, if◌then◌else◌, inl, inr, Bool-cases, eq_refl,
}
use vibe_deck.GoMap.{lookup, insert, lookup-insert}
use vibe_deck.Protocol.Envelope.{Envelope}
use vibe_deck.Signaling.Store.{Role, pc, mobile}
use vibe_deck.Signaling.Room.{
  Room, Rooms, max_pending_signals, append_pending, attach_conn, forward_or_queue, Forwarding,
  no_room, queued, written_to, take_seat,
}

-- The last `n` elements.
abbrev pub last_of : ℕ → List Envelope → List Envelope
last_of n [] = []
last_of n (x ∷ xs) = let rest = last_of n xs in if leb (length (x ∷ xs)) n then x ∷ xs else rest

-- Signals queued one after another.
unfoldable pub append_all : List Envelope → List Envelope → List Envelope
append_all queue [] = queue
append_all queue (e ∷ es) = append_all (append_pending queue e) es

last_of_all : (n : ℕ) (xs : List Envelope) → length xs ≤ n → last_of n xs ≡ xs
last_of_all n [] h = refl
last_of_all n (x ∷ xs) h = ground arith

last_of_tail :
    (n : ℕ) (x : Envelope) (xs : List Envelope)
    → n < length (x ∷ xs)
    → last_of n (x ∷ xs) ≡ last_of n xs
last_of_tail n x xs h = ground arith

append_pending-last :
    (queue : List Envelope) (env : Envelope)
    → length queue ≤ max_pending_signals
    → append_pending queue env ≡ last_of max_pending_signals (queue ++ env ∷ [])
unfolding append_pending
append_pending-last [] env h = refl
append_pending-last (x ∷ xs) env h = elim (Bool-cases (leb max_pending_signals (length (x ∷ xs)))) [
  | inl e ↦ rw e (
      sym (
        last_of_tail max_pending_signals x (xs ++ env ∷ [])
          (ground (arith, length-append xs (env ∷ [])))
        ∙ last_of_all max_pending_signals (xs ++ env ∷ [])
            (omega (arith, length-append xs (env ∷ [])))))
  | inr e ↦ rw e (
      sym (
        last_of_all max_pending_signals (x ∷ xs ++ env ∷ [])
          (ground (arith, length-append xs (env ∷ [])))))
]

-- The newest signals of a queue that `env` joins: one leaves if the queue is full.
abbrev pub joined : List Envelope → Envelope → List Envelope
joined queue env =
    last_of (if leb max_pending_signals (length queue) then length queue else length queue + 1)
      (queue ++ env ∷ [])

joined_at :
    (full : Bool) (x : Envelope) (xs : List Envelope) (env : Envelope)
    → (if full then xs else x ∷ xs) ++ env ∷ []
      ≡ last_of (if full then length (x ∷ xs) else length (x ∷ xs) + 1) (x ∷ xs ++ env ∷ [])
joined_at true x xs env =
    let n = length (x ∷ xs) in
    sym (
      last_of_tail n x (xs ++ env ∷ []) (omega (arith, length-append xs (env ∷ [])))
      ∙ last_of_all n (xs ++ env ∷ []) (omega (arith, length-append xs (env ∷ []))))
joined_at false x xs env = sym (
    last_of_all (length (x ∷ xs) + 1) (x ∷ xs ++ env ∷ [])
      (omega (arith, length-append xs (env ∷ []))))

append_pending-joined :
    (queue : List Envelope) (env : Envelope) → append_pending queue env ≡ joined queue env
unfolding append_pending
append_pending-joined [] env = refl
append_pending-joined (x ∷ xs) env = joined_at (leb max_pending_signals (length (x ∷ xs))) x xs env

last_of-append :
    (n : ℕ) (xs ys : List Envelope) → last_of n (last_of n xs ++ ys) ≡ last_of n (xs ++ ys)
last_of-append n [] ys = refl
last_of-append n (x ∷ xs) ys = elim (Bool-cases (leb (length (x ∷ xs)) n)) [
  | inl e ↦ rw e
  | inr e ↦ rw e (
      last_of-append n xs ys
      ∙ sym (last_of_tail n x (xs ++ ys) (ground (arith, length-append xs ys))))
]

length-last_of : (n : ℕ) (xs : List Envelope) → length (last_of n xs) ≤ n
length-last_of n [] = omega arith
length-last_of n (x ∷ xs) = ground (arith, length-last_of n xs)

-- The queue after any signals holds the newest of them, in their order, up to the limit.
pub append_all-last :
    (queue es : List Envelope)
    → length queue ≤ max_pending_signals
    → append_all queue es ≡ last_of max_pending_signals (queue ++ es)
unfolding append_all
append_all-last queue [] h =
    sym (last_of_all max_pending_signals (queue ++ []) (rw (append-nil queue) h) ∙ append-nil queue)
append_all-last queue (e ∷ es) h =
    let n = max_pending_signals in
    let step = append_pending-last queue e h in
    append_all-last (append_pending queue e) es (rw step (length-last_of n (queue ++ e ∷ [])))
    ∙ ap (λ (q : List Envelope). last_of n (q ++ es)) step
    ∙ last_of-append n (queue ++ e ∷ []) es
    ∙ ap (last_of n) (append_assoc queue (e ∷ []) es)

-- The device's own seat, and the other one.
abbrev pub conn_of : Role → Room → Option ℕ
conn_of pc rm = rm.pc_conn
conn_of mobile rm = rm.mobile_conn

abbrev pub pending_of : Role → Room → List Envelope
pending_of pc rm = rm.pending_for_pc
pending_of mobile rm = rm.pending_for_mobile

abbrev pub peer_of : Role → Role
peer_of pc = mobile
peer_of mobile = pc

-- The rooms after a device has sent signals while its peer is away; none if one is not queued.
abbrev pub rooms_of : Forwarding → Option Rooms
rooms_of no_room = none
rooms_of (queued rooms) = some rooms
rooms_of (written_to conn) = none

abbrev pub and_then : Option Rooms → (Rooms → Option Rooms) → Option Rooms
and_then none f = none
and_then (some rooms) f = f rooms

abbrev pub send_all : String → Role → List Envelope → Rooms → Option Rooms
send_all session_id role [] rooms = some rooms
send_all session_id role (e ∷ es) rooms =
    and_then (rooms_of (forward_or_queue session_id role e rooms)) (send_all session_id role es)

-- The pending signals of the peer become `queue`.
abbrev pub waiting : Role → List Envelope → Room → Room
waiting pc queue rm = record rm { pending_for_mobile = queue }
waiting mobile queue rm = record rm { pending_for_pc = queue }

pub forward_queues :
    (session_id : String) (role : Role) (e : Envelope) (rooms : Rooms) (rm : Room)
    → lookup session_id rooms ≡ some rm
    → conn_of (peer_of role) rm ≡ none
    → forward_or_queue session_id role e rooms
      ≡ queued (insert session_id (waiting role (joined (pending_of (peer_of role) rm) e) rm) rooms)
unfolding forward_or_queue
forward_queues session_id pc e rooms rm l c =
    rw (l, c, append_pending-joined rm.pending_for_mobile e)
forward_queues session_id mobile e rooms rm l c =
    rw (l, c, append_pending-joined rm.pending_for_pc e)

pub forward_writes_to :
    (session_id : String) (role : Role) (e : Envelope) (rooms : Rooms) (rm : Room) (target : ℕ)
    → lookup session_id rooms ≡ some rm
    → conn_of (peer_of role) rm ≡ some target
    → forward_or_queue session_id role e rooms ≡ written_to target
unfolding forward_or_queue
forward_writes_to session_id pc e rooms rm target l c = rw (l, c)
forward_writes_to session_id mobile e rooms rm target l c = rw (l, c)

conn_of-waiting :
    (role : Role) (queue : List Envelope) (rm : Room)
    → (conn_of (peer_of role) (waiting role queue rm) ≡ conn_of (peer_of role) rm)
      × (pending_of (peer_of role) (waiting role queue rm) ≡ queue)
conn_of-waiting pc queue rm = (refl, refl)
conn_of-waiting mobile queue rm = (refl, refl)

-- Sending leaves a room whose queue for the peer has all signals appended.
pub send_all_queues :
    (session_id : String) (role : Role) (es : List Envelope) (rooms : Rooms) (rm : Room)
    → lookup session_id rooms ≡ some rm
    → conn_of (peer_of role) rm ≡ none
    → (rooms' : Rooms) × (rm' : Room) × (send_all session_id role es rooms ≡ some rooms')
      × (lookup session_id rooms' ≡ some rm')
      × (pending_of (peer_of role) rm' ≡ append_all (pending_of (peer_of role) rm) es)
unfolding append_all
send_all_queues session_id role [] rooms rm l c = (rooms, rm, refl, l, refl)
send_all_queues session_id role (e ∷ es) rooms rm l c =
    let queue = joined (pending_of (peer_of role) rm) e in
    let rm1 = waiting role queue rm in
    let next = insert session_id rm1 rooms in
    let (still, its) = conn_of-waiting role queue rm in
    let found : lookup session_id next ≡ some rm1 =
      lookup-insert session_id session_id rm1 rooms ∙ rw eq_refl in
    let (rooms2, rm2, sent, l2, p2) =
      send_all_queues session_id role es next rm1 found (still ∙ c) in
    (
      rooms2,
      rm2,
      rw (forward_queues session_id role e rooms rm l c, send_all) sent,
      l2,
      p2
          ∙ ap (λ (q : List Envelope). append_all q es)
              (its ∙ sym (append_pending-joined (pending_of (peer_of role) rm) e)),
    )

pub attach_pending :
    (session_id : String) (role : Role) (conn : ℕ) (rooms : Rooms) (rm : Room)
    → lookup session_id rooms ≡ some rm
    → (attach_conn session_id role conn rooms).pending ≡ pending_of role rm
unfolding attach_conn take_seat
attach_pending session_id pc conn rooms rm l = rw l
attach_pending session_id mobile conn rooms rm l = rw l
