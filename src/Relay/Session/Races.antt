-- ===== src/Relay/Session/Races.antt =====
-- Sequences of a session's methods, and interleavings of them with the parts of `routeToPeer` and
-- with a peer that connects again (relay/session.go, and `readLoop` of relay/server.go).
use vibe_deck.Prelude.{
  ℕ, ◌≤◌, ℤ, Bool, true, none, some, List, [], ◌∷◌, String, ◌≡◌, length, get_elem?, inl, inr,
  Bool-cases,
}
use vibe_deck.GoMap.{lookup}
use vibe_deck.Protocol.Envelope.{Envelope, Codec}
use vibe_deck.Relay.Session.{
  Channel, Session, Outcome, done, panic, ◌>>=◌, new_session, register, unregister, try_send,
  try_emit_term_summary, deliver, route, take_packet, current_drop_counter, is_term,
}
use vibe_deck.Relay.Session.Safety.{IsSession, new-IsSession, register_lem, unregister_lem}
use vibe_deck.Relay.Session.Sends.{
  Returns, RunFollows, Returns-bind, Returns-mono, route_well, take_packet_well,
}

-- What the connections of a session do to it.
pub data Act : Type 0 where
  join leave : String → Act
  pass : (String → Bool) → String → Envelope → Act
  take : ℕ → Act

abbrev fst_of : {A : Type 0} → Outcome (Session × A) → Outcome Session
fst_of (done r) = done r.0
fst_of panic = panic

abbrev pub act : Codec → ℤ → Act → Session → Outcome Session
act codec now (join peer) s = fst_of (register peer s)
act codec now (leave peer) s = unregister peer s
act codec now (pass drained from env) s = fst_of (route codec now drained from env s)
act codec now (take i) s = done (take_packet i s)

unfoldable pub acts : Codec → ℤ → List Act → Session → Outcome Session
acts codec now [] s = done s
acts codec now (a ∷ rest) s = act codec now a s >>= acts codec now rest

-- The invariant with a queue that holds a packet.
pub record IsLive (s : Session) : Type 0 where
  pub valid : IsSession s
  pub room : 1 ≤ s.queue_size

fst_of_well :
    {A : Type 0} (P : Session → Type 0) (m : Outcome (Session × A))
    → Returns (λ (r : Session × A). P r.0) m
    → Returns P (fst_of m)
fst_of_well P (done r) h = h
fst_of_well P panic h = h

act_well :
    (codec : Codec) (now : ℤ) (a : Act) (s : Session)
    → IsLive s
    → Returns IsLive (act codec now a s)
act_well codec now (join peer) s h =
    let (s', e, w, there, fresh, others, room) = register_lem peer s h.valid in
    rw e (record { valid = w; room = rw room h.room })
act_well codec now (leave peer) s h =
    let (s', e, w, gone, others, closed, room) = unregister_lem peer s h.valid in
    rw e (record { valid = w; room = rw room h.room })
act_well codec now (pass drained from env) s h =
    fst_of_well IsLive (route codec now drained from env s) (
      Returns-mono (RunFollows s) _ (route codec now drained from env s)
        (route_well codec now drained from env s h.valid h.room)
        (λ r f. record { valid = f.valid; room = rw f.same_queue h.room }))
act_well codec now (take i) s h =
    let f = take_packet_well i s h.valid in
    record { valid = f.valid; room = rw f.same_queue h.room }

acts-IsLive :
    (codec : Codec) (now : ℤ) (todo : List Act) (s : Session)
    → IsLive s
    → Returns IsLive (acts codec now todo s)
unfolding acts
acts-IsLive codec now [] s h = h
acts-IsLive codec now (a ∷ rest) s h =
    Returns-bind IsLive IsLive (act codec now a s) (acts codec now rest) (act_well codec now a s h)
      (λ t k. acts-IsLive codec now rest t k)

-- With a queue size of at least one, no sequence of joins, leaves, routed packets and reads on a
-- new session panics, and at its end every peer has an open channel of its own that holds at most
-- the queue's size. Each method runs as a whole here.
pub acts_well :
    (codec : Codec) (now : ℤ) (todo : List Act) (id : String) (queue_size : ℕ)
    → 1 ≤ queue_size
    → Returns IsSession (acts codec now todo (new_session id queue_size))
unfolding new_session
acts_well codec now todo id queue_size q =
    Returns-mono IsLive IsSession (acts codec now todo (new_session id queue_size))
      (acts-IsLive codec now todo (new_session id queue_size)
        (record { valid = new-IsSession id queue_size; room = q }))
      (λ s h. h.valid)

-- `routeToPeer` looks the channel up, lets the lock go and sends. If the target leaves in between,
-- the send meets a closed channel and panics, for every packet.
pub send_after_leave :
    (codec : Codec) (now : ℤ) (drained : Bool) (target : String) (ch : ℕ) (env : Envelope)
    (s : Session)
    → IsSession s
    → lookup target s.peers ≡ some ch
    → (s' : Session) × (unregister target s ≡ done s')
      × (deliver codec now drained ch target env s' ≡ panic)
unfolding deliver try_emit_term_summary current_drop_counter try_send
send_after_leave codec now drained target ch env s w l =
    let (s', e, w', gone, others, closed, room) = unregister_lem target s w in
    let (c, there, shut, count) = rw l at closed in
    (
      s',
      e,
      elim (Bool-cases (is_term env.kind)) [
        | inl t ↦ rw (t, count, there, shut)
        | inr n ↦ rw (n, there, shut)
      ],
    )

-- A peer that connects again takes its place over from its old connection; when the old
-- connection ends, its `unregister` removes the new one and closes the channel that the new
-- connection reads from.
pub old_connection_removes_new :
    (peer : String) (s : Session)
    → IsSession s
    → (s1 s2 s3 : Session) × (i j : ℕ) × (register peer s ≡ done (s1, i))
      × (register peer s1 ≡ done (s2, j))
      × (unregister peer s2 ≡ done s3)
      × (lookup peer s3.peers ≡ none)
      × (c : Channel) × (get_elem? s3.channels j ≡ some c)
      × (c.closed ≡ true)
old_connection_removes_new peer s w =
    let (s1, e1, w1, there1, fresh1, others1, room1) = register_lem peer s w in
    let (s2, e2, w2, there2, fresh2, others2, room2) = register_lem peer s1 w1 in
    let (s3, e3, w3, gone, others3, closed, room3) = unregister_lem peer s2 w2 in
    let (c, there, shut, count) = rw there2 at closed in
    (s1, s2, s3, length s.channels, length s1.channels, e1, e2, e3, gone, c, there, shut)
