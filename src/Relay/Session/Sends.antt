-- ===== src/Relay/Session/Sends.antt =====
-- The invariant of a session over sending, routing and reading (relay/session.go).
use mathlib.Core.Path.{subst}
use mathlib.Core.List.{tail}
use vibe_deck.Prelude.{
  ℕ, ◌≤◌, ◌==◌, ℤ, Bool, true, false, Option, none, some, List, [], ◌∷◌, ◌++◌, String, ◌≡◌, refl,
  sym, ap, ◌∙◌, arith, length, get_elem?, set, inl, inr, Bool-cases, Option-cases, get_elem?-lt,
  get_elem?-set_self, get_elem?-set_ne, length-append, ltb,
}
use native.Mathlib.Decide.{ℕ_discrete}
use vibe_deck.GoMap.{GoMap, lookup}
use vibe_deck.Protocol.Envelope.{Envelope, Codec, Result, ok, err}
use vibe_deck.Relay.Session.{
  Channel, Session, Outcome, done, panic, ◌>>=◌, Sending, sent, full, broken, try_send,
  increment_drop_counter, reset_drop_counter, try_emit_term_summary, emit_summary, deliver,
  route_to_peer, targets, route_all, route, take_packet, current_drop_counter, after_summary,
  after_term, after_control, is_term,
}
use vibe_deck.Relay.Session.Safety.{IsOpen, IsSession}

-- A run returns, with a result of the property.
abbrev pub Returns {ℓ} : {A : Type ℓ} → (A → Type 0) → Outcome A → Type 0
Returns P (done a) = P a
Returns P panic = ⊥

-- The session has the same peers as before, and the invariant holds.
pub record Follows (s s' : Session) : Type 0 where
  pub valid : IsSession s'
  pub same_peers : s'.peers ≡ s.peers
  pub same_queue : s'.queue_size ≡ s.queue_size

-- Another content of an open channel.
write-Follows :
    (s : Session) (i : ℕ) (ch : Channel)
    → IsSession s
    → IsOpen s i
    → ch.closed ≡ false
    → length ch.buffer ≤ s.queue_size
    → Follows s (record s { channels = set s.channels i ch })
write-Follows s i ch w o c f = record {
  valid = record {
    unique = w.unique;
    open_channel = λ peer j e. elim (ℕ_discrete i j) [
      | yes p ↦ record {
        channel = ch;
        there =
            subst (λ (k : ℕ). get_elem? (set s.channels i ch) k ≡ some ch) p
              (get_elem?-set_self s.channels i ch (get_elem?-lt s.channels i o.there));
        not_closed = c;
        fits = f;
      }
      | no n ↦
          let q = w.open_channel peer j e in
          record {
            channel = q.channel;
            there = get_elem?-set_ne s.channels i j ch n ∙ q.there;
            not_closed = q.not_closed;
            fits = q.fits;
          }
    ];
    distinct = w.distinct;
  };
  same_peers = refl;
  same_queue = refl;
}

-- Other drop counters.
counters-Follows :
    (s : Session) (m : GoMap ℕ) → IsSession s → Follows s (record s { dropped_term = m })
counters-Follows s m w = record {
  valid = record {
    unique = w.unique;
    open_channel = λ peer j e.
        let q = w.open_channel peer j e in
        record { channel = q.channel; there = q.there; not_closed = q.not_closed; fits = q.fits };
    distinct = w.distinct;
  };
  same_peers = refl;
  same_queue = refl;
}

Follows-trans : {a b c : Session} → Follows a b → Follows b c → Follows a c
Follows-trans p q = record {
  valid = q.valid;
  same_peers = q.same_peers ∙ p.same_peers;
  same_queue = q.same_queue ∙ p.same_queue;
}

Follows-refl : (s : Session) → IsSession s → Follows s s
Follows-refl s w = record { valid = w; same_peers = refl; same_queue = refl }

-- What a send that does not wait may do.
abbrev SendsWell : Session → Sending → Type 0
SendsWell s (sent s') = Follows s s'
SendsWell s full = Unit
SendsWell s broken = ⊥

try_send_well :
    (s : Session) (i : ℕ) (env : Envelope)
    → IsSession s
    → IsOpen s i
    → SendsWell s (try_send i env s)
unfolding try_send
try_send_well s i env w o =
    rw (o.there, o.not_closed)
      (elim (Bool-cases (ltb (length o.channel.buffer) s.queue_size)) [
        | inl room ↦ rw room (
            write-Follows s i (record { buffer = o.channel.buffer ++ env ∷ []; closed = false }) w o
              refl (ground (arith, length-append o.channel.buffer (env ∷ []))))
        | inr no_room ↦ rw no_room tt
      ])

after_summary_well :
    (target : String) (s : Session) (r : Sending)
    → IsSession s
    → SendsWell s r
    → Returns (Follows s) (after_summary target s r)
unfolding reset_drop_counter
after_summary_well target s (sent s') w h = Follows-trans h (counters-Follows s' _ h.valid)
after_summary_well target s full w h = Follows-refl s w
after_summary_well target s broken w h = h

emit_summary_well :
    (ch : ℕ) (target : String) (s : Session) (r : Result Envelope)
    → IsSession s
    → IsOpen s ch
    → Returns (Follows s) (emit_summary ch target s r)
emit_summary_well ch target s (err e) w o = Follows-refl s w
emit_summary_well ch target s (ok summary) w o =
    after_summary_well target s (try_send ch summary s) w (try_send_well s ch summary w o)

try_emit_term_summary_well :
    (codec : Codec) (now : ℤ) (ch : ℕ) (env : Envelope) (target : String) (s : Session)
    → IsSession s
    → IsOpen s ch
    → Returns (Follows s) (try_emit_term_summary codec now ch env target s)
unfolding try_emit_term_summary
try_emit_term_summary_well codec now ch env target s w o =
    elim (Bool-cases (current_drop_counter target s == 0)) [
      | inl e ↦ rw e (Follows-refl s w)
      | inr e ↦ rw e (emit_summary_well ch target s _ w o)
    ]

-- A run's state follows the state before.
abbrev pub RunFollows : Session → Session × Option String → Type 0
RunFollows s r = Follows s r.0

after_term_well :
    (target : String) (s : Session) (r : Sending)
    → IsSession s
    → SendsWell s r
    → Returns (RunFollows s) (after_term target s r)
unfolding increment_drop_counter
after_term_well target s (sent s') w h = h
after_term_well target s full w h = counters-Follows s _ w
after_term_well target s broken w h = h

length-tail :
    (l : List Envelope) (env : Envelope) (n : ℕ)
    → 1 ≤ n
    → length l ≤ n
    → length (tail l ++ env ∷ []) ≤ n
length-tail [] env n p h = omega arith
length-tail (x ∷ xs) env n p h = omega (arith, length-append xs (env ∷ []))

after_control_well :
    (drained : Bool) (ch : ℕ) (env : Envelope) (target : String) (s : Session) (r : Sending)
    → IsSession s
    → IsOpen s ch
    → 1 ≤ s.queue_size
    → SendsWell s r
    → Returns (RunFollows s) (after_control drained ch env target s r)
after_control_well drained ch env target s (sent s') w o q h = h
after_control_well true ch env target s full w o q h =
    rw o.there (
      write-Follows s ch _ w o o.not_closed
        (length-tail o.channel.buffer env s.queue_size q o.fits))
after_control_well false ch env target s full w o q h = Follows-refl s w
after_control_well drained ch env target s broken w o q h = h

pub Returns-bind :
    {A B : Type 0} (P : A → Type 0) (Q : B → Type 0) (m : Outcome A) (f : A → Outcome B)
    → Returns P m
    → ((a : A) → P a → Returns Q (f a))
    → Returns Q (m >>= f)
Returns-bind P Q (done a) f h k = k a h
Returns-bind P Q panic f h k = h

pub Returns-mono :
    {A : Type 0} (P Q : A → Type 0) (m : Outcome A)
    → Returns P m
    → ((a : A) → P a → Q a)
    → Returns Q m
Returns-mono P Q (done a) h k = k a h
Returns-mono P Q panic h k = h

module _ (codec : Codec) (now : ℤ) where
  deliver_well :
      (drained : Bool) (ch : ℕ) (target : String) (env : Envelope) (s : Session)
      → IsSession s
      → lookup target s.peers ≡ some ch
      → 1 ≤ s.queue_size
      → Returns (RunFollows s) (deliver codec now drained ch target env s)
  unfolding deliver
  deliver_well drained ch target env s w l q = elim (Bool-cases (is_term env.kind)) [
    | inl e ↦ rw e (
        Returns-bind (Follows s) (RunFollows s) (try_emit_term_summary codec now ch env target s)
          (λ t. after_term target t (try_send ch env t))
          (try_emit_term_summary_well codec now ch env target s w (w.open_channel target ch l))
          (λ t f.
            let o = f.valid.open_channel target ch (rw f.same_peers l) in
            Returns-mono (RunFollows t) (RunFollows s) (after_term target t (try_send ch env t))
              (after_term_well target t (try_send ch env t) f.valid
                (try_send_well t ch env f.valid o))
              (λ r g. Follows-trans f g)))
    | inr e ↦
        let o = w.open_channel target ch l in
        rw e (
          after_control_well drained ch env target s (try_send ch env s) w o q
            (try_send_well s ch env w o))
  ]

  route_to_peer_well :
      (drained : Bool) (target : String) (env : Envelope) (s : Session)
      → IsSession s
      → 1 ≤ s.queue_size
      → Returns (RunFollows s) (route_to_peer codec now drained target env s)
  unfolding route_to_peer
  route_to_peer_well drained target env s w q = elim (Option-cases (lookup target s.peers)) [
    | inl e ↦ rw e (Follows-refl s w)
    | inr (ch, e) ↦ rw e (deliver_well drained ch target env s w e q)
  ]

  route_all_well :
      (drained : String → Bool) (ts : List String) (env : Envelope) (s : Session)
      → IsSession s
      → 1 ≤ s.queue_size
      → Returns (RunFollows s) (route_all codec now drained ts env s)
  unfolding route_all
  route_all_well drained [] env s w q = Follows-refl s w
  route_all_well drained (target ∷ rest) env s w q =
      Returns-bind (RunFollows s) (RunFollows s)
        (route_to_peer codec now (drained target) target env s) _
        (route_to_peer_well (drained target) target env s w q)
        (λ r f. after r.1 r f (route_all_well drained rest env r.0 f.valid (rw f.same_queue q)))
    where
      after :
          (o : Option String) (r : Session × Option String)
          → RunFollows s r
          → Returns (RunFollows r.0) (route_all codec now drained rest env r.0)
          → Returns (RunFollows s) (elim o [
            | none ↦ route_all codec now drained rest env r.0
            | some e ↦ done (r.0, some e)
          ])
      after none r f h =
          Returns-mono (RunFollows r.0) (RunFollows s) (route_all codec now drained rest env r.0) h
            (λ a g. Follows-trans f g)
      after (some e) r f h = f

  -- In a session where every peer has an open channel of its own, `route` never panics, whatever
  -- the packet, the sender and the readers' pace, and leaves such a session with the same peers.
  pub route_well :
      (drained : String → Bool) (from : String) (env : Envelope) (s : Session)
      → IsSession s
      → 1 ≤ s.queue_size
      → Returns (RunFollows s) (route codec now drained from env s)
  unfolding route
  route_well drained from env s w q = route_all_well drained (targets from s.peers) env s w q

length-tail-le : (l : List Envelope) → length (tail l) ≤ length l
length-tail-le [] = omega arith
length-tail-le (x ∷ xs) = omega arith

shrink-Follows :
    (s : Session) (i : ℕ) (old : Channel)
    → IsSession s
    → get_elem? s.channels i ≡ some old
    → Follows s (record s { channels = set s.channels i (record old { buffer = tail old.buffer }) })
shrink-Follows s i old w e = record {
  valid = record {
    unique = w.unique;
    open_channel = λ peer j l.
        let o = w.open_channel peer j l in
        elim (ℕ_discrete i j) [
          | yes p ↦
              let t : get_elem? s.channels i ≡ some o.channel =
                subst (λ (k : ℕ). get_elem? s.channels k ≡ some o.channel) (sym p) o.there in
              let same : old ≡ o.channel = ground (arith, e, t) in
              record {
                channel = record old { buffer = tail old.buffer };
                there =
                    subst
                      (λ (k : ℕ).
                        get_elem? (set s.channels i (record old { buffer = tail old.buffer })) k
                        ≡ some (record old { buffer = tail old.buffer }))
                      p (get_elem?-set_self s.channels i _ (get_elem?-lt s.channels i e));
                not_closed = ap (λ (c : Channel). c.closed) same ∙ o.not_closed;
                fits = omega (
                  arith,
                  length-tail-le old.buffer,
                  ap (λ (c : Channel). length c.buffer) same,
                  o.fits,
                );
              }
          | no n ↦ record {
            channel = o.channel;
            there = get_elem?-set_ne s.channels i j _ n ∙ o.there;
            not_closed = o.not_closed;
            fits = o.fits;
          }
        ];
    distinct = w.distinct;
  };
  same_peers = refl;
  same_queue = refl;
}

-- The reader's step, on a channel that is open or closed.
pub take_packet_well : (i : ℕ) (s : Session) → IsSession s → Follows s (take_packet i s)
unfolding take_packet
take_packet_well i s w = elim (Option-cases (get_elem? s.channels i)) [
  | inl e ↦ rw e (Follows-refl s w)
  | inr (old, e) ↦ rw e (shrink-Follows s i old w e)
]
