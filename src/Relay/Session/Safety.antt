-- ===== src/Relay/Session/Safety.antt =====
-- The invariant of a session, over `Register` and `Unregister` (relay/session.go).
use mathlib.Core.Path.{subst}
use vibe_deck.Prelude.{
  Option, str_eq, if◌then◌else◌, ℕ, ◌≤◌, ◌<◌, true, false, none, some, List, [], ◌∷◌, ◌++◌, String,
  ◌≡◌, ◌≢◌, ◌⊎◌, refl, sym, ap, ◌∙◌, arith, str_eq, ne_of_str_eq, eq_iff, eq_refl, length,
  get_elem?, set, inl, inr, Bool-cases, Option-cases, get_elem?-lt, get_elem?-append_left,
  get_elem?-append_length, get_elem?-set_self, get_elem?-set_ne,
}
use vibe_deck.GoMap.{
  lookup_same, lookup, insert, delete, IsMap, lookup-insert, lookup-delete, insert-IsMap,
  delete-IsMap,
}
use vibe_deck.Relay.Session.{
  Channel, Session, done, new_session, close_channel, register, unregister,
}

-- Channel `i` is there, open, and holds no more than the queue's size.
pub record IsOpen (s : Session) (i : ℕ) : Type 0 where
  pub channel : Channel
  pub there : get_elem? s.channels i ≡ some channel
  pub not_closed : channel.closed ≡ false
  pub fits : length channel.buffer ≤ s.queue_size

-- The channel that the peer had, if it had one, is closed, and its drop counter is gone.
abbrev pub IsShut : String → Option ℕ → Session → Type 0
IsShut peer none s = Unit
IsShut peer (some i) s =
    (ch : Channel) × (get_elem? s.channels i ≡ some ch)
    × (ch.closed ≡ true)
    × (lookup peer s.dropped_term ≡ none)

-- Every peer has an open channel of its own.
pub record IsSession (s : Session) : Type 0 where
  pub unique : IsMap s.peers
  pub open_channel : (peer : String) (i : ℕ) → lookup peer s.peers ≡ some i → IsOpen s i
  pub distinct :
      (peer other : String) (i : ℕ)
      → lookup peer s.peers ≡ some i
      → lookup other s.peers ≡ some i
      → peer ≡ other

pub new-IsSession : (id : String) (queue_size : ℕ) → IsSession (new_session id queue_size)
unfolding new_session lookup
new-IsSession id queue_size = record {
  unique = tt;
  open_channel = λ p i e. cc e;
  distinct = λ p q i e f. cc e;
}

-- A channel that is written keeps the others open.
IsOpen-set :
    (s : Session) (i j : ℕ) (ch : Channel)
    → i ≢ j
    → IsOpen s j
    → IsOpen (record s { channels = set s.channels i ch }) j
IsOpen-set s i j ch n o = record {
  channel = o.channel;
  there = get_elem?-set_ne s.channels i j ch n ∙ o.there;
  not_closed = o.not_closed;
  fits = o.fits;
}

pub close_channel-eq :
    (s : Session) (i : ℕ) (o : IsOpen s i)
    → close_channel i s
      ≡ done (record s { channels = set s.channels i (record o.channel { closed = true }) })
unfolding close_channel
close_channel-eq s i o = rw (o.there, o.not_closed)

-- The session after the old channel `i` of the peer was closed and a new one was made.
abbrev replaced : String → Session → List Channel → Session
replaced peer s channels = record s {
  peers = insert peer (length s.channels) s.peers;
  channels = channels;
}

abbrev pub fresh_channel : Channel
fresh_channel = record { buffer = []; closed = false }

module _ (peer : String) (s : Session) (w : IsSession s) where
  -- The heap before the old channel is closed.
  abbrev grown : List Channel
  grown = s.channels ++ fresh_channel ∷ []

  IsOpen-grown : (i : ℕ) → IsOpen s i → IsOpen (record s { channels = grown }) i
  IsOpen-grown i o = record {
    channel = o.channel;
    there = get_elem?-append_left s.channels (fresh_channel ∷ []) i o.there;
    not_closed = o.not_closed;
    fits = o.fits;
  }

  below : (other : String) (i : ℕ) → lookup other s.peers ≡ some i → i < length s.channels
  below other i e = get_elem?-lt s.channels i (w.open_channel other i e).there

  -- Whom a channel belongs to after the peer's channel was replaced.
  owner :
      (other : String) (i : ℕ)
      → lookup other (insert peer (length s.channels) s.peers) ≡ some i
      → ((peer ≡ other) × (length s.channels ≡ i))
        ⊎ ((other ≢ peer) × (lookup other s.peers ≡ some i))
  owner other i e = elim (Bool-cases (str_eq peer other)) [
    | inl eq ↦ inl (
      (eq_iff peer other).0 eq,
      ground (arith, lookup-insert peer other (length s.channels) s.peers),
    )
    | inr ne ↦ inr (
      (λ p. ne_of_str_eq peer other ne (sym p)),
      ground (arith, lookup-insert peer other (length s.channels) s.peers),
    )
  ]

  -- With the heap `channels`, where the other peers' channels are as before and the new channel
  -- is fresh, the invariant holds again.
  replaced-IsSession :
      (channels : List Channel)
      → ((other : String) (i : ℕ)
          → other ≢ peer
          → lookup other s.peers ≡ some i
          → get_elem? channels i ≡ get_elem? s.channels i)
      → get_elem? channels (length s.channels) ≡ some fresh_channel
      → IsSession (replaced peer s channels)
  replaced-IsSession channels same fresh = record {
    unique = insert-IsMap peer (length s.channels) s.peers w.unique;
    open_channel = λ other i e. elim (owner other i e) [
      | inl (eq, here) ↦ record {
        channel = fresh_channel;
        there = subst (λ (j : ℕ). get_elem? channels j ≡ some fresh_channel) here fresh;
        not_closed = refl;
        fits = omega arith;
      }
      | inr (ne, old) ↦
          let o = w.open_channel other i old in
          record {
            channel = o.channel;
            there = same other i ne old ∙ o.there;
            not_closed = o.not_closed;
            fits = o.fits;
          }
    ];
    distinct = λ a b i e f. elim (owner a i e) [
      | inl (ea, ia) ↦ elim (owner b i f) [
        | inl (eb, ib) ↦ sym ea ∙ eb
        | inr (nb, ob) ↦ absurd (omega (arith, below b i ob))
      ]
      | inr (na, oa) ↦ elim (owner b i f) [
        | inl (eb, ib) ↦ absurd (omega (arith, below a i oa))
        | inr (nb, ob) ↦ w.distinct a b i oa ob
      ]
    ];
  }

  -- `register` never panics, keeps the invariant, and gives the peer a new channel, open and empty;
  -- every other peer keeps its channel.
  pub register_lem :
      (s' : Session) × (register peer s ≡ done (s', length s.channels))
      × IsSession s'
      × (lookup peer s'.peers ≡ some (length s.channels))
      × (get_elem? s'.channels (length s.channels) ≡ some fresh_channel)
      × ((other : String)
          → lookup other s'.peers
            ≡ (if str_eq peer other then some (length s.channels) else lookup other s.peers))
      × (s'.queue_size ≡ s.queue_size)
  unfolding register
  register_lem = elim (Option-cases (lookup peer s.peers)) [
    | inl e ↦ (
      replaced peer s grown,
      rw e,
      replaced-IsSession grown
          (λ other i n l.
            get_elem?-append_left s.channels _ i (w.open_channel other i l).there
            ∙ sym (w.open_channel other i l).there)
          (get_elem?-append_length s.channels fresh_channel),
      lookup-insert peer peer (length s.channels) s.peers ∙ rw eq_refl,
      get_elem?-append_length s.channels fresh_channel,
      (λ other. lookup-insert peer other (length s.channels) s.peers),
      refl,
    )
    | inr (old, e) ↦
        let o = IsOpen-grown old (w.open_channel peer old e) in
        let channels = set grown old (record o.channel { closed = true }) in
        let apart : old ≢ length s.channels = λ p. absurd (omega (arith, below peer old e)) in
        let fresh : get_elem? channels (length s.channels) ≡ some fresh_channel =
          get_elem?-set_ne grown old (length s.channels) _ apart
          ∙ get_elem?-append_length s.channels fresh_channel in
        (
          replaced peer s channels,
          rw (e, close_channel-eq (record s { channels = grown }) old o),
          replaced-IsSession channels
              (λ other i n l.
                get_elem?-set_ne grown old i _ (λ p. n (w.distinct other peer i l (e ∙ ap some p)))
                ∙ get_elem?-append_left s.channels _ i (w.open_channel other i l).there
                ∙ sym (w.open_channel other i l).there)
              fresh,
          lookup-insert peer peer (length s.channels) s.peers ∙ rw eq_refl,
          fresh,
          (λ other. lookup-insert peer other (length s.channels) s.peers),
          refl,
        )
  ]

module _ (peer : String) (s : Session) (w : IsSession s) where
  delete_owner :
      (other : String) (i : ℕ)
      → lookup other (delete peer s.peers) ≡ some i
      → (other ≢ peer) × (lookup other s.peers ≡ some i)
  delete_owner other i e = elim (Bool-cases (str_eq peer other)) [
    | inl eq ↦ absurd (ground (arith, lookup-delete peer other s.peers))
    | inr ne ↦ (
      (λ p. ne_of_str_eq peer other ne (sym p)),
      ground (arith, lookup-delete peer other s.peers),
    )
  ]

  abbrev left : ℕ → Channel → Session
  left i ch = record s {
    peers = delete peer s.peers;
    dropped_term = delete peer s.dropped_term;
    channels = set s.channels i (record ch { closed = true });
  }

  left-IsSession : (i : ℕ) (ch : Channel) → lookup peer s.peers ≡ some i → IsSession (left i ch)
  left-IsSession i ch e = record {
    unique = delete-IsMap peer s.peers w.unique;
    open_channel = λ other j f.
        let (ne, old) = delete_owner other j f in
        let o = w.open_channel other j old in
        record {
          channel = o.channel;
          there =
              get_elem?-set_ne s.channels i j _
                (λ p. ne (w.distinct other peer j old (e ∙ ap some p)))
              ∙ o.there;
          not_closed = o.not_closed;
          fits = o.fits;
        };
    distinct = λ a b i e f. w.distinct a b i (delete_owner a i e).1 (delete_owner b i f).1;
  }

  -- `unregister` never panics and keeps the invariant; afterwards the peer has no channel and the
  -- channel that it had is closed, and every other peer keeps its own.
  pub unregister_lem :
      (s' : Session) × (unregister peer s ≡ done s')
      × IsSession s'
      × (lookup peer s'.peers ≡ none)
      × ((other : String)
          → lookup other s'.peers ≡ (if str_eq peer other then none else lookup other s.peers))
      × IsShut peer (lookup peer s.peers) s'
      × (s'.queue_size ≡ s.queue_size)
  unfolding unregister
  unregister_lem = elim (Option-cases (lookup peer s.peers)) [
    | inl e ↦ (s, rw e, w, e, (λ other. lookup_same peer other s.peers none e), rw e tt, refl)
    | inr (i, e) ↦
        let o = w.open_channel peer i e in
        (
          left i o.channel,
          rw e (
              close_channel-eq
                (record s {
                  peers = delete peer s.peers;
                  dropped_term = delete peer s.dropped_term;
                })
                i
                (record {
                  channel = o.channel;
                  there = o.there;
                  not_closed = o.not_closed;
                  fits = o.fits;
                })),
          left-IsSession i o.channel e,
          lookup-delete peer peer s.peers ∙ rw eq_refl,
          (λ other. lookup-delete peer other s.peers),
          rw e (
            record o.channel { closed = true },
            get_elem?-set_self s.channels i _ (get_elem?-lt s.channels i o.there),
            refl,
            lookup-delete peer peer s.dropped_term ∙ rw eq_refl,
          ),
          refl,
        )
  ]
