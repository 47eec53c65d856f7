-- ===== src/Webrtc/Bridge/Runs.antt =====
-- Any run of a signal bridge (webrtc/bridge.go).
use mathlib.Core.Path.{subst}
use mathlib.Core.List.{append-nil}
use vibe_deck.Prelude.{
  ℕ, ◌≤◌, Bool, true, false, Option, none, some, List, [], ◌∷◌, ◌++◌, String, ltb, str_eq,
  if◌then◌else◌, length, All, All-append, length-append, ◌≡◌, refl, ap, arith, eq_iff, inl, inr,
  Bool-cases,
}
use vibe_deck.Protocol.Models.{signal_ice, SignalIcePayload}
use vibe_deck.Protocol.Envelope.{Envelope, Codec, Result, ok, err}
use vibe_deck.Webrtc.Bridge.{
  side_pc, BridgePeer, SignalBridge, queue_capacity, fresh_bridge, with_peer, new_signal_bridge,
  inbound_envelope, start_offer, process_envelope, run_inbound, run_candidate,
}
use vibe_deck.Webrtc.Bridge.Sending.{offers-append, Emits, Holds, weaken, other_fields}
use vibe_deck.Webrtc.Bridge.Processing.{
  limit_of, IsBridge, emit-IsBridge, reported-IsBridge, start_offer-IsBridge,
  process_envelope-IsBridge, start_offer-flags,
}

-- What may happen to a bridge: a call of `InboundEnvelope`, `ProcessEnvelope` or `StartOffer`, a case of
-- the loop of `Run`, or the consumer taking an envelope from the outbound or an error from the errors.
pub data BridgeEvent : Type 0 where
  inbound : Envelope → BridgeEvent
  process : ℕ → ℕ → Envelope → BridgeEvent
  start : ℕ → ℕ → BridgeEvent
  run_next : ℕ → ℕ → BridgeEvent
  candidate : ℕ → ℕ → SignalIcePayload → BridgeEvent
  cancel take take_error : BridgeEvent

abbrev pub drop_first : {X : Type 0} → List X → List X
drop_first [] = []
drop_first (x ∷ rest) = rest

abbrev pub first_only : {X : Type 0} → List X → List X
first_only [] = []
first_only (x ∷ rest) = x ∷ []

drop_first-length : {X : Type 0} (xs : List X) → length (drop_first xs) ≤ length xs
drop_first-length [] = omega arith
drop_first-length (x ∷ xs) = omega arith

at_most_one : (c : Bool) → limit_of c ≤ 1
at_most_one true = omega arith
at_most_one false = omega arith

abbrev bridge_of : {P : BridgePeer} → SignalBridge P → Result (SignalBridge P) → SignalBridge P
bridge_of other (ok b) = b
bridge_of other (err e) = other

module _ {P : BridgePeer} (codec : Codec) where
  -- The bridge afterwards, and what the consumer has taken from the outbound channel.
  abbrev pub bridge_step :
      BridgeEvent → List Envelope × SignalBridge P → List Envelope × SignalBridge P
  bridge_step (inbound env) (sent, b) = (sent, (inbound_envelope env b).0)
  bridge_step (process stamp now env) (sent, b) = (sent, (process_envelope codec stamp now env b).0)
  bridge_step (start stamp now) (sent, b) = (sent, (start_offer codec stamp now b).0)
  bridge_step (run_next stamp now) (sent, b) = (sent, run_inbound codec stamp now b.inbound b)
  bridge_step (candidate stamp now c) (sent, b) = (sent, run_candidate codec stamp now c b)
  bridge_step cancel (sent, b) = (sent, record b { closed = true })
  bridge_step take (sent, b) =
      (sent ++ first_only b.outbound, record b { outbound = drop_first b.outbound })
  bridge_step take_error (sent, b) = (sent, record b { errors = drop_first b.errors })

  unfoldable pub run_bridge :
      List BridgeEvent → List Envelope × SignalBridge P → List Envelope × SignalBridge P
  run_bridge [] s = s
  run_bridge (event ∷ rest) s = run_bridge rest (bridge_step event s)

  module _ (session_id side : String) where
    take-IsBridge :
        (sent out : List Envelope) (b : SignalBridge P)
        → b.outbound ≡ out
        → IsBridge session_id side sent b
        → IsBridge session_id side (sent ++ first_only out) (record b { outbound = drop_first out })
    take-IsBridge sent [] b e w = record {
      session = w.session;
      same_side = w.same_side;
      once = rw (append-nil sent) (rw e at w.once);
      taken = rw (append-nil sent) w.taken;
      waiting = tt;
      inbound = w.inbound;
      outbound = omega arith;
      errors = w.errors;
    }
    take-IsBridge sent (x ∷ out) b e w =
        let k : All (Emits session_id side) (x ∷ out) = rw e at w.waiting in
        record {
          session = w.session;
          same_side = w.same_side;
          once = omega (arith, offers-append sent (x ∷ []), rw e at w.once);
          taken = All-append (Emits session_id side) sent (x ∷ []) w.taken (k.0, tt);
          waiting = k.1;
          inbound = w.inbound;
          outbound = omega (arith, rw e at w.outbound);
          errors = w.errors;
        }

    either :
        (sent : List Envelope) (test : Bool) (x y : SignalBridge P × Option String)
        → IsBridge session_id side sent x.0
        → (test ≡ true → IsBridge session_id side sent y.0)
        → IsBridge session_id side sent (if test then y else x).0
    either sent true x y h k = k refl
    either sent false x y h k = h

    inbound_envelope-IsBridge :
        (sent : List Envelope) (env : Envelope) (b : SignalBridge P)
        → IsBridge session_id side sent b
        → IsBridge session_id side sent (inbound_envelope env b).0
    unfolding inbound_envelope
    inbound_envelope-IsBridge sent env b w =
        either sent b.closed _ (b, some "bridge is closed") queued (λ _. w)
      where
        queued :
            IsBridge session_id side sent
              (if◌then◌else◌ {A = SignalBridge P × Option String}
                (ltb (length b.inbound) queue_capacity)
                (record b { inbound = b.inbound ++ env ∷ [] }, none)
                (b, some "inbound queue is full")).0
        queued =
            either sent (ltb (length b.inbound) queue_capacity) (b, some "inbound queue is full")
              (record b { inbound = b.inbound ++ env ∷ [] }, none) w
              (λ room. record {
                session = w.session;
                same_side = w.same_side;
                once = w.once;
                taken = w.taken;
                waiting = w.waiting;
                inbound = ground (arith, length-append b.inbound (env ∷ []));
                outbound = w.outbound;
                errors = w.errors;
              })

    shorter :
        (sent rest : List Envelope) (b : SignalBridge P)
        → length rest ≤ length b.inbound
        → IsBridge session_id side sent b
        → IsBridge session_id side sent (record b { inbound = rest })
    shorter sent rest b h w = record {
      session = w.session;
      same_side = w.same_side;
      once = w.once;
      taken = w.taken;
      waiting = w.waiting;
      inbound = omega (arith, h, w.inbound);
      outbound = w.outbound;
      errors = w.errors;
    }

    run_inbound-IsBridge :
        (sent : List Envelope) (stamp now : ℕ) (waiting : List Envelope) (b : SignalBridge P)
        → b.inbound ≡ waiting
        → IsBridge session_id side sent b
        → IsBridge session_id side sent (run_inbound codec stamp now waiting b)
    run_inbound-IsBridge sent stamp now [] b e w = w
    run_inbound-IsBridge sent stamp now (env ∷ rest) b e w =
        reported-IsBridge session_id side sent _ (
          process_envelope-IsBridge session_id side sent codec stamp now env _
            (shorter sent rest b (omega (arith, ap length e)) w))

    run_candidate-IsBridge :
        (sent : List Envelope) (stamp now : ℕ) (c : SignalIcePayload) (b : SignalBridge P)
        → IsBridge session_id side sent b
        → IsBridge session_id side sent (run_candidate codec stamp now c b)
    run_candidate-IsBridge sent stamp now c b w = elim (Bool-cases (str_eq c.candidate "")) [
      | inl e ↦ rw e w
      | inr e ↦ rw e (
          reported-IsBridge session_id side sent _
            (emit-IsBridge session_id side sent codec stamp now signal_ice _ b refl refl w))
    ]

    take_error-IsBridge :
        (sent : List Envelope) (es : List String) (b : SignalBridge P)
        → b.errors ≡ es
        → IsBridge session_id side sent b
        → IsBridge session_id side sent (record b { errors = drop_first es })
    take_error-IsBridge sent es b e w = record {
      session = w.session;
      same_side = w.same_side;
      once = w.once;
      taken = w.taken;
      waiting = w.waiting;
      inbound = w.inbound;
      outbound = w.outbound;
      errors = omega (arith, drop_first-length es, ap length e, w.errors);
    }

    step-IsBridge :
        (event : BridgeEvent) (s : List Envelope × SignalBridge P)
        → IsBridge session_id side s.0 s.1
        → IsBridge session_id side (bridge_step event s).0 (bridge_step event s).1
    step-IsBridge (inbound env) (sent, b) w = inbound_envelope-IsBridge sent env b w
    step-IsBridge (process stamp now env) (sent, b) w =
        process_envelope-IsBridge session_id side sent codec stamp now env b w
    step-IsBridge (start stamp now) (sent, b) w =
        start_offer-IsBridge session_id side sent codec stamp now b w
    step-IsBridge (run_next stamp now) (sent, b) w =
        run_inbound-IsBridge sent stamp now b.inbound b refl w
    step-IsBridge (candidate stamp now c) (sent, b) w = run_candidate-IsBridge sent stamp now c b w
    step-IsBridge cancel (sent, b) w =
        other_fields session_id side sent _ b b.peer b.seq b.offer_started true w
    step-IsBridge take (sent, b) w = take-IsBridge sent b.outbound b refl w
    step-IsBridge take_error (sent, b) w = take_error-IsBridge sent b.errors b refl w

    run-IsBridge :
        (events : List BridgeEvent) (s : List Envelope × SignalBridge P)
        → IsBridge session_id side s.0 s.1
        → IsBridge session_id side (run_bridge events s).0 (run_bridge events s).1
    unfolding run_bridge
    run-IsBridge [] s w = w
    run-IsBridge (event ∷ rest) s w =
        run-IsBridge rest (bridge_step event s) (step-IsBridge event s w)

    from_peer :
        (peer : Option P.State) (b : SignalBridge P)
        → with_peer session_id side peer ≡ ok b
        → IsBridge session_id side [] b
    from_peer none b h = absurd (ground arith)
    from_peer (some p) b h =
        subst (λ (c : SignalBridge P). IsBridge session_id side [] c)
          (ap (bridge_of (fresh_bridge session_id side p)) h)
          (record {
            session = refl;
            same_side = refl;
            once = omega arith;
            taken = tt;
            waiting = tt;
            inbound = omega arith;
            outbound = omega arith;
            errors = omega arith;
          })

    made :
        (peer : Option P.State) (b : SignalBridge P)
        → new_signal_bridge session_id side peer ≡ ok b
        → IsBridge session_id side [] b
    unfolding new_signal_bridge
    made peer b h = elim (Bool-cases (str_eq session_id "")) [
      | inl e ↦ absurd (ground arith)
      | inr e ↦ elim (Bool-cases (str_eq side "")) [
        | inl f ↦ absurd (ground arith)
        | inr f ↦ from_peer peer b (ground arith)
      ]
    ]

    -- Whatever happens to a new bridge, and whatever its peer does: it sends at most one offer, each
    -- envelope that it sends is of its session, an offer comes from the "pc" side and an answer from
    -- the "mobile" side only, and no channel holds more than its capacity.
    pub run_bridge-Holds :
        (events : List BridgeEvent) (peer : Option P.State) (b : SignalBridge P)
        → new_signal_bridge session_id side peer ≡ ok b
        → let s = run_bridge events ([], b) in Holds session_id side 1 s.0 s.1
    run_bridge-Holds events peer b h =
        let w = run-IsBridge events ([], b) (made peer b h) in
        weaken session_id side _ _ 1 _ (at_most_one _) w

  start_offer_idle :
      (stamp now : ℕ) (b : SignalBridge P)
      → b.side ≡ side_pc
      → b.offer_started ≡ true
      → start_offer codec stamp now b ≡ (b, none)
  unfolding start_offer
  start_offer_idle stamp now b h s =
      let t : str_eq b.side side_pc ≡ true = (eq_iff b.side side_pc).1 h in rw (t, s) refl

  -- On the "pc" side a second call of `start_offer` does nothing and reports nothing, also if the first
  -- one failed.
  pub start_offer_again :
      (stamp now stamp' now' : ℕ) (b : SignalBridge P)
      → b.side ≡ side_pc
      → let b' = (start_offer codec stamp now b).0 in start_offer codec stamp' now' b' ≡ (b', none)
  start_offer_again stamp now stamp' now' b h =
      let (pc, started) = start_offer-flags codec stamp now b h in
      start_offer_idle stamp' now' (start_offer codec stamp now b).0 pc started
