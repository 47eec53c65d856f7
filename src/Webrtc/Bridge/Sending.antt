-- ===== src/Webrtc/Bridge/Sending.antt =====
-- What a bridge may have sent, and the sending of one envelope (webrtc/bridge.go).
use vibe_deck.Prelude.{
  ℕ, ◌+◌, ◌≤◌, Bool, true, false, Option, none, some, List, [], ◌∷◌, ◌++◌, String, ltb, str_eq,
  length, All, All-append, length-append, ◌≡◌, refl, ap, ◌∙◌, arith, inl, inr, Bool-cases,
}
use vibe_deck.Protocol.Models.{MessageType, signal_offer, signal_answer, signal_ice, Payload}
use vibe_deck.Protocol.Envelope.{Envelope, Codec, Result, ok, err}
use vibe_deck.Protocol.Envelope.Laws.{new_envelope-IsComplete}
use vibe_deck.Webrtc.Bridge.{
  side_pc, side_mobile, BridgePeer, SignalBridge, queue_capacity, error_capacity, put_outbound,
  emit, report_error,
}

abbrev pub is_offer : MessageType → ℕ
is_offer signal_offer = 1
is_offer _ = 0

abbrev pub offers : List Envelope → ℕ
offers [] = 0
offers (e ∷ rest) = is_offer e.kind + offers rest

pub offers-append : (a b : List Envelope) → offers (a ++ b) ≡ offers a + offers b
offers-append [] b = omega arith
offers-append (e ∷ a) b = omega (arith, offers-append a b)

-- Which kinds of envelopes a side may send.
abbrev pub may_emit : String → MessageType → Bool
may_emit side signal_offer = str_eq side side_pc
may_emit side signal_answer = str_eq side side_mobile
may_emit side signal_ice = true
may_emit side _ = false

abbrev pub Emits : String → String → Envelope → Type 0
Emits session_id side e = (e.sid ≡ session_id) × (may_emit side e.kind ≡ true)

-- `sent` is what the consumer of the outbound channel has taken so far; `limit` bounds the offers.
pub record Holds {P : BridgePeer} (session_id side : String) (limit : ℕ) (sent : List Envelope)
    (b : SignalBridge P) : Type 0 where
  pub session : b.session_id ≡ session_id
  pub same_side : b.side ≡ side
  pub once : offers sent + offers b.outbound ≤ limit
  pub taken : All (Emits session_id side) sent
  pub waiting : All (Emits session_id side) b.outbound
  pub inbound : length b.inbound ≤ queue_capacity
  pub outbound : length b.outbound ≤ queue_capacity
  pub errors : length b.errors ≤ error_capacity

module _ {P : BridgePeer} (session_id side : String) (sent : List Envelope) where
  pub weaken :
      (m n : ℕ) (b : SignalBridge P)
      → m ≤ n
      → Holds session_id side m sent b
      → Holds session_id side n sent b
  weaken m n b h w = record {
    session = w.session;
    same_side = w.same_side;
    once = omega (arith, w.once, h);
    taken = w.taken;
    waiting = w.waiting;
    inbound = w.inbound;
    outbound = w.outbound;
    errors = w.errors;
  }

  -- A change of the fields that the statement does not read.
  pub other_fields :
      (m : ℕ) (b : SignalBridge P) (peer : P.State) (seq : ℕ) (started closed : Bool)
      → Holds session_id side m sent b
      → Holds session_id side m sent
          (record b { peer = peer; seq = seq; offer_started = started; closed = closed })
  other_fields m b peer seq started closed w = record {
    session = w.session;
    same_side = w.same_side;
    once = w.once;
    taken = w.taken;
    waiting = w.waiting;
    inbound = w.inbound;
    outbound = w.outbound;
    errors = w.errors;
  }

  put_outbound-Holds :
      (limit : ℕ) (kind : MessageType) (r : Result Envelope) (b : SignalBridge P)
      → may_emit side kind ≡ true
      → ((e : Envelope) → r ≡ ok e → (e.sid ≡ session_id) × (e.kind ≡ kind))
      → Holds session_id side limit sent b
      → Holds session_id side (is_offer kind + limit) sent (put_outbound r b).0
  put_outbound-Holds limit kind (err e) b m f w = weaken limit _ b (omega arith) w
  put_outbound-Holds limit kind (ok e) b m f w =
      elim (Bool-cases (ltb (length b.outbound) queue_capacity)) [
        | inr full ↦ rw full (weaken limit _ b (omega arith) w)
        | inl room ↦
            let (s, k) = f e refl in
            let n : is_offer e.kind ≡ is_offer kind = ap is_offer k in
            rw room (record {
              session = w.session;
              same_side = w.same_side;
              once = omega (arith, offers-append b.outbound (e ∷ []), w.once, n);
              taken = w.taken;
              waiting =
                  All-append (Emits session_id side) b.outbound (e ∷ []) w.waiting
                    ((s, ap (may_emit side) k ∙ m), tt);
              inbound = w.inbound;
              outbound = ground (arith, length-append b.outbound (e ∷ []));
              errors = w.errors;
            })
      ]

  pub emit-Holds :
      (limit : ℕ) (codec : Codec) (stamp now : ℕ) (kind : MessageType) (p : Payload)
      (b : SignalBridge P)
      → may_emit side kind ≡ true
      → Holds session_id side limit sent b
      → Holds session_id side (is_offer kind + limit) sent (emit codec stamp now kind p b).0
  unfolding emit
  emit-Holds limit codec stamp now kind p b m w =
      put_outbound-Holds limit kind _ _ m
        (λ e made.
          let h = new_envelope-IsComplete codec _ b.session_id _ _ kind p made in
          (h.1 ∙ w.session, h.4))
        (other_fields limit b b.peer (b.seq + 1) b.offer_started b.closed w)

  pub report_error-Holds :
      (limit : ℕ) (error : Option String) (b : SignalBridge P)
      → Holds session_id side limit sent b
      → Holds session_id side limit sent (report_error error b)
  unfolding report_error
  report_error-Holds limit none b w = w
  report_error-Holds limit (some e) b w = elim (Bool-cases (ltb (length b.errors) error_capacity)) [
    | inr full ↦ rw full w
    | inl room ↦ rw room (record {
      session = w.session;
      same_side = w.same_side;
      once = w.once;
      taken = w.taken;
      waiting = w.waiting;
      inbound = w.inbound;
      outbound = w.outbound;
      errors = ground (arith, length-append b.errors (e ∷ []));
    })
  ]
