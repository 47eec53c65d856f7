-- ===== src/Webrtc/Bridge/Processing.antt =====
-- The methods of the bridge (webrtc/bridge.go).
use Prim.Native.String.{◌++◌ as concat}
use mathlib.Core.Path.{subst}
use vibe_deck.Text.{decimal}
use vibe_deck.Agent.ThreadStore.Disk.{unix_milli}
use vibe_deck.Protocol.Models.{type_name, of_signal_offer}
use vibe_deck.Prelude.{
  ℕ, ◌+◌, pos, Bool, true, false, ◌&&◌, Option, none, some, List, String, ltb, str_eq,
  if◌then◌else◌, length, ◌≡◌, refl, sym, ap, ◌∙◌, arith, eq_iff, inl, inr, Bool-cases,
}
use vibe_deck.Protocol.Models.{
  MessageType, signal_offer, signal_answer, signal_ice, signal_ready, cmd_ack, Payload,
  SignalIcePayload, SignalReadyPayload, SignalOfferPayload, SignalAnswerPayload,
}
use vibe_deck.Protocol.Envelope.{Envelope, Codec, Result, ok, err, new_envelope}
use vibe_deck.Webrtc.Bridge.{
  side_pc, side_mobile, BridgePeer, SignalBridge, queue_capacity, error_capacity, put_outbound,
  emit, report_error, send_offer, start_offer, on_ready, send_answer, on_offer, on_answer, on_ice,
  process_kind, process_envelope, reported,
}
use vibe_deck.Webrtc.Bridge.Sending.{
  is_offer, may_emit, Holds, weaken, other_fields, emit-Holds, report_error-Holds,
}

-- At most one offer, and none before the flag is set.
abbrev pub limit_of : Bool → ℕ
limit_of true = 1
limit_of false = 0

abbrev pub IsBridge : {P : BridgePeer} → String → String → List Envelope → SignalBridge P → Type 0
IsBridge session_id side sent b = Holds session_id side (limit_of b.offer_started) sent b

module _ {P : BridgePeer} where
  put_outbound-started :
      (r : Result Envelope) (b : SignalBridge P)
      → (put_outbound r b).0.offer_started ≡ b.offer_started
  put_outbound-started (err e) b = refl
  put_outbound-started (ok e) b = elim (Bool-cases (ltb (length b.outbound) queue_capacity)) [
    | inl room ↦ rw room refl
    | inr full ↦ rw full refl
  ]

  emit-started :
      (codec : Codec) (stamp now : ℕ) (kind : MessageType) (p : Payload) (b : SignalBridge P)
      → (emit codec stamp now kind p b).0.offer_started ≡ b.offer_started
  unfolding emit
  emit-started codec stamp now kind p b =
      put_outbound-started
        (new_envelope codec (unix_milli now) b.session_id
          (concat "bridge_" (concat (type_name kind) (concat "_" (decimal stamp))))
          (pos (b.seq + 1)) kind p)
        (record b { seq = b.seq + 1 })

  report_error-started :
      (error : Option String) (b : SignalBridge P)
      → (report_error error b).offer_started ≡ b.offer_started
  unfolding report_error
  report_error-started none b = refl
  report_error-started (some e) b = elim (Bool-cases (ltb (length b.errors) error_capacity)) [
    | inl room ↦ rw room refl
    | inr full ↦ rw full refl
  ]

  module _ (session_id side : String) (sent : List Envelope) where
    with_flag :
        (b : SignalBridge P) (c : Bool)
        → b.offer_started ≡ c
        → Holds session_id side (limit_of c) sent b
        → IsBridge session_id side sent b
    with_flag b c e h = subst (λ (f : Bool). Holds session_id side (limit_of f) sent b) (sym e) h

    -- An envelope that is no offer.
    pub emit-IsBridge :
        (codec : Codec) (stamp now : ℕ) (kind : MessageType) (p : Payload) (b : SignalBridge P)
        → may_emit side kind ≡ true
        → is_offer kind ≡ 0
        → IsBridge session_id side sent b
        → IsBridge session_id side sent (emit codec stamp now kind p b).0
    emit-IsBridge codec stamp now kind p b m z w =
        let k =
          emit-Holds session_id side sent (limit_of b.offer_started) codec stamp now kind p b m w in
        with_flag _ b.offer_started (emit-started codec stamp now kind p b)
          (weaken session_id side sent _ (limit_of b.offer_started) _ (omega (arith, z)) k)

    pub reported-IsBridge :
        (r : SignalBridge P × Option String)
        → IsBridge session_id side sent r.0
        → IsBridge session_id side sent (reported r)
    reported-IsBridge (b, error) w =
        with_flag _ _ (report_error-started error b)
          (report_error-Holds session_id side sent _ error b w)

    moved :
        (b : SignalBridge P) (peer : P.State)
        → IsBridge session_id side sent b
        → IsBridge session_id side sent (record b { peer = peer })
    moved b peer w = other_fields session_id side sent _ b peer b.seq b.offer_started b.closed w

    send_offer-IsBridge :
        (codec : Codec) (stamp now : ℕ) (offer : Result String) (b : SignalBridge P)
        (peer : P.State)
        → b.offer_started ≡ false
        → b.side ≡ side_pc
        → IsBridge session_id side sent b
        → IsBridge session_id side sent
            (send_offer codec stamp now offer (record b { peer = peer; offer_started = true })).0
    send_offer-IsBridge codec stamp now offer b peer s pc w = go offer (
        other_fields session_id side sent 0 b peer b.seq true b.closed
          (weaken session_id side sent _ 0 b (omega (arith, ap limit_of s)) w))
      where
        is_pc : str_eq side side_pc ≡ true
        is_pc = (eq_iff side side_pc).1 (sym w.same_side ∙ pc)

        go :
            (offer : Result String)
            → Holds session_id side 0 sent (record b { peer = peer; offer_started = true })
            → IsBridge session_id side sent
                (send_offer codec stamp now offer
                  (record b { peer = peer; offer_started = true })).0
        go (err e) h = weaken session_id side sent 0 1 _ (omega arith) h
        go (ok sdp) h =
            with_flag _ true (emit-started codec stamp now signal_offer _ _)
              (emit-Holds session_id side sent 0 codec stamp now signal_offer _ _ is_pc h)

    pub start_offer-IsBridge :
        (codec : Codec) (stamp now : ℕ) (b : SignalBridge P)
        → IsBridge session_id side sent b
        → IsBridge session_id side sent (start_offer codec stamp now b).0
    unfolding start_offer
    start_offer-IsBridge codec stamp now b w = elim (Bool-cases (str_eq b.side side_pc)) [
      | inr e ↦ rw e w
      | inl e ↦ elim (Bool-cases b.offer_started) [
        | inl s ↦ rw (e, s) (rw s at w)
        | inr s ↦
            rw (e, s) (send_offer-IsBridge codec stamp now _ b _ s ((eq_iff b.side side_pc).0 e) w)
      ]
    ]

    on_ready-IsBridge :
        (codec : Codec) (stamp now : ℕ) (r : Result SignalReadyPayload) (b : SignalBridge P)
        → IsBridge session_id side sent b
        → IsBridge session_id side sent (on_ready codec stamp now r b).0
    on_ready-IsBridge codec stamp now (err e) b w = w
    on_ready-IsBridge codec stamp now (ok p) b w =
        elim (Bool-cases (p.peer_connected && str_eq b.side side_pc)) [
          | inl e ↦ rw e (start_offer-IsBridge codec stamp now b w)
          | inr e ↦ rw e w
        ]

    send_answer-IsBridge :
        (codec : Codec) (stamp now : ℕ) (answer : Result String) (b : SignalBridge P)
        → str_eq side side_mobile ≡ true
        → IsBridge session_id side sent b
        → IsBridge session_id side sent (send_answer codec stamp now answer b).0
    send_answer-IsBridge codec stamp now (err e) b m w = w
    send_answer-IsBridge codec stamp now (ok sdp) b m w =
        emit-IsBridge codec stamp now signal_answer _ b m refl w

    on_offer-IsBridge :
        (codec : Codec) (stamp now : ℕ) (r : Result SignalOfferPayload) (b : SignalBridge P)
        → str_eq side side_mobile ≡ true
        → IsBridge session_id side sent b
        → IsBridge session_id side sent (on_offer codec stamp now r b).0
    on_offer-IsBridge codec stamp now (err e) b m w = w
    on_offer-IsBridge codec stamp now (ok p) b m w =
        send_answer-IsBridge codec stamp now _ _ m (moved b _ w)

    on_answer-IsBridge :
        (r : Result SignalAnswerPayload) (b : SignalBridge P)
        → IsBridge session_id side sent b
        → IsBridge session_id side sent (on_answer r b).0
    on_answer-IsBridge (err e) b w = w
    on_answer-IsBridge (ok p) b w = moved b _ w

    on_ice-IsBridge :
        (r : Result SignalIcePayload) (b : SignalBridge P)
        → IsBridge session_id side sent b
        → IsBridge session_id side sent (on_ice r b).0
    on_ice-IsBridge (err e) b w = w
    on_ice-IsBridge (ok p) b w = moved b _ w

    process_kind-IsBridge :
        (codec : Codec) (stamp now : ℕ) (env : Envelope) (kind : MessageType) (b : SignalBridge P)
        → IsBridge session_id side sent b
        → IsBridge session_id side sent (process_kind codec stamp now env kind b).0
    process_kind-IsBridge codec stamp now env signal_ready b w =
        on_ready-IsBridge codec stamp now _ b w
    process_kind-IsBridge codec stamp now env signal_offer b w =
        elim (Bool-cases (str_eq b.side side_mobile)) [
          | inr e ↦ rw e w
          | inl e ↦ rw e (on_offer-IsBridge codec stamp now _ b (rw w.same_side at e) w)
        ]
    process_kind-IsBridge codec stamp now env signal_answer b w =
        elim (Bool-cases (str_eq b.side side_pc)) [
          | inr e ↦ rw e w
          | inl e ↦ rw e (on_answer-IsBridge _ b w)
        ]
    process_kind-IsBridge codec stamp now env signal_ice b w = on_ice-IsBridge _ b w
    process_kind-IsBridge codec stamp now env cmd_ack b w = w
    process_kind-IsBridge codec stamp now env _ b w = w

    pub process_envelope-IsBridge :
        (codec : Codec) (stamp now : ℕ) (env : Envelope) (b : SignalBridge P)
        → IsBridge session_id side sent b
        → IsBridge session_id side sent (process_envelope codec stamp now env b).0
    unfolding process_envelope
    process_envelope-IsBridge codec stamp now env b w =
        elim (Bool-cases (str_eq env.sid b.session_id)) [
          | inr e ↦ rw e w
          | inl e ↦ rw e (process_kind-IsBridge codec stamp now env env.kind b w)
        ]

module _ {P : BridgePeer} where
  put_outbound-side :
      (r : Result Envelope) (b : SignalBridge P) → (put_outbound r b).0.side ≡ b.side
  put_outbound-side (err e) b = refl
  put_outbound-side (ok e) b = elim (Bool-cases (ltb (length b.outbound) queue_capacity)) [
    | inl room ↦ rw room refl
    | inr full ↦ rw full refl
  ]

  send_offer-flags :
      (codec : Codec) (stamp now : ℕ) (offer : Result String) (b : SignalBridge P)
      → ((send_offer codec stamp now offer b).0.side ≡ b.side)
        × ((send_offer codec stamp now offer b).0.offer_started ≡ b.offer_started)
  unfolding emit
  send_offer-flags codec stamp now (err e) b = (refl, refl)
  send_offer-flags codec stamp now (ok sdp) b =
      let r =
        new_envelope codec (unix_milli now) b.session_id
          (concat "bridge_" (concat (type_name signal_offer) (concat "_" (decimal stamp))))
          (pos (b.seq + 1)) signal_offer (of_signal_offer (record { sdp = sdp })) in
      let b' = record b { seq = b.seq + 1 } in (put_outbound-side r b', put_outbound-started r b')

  -- After a call on the "pc" side the flag is set.
  pub start_offer-flags :
      (codec : Codec) (stamp now : ℕ) (b : SignalBridge P)
      → b.side ≡ side_pc
      → ((start_offer codec stamp now b).0.side ≡ side_pc)
        × ((start_offer codec stamp now b).0.offer_started ≡ true)
  unfolding start_offer
  start_offer-flags codec stamp now b h =
      let t : str_eq b.side side_pc ≡ true = (eq_iff b.side side_pc).1 h in
      let (s, f) =
        send_offer-flags codec stamp now (P.create_offer b.peer).1
          (record b { peer = (P.create_offer b.peer).0; offer_started = true }) in
      rw t (go _ b.offer_started refl (s ∙ h, f))
    where
      go :
          (x : SignalBridge P × Option String) (c : Bool)
          → b.offer_started ≡ c
          → (x.0.side ≡ side_pc) × (x.0.offer_started ≡ true)
          → let r = if◌then◌else◌ {A = SignalBridge P × Option String} c (b, none) x in
            (r.0.side ≡ side_pc) × (r.0.offer_started ≡ true)
      go x true e k = (h, e)
      go x false e k = k
