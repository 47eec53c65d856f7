-- ===== src/Signaling/Validation.antt =====
-- signaling/validation.go: which device may send which signalling message.
use Prim.Native.String.{◌++◌ as concat}
use vibe_deck.Prelude.{Option, none, some, String, str_eq, ◌≡◌, arith, eq_iff, if◌then◌else◌}
use vibe_deck.Protocol.Models.{MessageType, signal_offer, signal_answer, signal_ice, type_name}
use vibe_deck.Protocol.Envelope.{Envelope, Codec, Result, ok, err, decode_payload}
use vibe_deck.Signaling.Store.{Role, pc, mobile}

-- A `Role` comes from `validate_session_key`, so the case of another string does not arise.
unfoldable pub validate_signal_type : Role → MessageType → Option String
validate_signal_type pc signal_offer = none
validate_signal_type pc signal_ice = none
validate_signal_type pc signal_answer = some "pc cannot send SIGNAL_ANSWER"
validate_signal_type pc t = some (concat "pc cannot send message type: " (type_name t))
validate_signal_type mobile signal_answer = none
validate_signal_type mobile signal_ice = none
validate_signal_type mobile signal_offer = some "mobile cannot send SIGNAL_OFFER"
validate_signal_type mobile t = some (concat "mobile cannot send message type: " (type_name t))

abbrev pub check_field {ℓ} :
    {A : Type ℓ} → String → String → (A → String) → Result A → Option String
check_field invalid missing field (err e) = some (concat invalid e)
check_field invalid missing field (ok p) = if str_eq (field p) "" then some missing else none

abbrev pub validate_payload : Codec → Envelope → MessageType → Option String
validate_payload codec env signal_offer =
    check_field "invalid SIGNAL_OFFER payload: " "offer sdp is required" (λ p. p.sdp)
      (decode_payload codec.unmarshal_signal_offer env)
validate_payload codec env signal_answer =
    check_field "invalid SIGNAL_ANSWER payload: " "answer sdp is required" (λ p. p.sdp)
      (decode_payload codec.unmarshal_signal_answer env)
validate_payload codec env signal_ice =
    check_field "invalid SIGNAL_ICE payload: " "ice candidate is required" (λ p. p.candidate)
      (decode_payload codec.unmarshal_signal_ice env)
validate_payload codec env t = some (concat "unsupported signaling message type: " (type_name t))

unfoldable pub validate_signal_envelope : Codec → String → Role → Envelope → Option String
validate_signal_envelope codec session_id role env =
    if str_eq env.sid session_id
    then elim (validate_signal_type role env.kind) [
      | some e ↦ some e
      | none ↦ validate_payload codec env env.kind
    ]
    else some (concat "sid mismatch: expected " session_id)

-- What a device of the role may send.
pub data MaySend : Role → MessageType → Type 0 where
  pc_offers : MaySend pc signal_offer
  mobile_answers : MaySend mobile signal_answer
  sends_ice : (role : Role) → MaySend role signal_ice

may_send : (role : Role) (t : MessageType) → validate_signal_type role t ≡ none → MaySend role t
unfolding validate_signal_type
may_send pc signal_offer h = pc_offers
may_send pc signal_ice h = sends_ice pc
may_send pc _ h = cc
may_send mobile signal_answer h = mobile_answers
may_send mobile signal_ice h = sends_ice mobile
may_send mobile _ h = cc

-- An accepted signalling message belongs to the session of its connection, and is an offer of the
-- desktop, an answer of the mobile device, or a candidate of either.
pub validate_signal_envelope-MaySend :
    (codec : Codec) (session_id : String) (role : Role) (env : Envelope)
    → validate_signal_envelope codec session_id role env ≡ none
    → (env.sid ≡ session_id) × MaySend role env.kind
unfolding validate_signal_envelope
validate_signal_envelope-MaySend codec session_id role env h =
    (ground (arith, eq_iff env.sid session_id), may_send role env.kind (ground arith))
