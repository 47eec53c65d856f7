-- ===== src/Protocol/Envelope/Laws.antt =====
-- The envelope's checks, its constructor and the acknowledgement's round trip (envelope.go).
use Prim.Native.String.{◌++◌ as concat, len}
use text.Mathlib.TextPositions.{len-append}
use vibe_deck.Prelude.{
  ℤ, pos, Bool, false, String, none, ◌≡◌, ◌≢◌, ◌↔◌, refl, arith, eq_iff, eq_refl, str_eq-ne, ltb_ℤ,
  leb_ℤ, ap, Option,
}
use vibe_deck.Protocol.Models.{MessageType, other, cmd_ack, Payload, CmdAckPayload, of_cmd_ack}
use vibe_deck.Protocol.Envelope.{
  ok, Codec, IsJson, Envelope, is_empty_type, validate, or_invalid, new_envelope, decode_payload,
  new_cmd_ack,
}

-- What a valid envelope carries, field by field.
pub record IsComplete (e : Envelope) : Type 0 where
  pub has_sid : e.sid ≢ ""
  pub has_rid : e.rid ≢ ""
  pub seq_nonneg : ltb_ℤ e.seq (pos 0) ≡ false
  pub ts_positive : leb_ℤ e.ts (pos 0) ≡ false
  pub has_type : e.kind ≢ other ""
  pub has_payload : e.payload ≢ ""

IsComplete-of_valid : (e : Envelope) → validate e ≡ none → IsComplete e
unfolding validate
IsComplete-of_valid e h = record {
  has_sid = λ p. ground (arith, eq_iff e.sid "");
  has_rid = λ p. ground (arith, eq_iff e.rid "");
  seq_nonneg = ground arith;
  ts_positive = ground arith;
  has_type = λ p. ground (arith, eq_refl "");
  has_payload = λ p. ground (arith, eq_iff e.payload "");
}

is_empty_type-false : (t : MessageType) → t ≢ other "" → is_empty_type t ≡ false
is_empty_type-false (other s) h = str_eq-ne s "" (λ p. h (ap other p))
is_empty_type-false cmd_ack h = refl
is_empty_type-false _ h = refl

valid_of_IsComplete : (e : Envelope) → IsComplete e → validate e ≡ none
unfolding validate
valid_of_IsComplete e h = ground (
  arith,
  str_eq-ne _ _ h.has_sid,
  str_eq-ne _ _ h.has_rid,
  str_eq-ne _ _ h.has_payload,
  is_empty_type-false _ h.has_type,
)

-- `validate` accepts an envelope exactly when its sid, rid, type and payload are not empty, its
-- sequence number is not negative and its time stamp is positive.
pub validate_iff : (e : Envelope) → (validate e ≡ none) ↔ IsComplete e
validate_iff e = (IsComplete-of_valid e, valid_of_IsComplete e)

module _ (codec : Codec) (now : ℤ) (sid rid : String) (seq : ℤ) (kind : MessageType)
    (p : Payload) where
  -- What `new_envelope` builds has passed `validate`, and carries its arguments.
  pub new_envelope-IsComplete :
      {e : Envelope}
      → new_envelope codec now sid rid seq kind p ≡ ok e
      → IsComplete e
        × (e.sid ≡ sid)
        × (e.rid ≡ rid)
        × (e.seq ≡ seq)
        × (e.kind ≡ kind)
        × (codec.marshal p ≡ ok e.payload)
  unfolding new_envelope
  new_envelope-IsComplete {e} h = (
    IsComplete-of_valid e (ground arith),
    ground arith,
    ground arith,
    ground arith,
    ground arith,
    ground arith,
  )

ack_rid-ne : (rid : String) → concat rid "_ack" ≢ ""
ack_rid-ne rid h =
    let e : len (concat rid "_ack") ≡ 0 = ap len h in
    let k : len "_ack" ≡ 4 = refl in omega (arith, len-append rid "_ack")

module _ (codec : Codec) (json : IsJson codec) (now : ℤ) (sid : String) (seq : ℤ) where
  -- An acknowledgement under a rid of its own can be built, and decoded again.
  pub ack_envelope_round_trip :
      (own_rid : String) (p : CmdAckPayload)
      → own_rid ≢ ""
      → sid ≢ ""
      → ltb_ℤ seq (pos 0) ≡ false
      → leb_ℤ now (pos 0) ≡ false
      → (e : Envelope) × (new_envelope codec now sid own_rid seq cmd_ack (of_cmd_ack p) ≡ ok e)
        × (e.kind ≡ cmd_ack)
        × (decode_payload codec.unmarshal_cmd_ack e ≡ ok p)
  unfolding new_envelope decode_payload
  ack_envelope_round_trip own_rid p h0 h1 h2 h3 =
      let (s, q) = json.total p in
      let e : Envelope = record {
        sid = sid;
        rid = own_rid;
        seq = seq;
        ts = now;
        kind = cmd_ack;
        payload = s;
      } in
      (
        e,
        rw q (
            ap (λ (o : Option String). or_invalid o e)
              (valid_of_IsComplete e (record {
                has_sid = h1;
                has_rid = h0;
                seq_nonneg = h2;
                ts_positive = h3;
                has_type = λ x. ground arith;
                has_payload = json.not_empty _ s q;
              }))),
        refl,
        ground (arith, str_eq-ne _ _ (json.not_empty _ s q), json.round_trip p s q),
      )

  -- For a session id, a sequence number that is not negative and a clock past 1970 `new_cmd_ack`
  -- succeeds, and decoding its payload gives the request's rid, the verdict and the message.
  pub new_cmd_ack_round_trip :
      (rid : String) (accepted : Bool) (message : String)
      → sid ≢ ""
      → ltb_ℤ seq (pos 0) ≡ false
      → leb_ℤ now (pos 0) ≡ false
      → (e : Envelope) × (new_cmd_ack codec now sid seq rid accepted message ≡ ok e)
        × (e.kind ≡ cmd_ack)
        × (decode_payload codec.unmarshal_cmd_ack e
            ≡ ok (record { request_rid = rid; accepted = accepted; message = message }))
  unfolding new_cmd_ack
  new_cmd_ack_round_trip rid accepted message =
      ack_envelope_round_trip (concat rid "_ack")
        (record { request_rid = rid; accepted = accepted; message = message }) (ack_rid-ne rid)
