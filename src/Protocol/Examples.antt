-- ===== src/Protocol/Examples.antt =====
-- Envelopes on concrete values.
use vibe_deck.Prelude.{pos, true, none, ◌≡◌, ◌↔◌, refl, arith, eq_iff}
use vibe_deck.Protocol.Models.{cmd_ack, of_cmd_ack, CmdAckPayload}
use vibe_deck.Protocol.Envelope.{Envelope, ok, validate, new_envelope, new_cmd_ack, decode_payload}
use vibe_deck.Protocol.Envelope.Laws.{
  IsComplete, validate_iff, new_envelope-IsComplete, new_cmd_ack_round_trip,
}
use vibe_deck.Protocol.TestCodec.{test_codec, test_codec-IsJson}

abbrev packet : Envelope
packet = record { sid = "s1"; rid = "r1"; seq = pos 0; ts = pos 9; kind = cmd_ack; payload = "mss" }

validate_iff_example : (validate packet ≡ none) ↔ IsComplete packet
validate_iff_example = validate_iff packet

abbrev accepted : CmdAckPayload
accepted = record { request_rid = ""; accepted = true; message = "s" }

new_envelope-IsComplete_example :
    IsComplete packet
    × (packet.sid ≡ "s1")
    × (packet.rid ≡ "r1")
    × (packet.seq ≡ pos 0)
    × (packet.kind ≡ cmd_ack)
    × (test_codec.marshal (of_cmd_ack accepted) ≡ ok packet.payload)
unfolding new_envelope validate
new_envelope-IsComplete_example =
    new_envelope-IsComplete test_codec (pos 9) "s1" "r1" (pos 0) cmd_ack (of_cmd_ack accepted)
      {e = packet} refl

new_cmd_ack_round_trip_example :
    (e : Envelope) × (new_cmd_ack test_codec (pos 9) "s1" (pos 0) "r1" true "done" ≡ ok e)
    × (e.kind ≡ cmd_ack)
    × (decode_payload test_codec.unmarshal_cmd_ack e
        ≡ ok (record { request_rid = "r1"; accepted = true; message = "done" }))
new_cmd_ack_round_trip_example =
    new_cmd_ack_round_trip test_codec test_codec-IsJson (pos 9) "s1" (pos 0) "r1" true "done"
      (λ e. ground (arith, eq_iff "s1" "")) refl refl
