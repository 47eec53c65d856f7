-- ===== src/Signaling/Examples.antt =====
-- Runs of the signalling server on concrete values.
use Prim.Native.Char.{Char}
use vibe_deck.Prelude.{
  ℕ, map, pos, true, false, none, some, List, [], ◌∷◌, ◌++◌, String, ◌≡◌, refl, arith,
  if◌then◌else◌, eq_iff, ltb,
}
use vibe_deck.GoMap.{lookup}
use vibe_deck.Text.{
  trim_space, trim_slashes, split_slash, trim_left, trim_right, is_space, map_chars,
}
use vibe_deck.Protocol.Models.{signal_offer}
use vibe_deck.Protocol.Envelope.{Envelope, decode_payload, validate}
use vibe_deck.Protocol.Envelope as Protocol
use vibe_deck.Protocol.Envelope.Laws.{IsComplete}
use vibe_deck.Protocol.TestCodec.{test_codec, test_codec-IsJson}
use vibe_deck.Signaling.Store.{
  Store, Pairing, pc, mobile, ok, err, pairing_expired, pairing_claimed, claim_pairing, to_upper,
  drop_pairing,
}
use vibe_deck.Signaling.Store.Sharing.{IsShared}
use vibe_deck.Signaling.Store.Claims.{claim_once}
use vibe_deck.Signaling.Validation.{MaySend, validate_signal_envelope, validate_signal_type}
use vibe_deck.Signaling.Room.{Room, Rooms, forward_or_queue, max_pending_signals}
use vibe_deck.Signaling.Room.Acts.{Act, attach, detach, signal, run}
use vibe_deck.Signaling.Room.Seats.{seats_of, sit_all, seats_refine}
use vibe_deck.Signaling.Room.Occupied.{IsRooms, run-IsRooms}
use vibe_deck.Signaling.Room.Queue.{send_all, last_of}
use vibe_deck.Signaling.Server.Delivery.{signals_arrive}
use vibe_deck.Signaling.Server.{
  Frame, judge, read_round, accepted_of, message_of, handle_pairing_claim, failed, Writes,
  open_session, unix_milli,
}
use vibe_deck.Signaling.Server.Rounds.{round_acked, judge-accepted, Passed}
use vibe_deck.Signaling.Server.Pairings.{claim_conflict, without}

-- A case table that leaves every character.
abbrev upper : Char → Char
upper c = c

abbrev pairing : Pairing
pairing = record {
  code = "AB";
  session_id = "s1";
  pc_device_key = "pk";
  mobile_device_key = "";
  created_at = 10;
  expires_at = 100;
  claimed = false;
}

abbrev claimed_pairing : Pairing
claimed_pairing = record pairing { mobile_device_key = "mk"; claimed = true }

abbrev store : Store
store = record {
  ttl = 90;
  by_code = ("AB", 0) ∷ [];
  by_session = ("s1", 0) ∷ [];
  heap = pairing ∷ [];
}

abbrev claimed_store : Store
claimed_store = record store { heap = claimed_pairing ∷ [] }

claimed : claim_pairing upper 20 (some "mk") " AB" store ≡ (claimed_store, ok claimed_pairing)
unfolding claim_pairing trim_space trim_left trim_right is_space map_chars lookup
claimed = refl

claim_once_example : claim_pairing upper 30 (some "other") " AB" claimed_store ≡ (
    if ltb 100 30
    then (
      drop_pairing (to_upper upper (trim_space " AB")) (some "s1") claimed_store,
      err pairing_expired,
    )
    else (claimed_store, err pairing_claimed))
claim_once_example =
    claim_once upper 20 (some "mk") " AB" store claimed_store claimed_pairing 30 (some "other")
      claimed

store-IsShared : IsShared store
unfolding lookup
store-IsShared = record {
  shared = λ code i e.
      let same : i ≡ 0 = ground (arith, eq_iff "AB" code) in
      let named : "AB" ≡ code = ground (arith, eq_iff "AB" code) in
      (pairing, rw same refl, named, rw same refl);
}

abbrev offer : Envelope
offer = record {
  sid = "s1";
  rid = "r1";
  seq = pos 0;
  ts = pos 9;
  kind = signal_offer;
  payload = "sdp";
}

abbrev todo : List Act
todo = attach "s1" pc 1 ∷ signal "s1" pc offer ∷ attach "s1" pc 2 ∷ detach "s1" pc 1 ∷ []

seats_refine_example : seats_of (run todo []) "s1" pc ≡ sit_all todo (seats_of []) "s1" pc
seats_refine_example = seats_refine todo [] "s1" pc

run-IsRooms_example : IsRooms (run todo [])
run-IsRooms_example = run-IsRooms todo [] (tt, tt)

abbrev room : Room
room = record {
  pc_conn = some 1;
  mobile_conn = none;
  pending_for_pc = [];
  pending_for_mobile = offer ∷ [];
}

abbrev rooms : Rooms
rooms = ("s1", room) ∷ []

signals_arrive_example :
    (rooms' : Rooms) × (later : Writes) × (send_all "s1" pc (offer ∷ offer ∷ []) rooms
      ≡ some rooms')
    × ((open_session test_codec (pos 9) "9" "s1" mobile 7 rooms').1
        ≡ map (λ (e : Envelope). (7, e)) (last_of max_pending_signals (offer ∷ offer ∷ offer ∷ []))
          ++ later)
unfolding lookup
signals_arrive_example =
    signals_arrive test_codec (pos 9) "9" "s1" pc (offer ∷ offer ∷ []) 7 rooms room refl refl
      (omega arith)

abbrev frame : Frame
frame = record { now = pos 9; stamp = "9"; write_error = none; env = offer }

abbrev text : String
text = "s1"

round_acked_example :
    let r = judge test_codec "s1" pc none offer rooms in
    (ack : Envelope) × ((read_round test_codec "s1" pc 1 frame rooms).1 ≡ r.writes ++ (1, ack) ∷ [])
    × (decode_payload test_codec.unmarshal_cmd_ack ack
        ≡ Protocol.ok (record {
          request_rid = "r1";
          accepted = accepted_of r.error;
          message = message_of r.error;
        }))
round_acked_example =
    round_acked test_codec test_codec-IsJson text pc 1 frame rooms
      (λ e. ground (arith, eq_iff text "")) refl

judge-accepted_example :
    let r = judge test_codec "s1" pc none offer rooms in
    IsComplete offer
    × (offer.sid ≡ "s1")
    × MaySend pc offer.kind
    × Passed "s1" pc frame rooms r.writes r.rooms
unfolding judge validate validate_signal_envelope validate_signal_type decode_payload
    forward_or_queue lookup
judge-accepted_example = judge-accepted test_codec "s1" pc frame rooms refl

claim_conflict_example :
    (expires_at : ℕ) × (code : String) × (unix_milli expires_at ≡ 0)
    × (split_slash (trim_slashes "/v1/pairings/AB/claim") ≡ "v1" ∷ "pairings" ∷ code ∷ "claim" ∷ [])
    × (handle_pairing_claim upper 30 (some "other") "POST" "/v1/pairings/AB/claim" claimed_store ≡ (
        if ltb expires_at 30
        then (
          without (to_upper upper (trim_space code)) "s1" claimed_store,
          failed 409 pairing_expired,
        )
        else (claimed_store, failed 409 pairing_claimed)))
unfolding handle_pairing_claim claim_pairing split_slash trim_slashes trim_space trim_left
    trim_right is_space map_chars lookup
claim_conflict_example =
    claim_conflict upper 20 (some "mk") "/v1/pairings/AB/claim" store claimed_store "s1" "mk" 0 refl
      30 (some "other")
