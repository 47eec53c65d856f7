-- ===== src/Protocol/TestCodec.antt =====
-- A concrete encoder and decoder, with which the examples show that what the code relies on of
-- encoding/json can be met. It writes a marker before each character and another at the end.
use Prim.Native.Char.{Char, code}
use vibe_deck.Prelude.{
  ℕ, zero, suc, ◌+◌, ◌==◌, ℤ, pos, negsuc, [], Bool, true, false, String, ◌≡◌, ◌≢◌, refl, sym, ◌∙◌,
  ap, arith, if◌then◌else◌,
}
use vibe_deck.Protocol.Models.{ContextOptions, CmdAckPayload, Payload, of_cmd_ack, of_term_summary}
use vibe_deck.Protocol.Envelope.{Codec, IsJson, Result, ok, err}

abbrev more : Char
more = "m"

abbrev stop : Char
stop = "s"

abbrev write : String → String → String
write String.[] rest = String.◌∷◌ stop rest
write (String.◌∷◌ c s) rest = String.◌∷◌ more (String.◌∷◌ c (write s rest))

abbrev push : Char → Result (String × String) → Result (String × String)
push c (ok (s, rest)) = ok (String.◌∷◌ c s, rest)
push c (err e) = err e

abbrev read : String → Result (String × String)
read String.[] = err "end"
read (String.◌∷◌ m String.[]) = if code m == b's' then ok ("", "") else err "end"
read (String.◌∷◌ m (String.◌∷◌ c s)) =
    let later = read s in if code m == b's' then ok ("", String.◌∷◌ c s) else push c later

read-write : (s rest : String) → read (write s rest) ≡ ok (s, rest)
read-write String.[] String.[] = refl
read-write String.[] (String.◌∷◌ c rest) = refl
read-write (String.◌∷◌ c s) rest = ap (push c) (read-write s rest)

abbrev ack_of : Char → Result (String × String) → Result CmdAckPayload
ack_of flag (ok (rid, message)) =
    ok (record { request_rid = rid; accepted = code flag == b'm'; message = message })
ack_of flag (err e) = err e

abbrev read_ack : String → Result CmdAckPayload
read_ack String.[] = err "end"
read_ack (String.◌∷◌ flag s) = ack_of flag (read s)

abbrev marks : ℕ → String
marks zero = ""
marks (suc n) = String.◌∷◌ more (marks n)

abbrev write_count : ℤ → Result String
write_count (pos n) = ok (marks (suc n))
write_count (negsuc n) = err "negative"

abbrev write_payload : Payload → Result String
write_payload (of_cmd_ack p) =
    ok (String.◌∷◌ (if p.accepted then more else stop) (write p.request_rid p.message))
write_payload (of_term_summary p) = write_count p.skipped_lines
write_payload _ = ok "{}"

abbrev all_context : ContextOptions
all_context = record {
  include_active_file = true;
  include_selection = true;
  include_latest_error = true;
  include_workspace_summary = true;
}

-- The text of the payload becomes the first text of the struct.
abbrev pub test_codec : Codec
test_codec = record {
  marshal = write_payload;
  unmarshal_prompt_submit =
      λ s. ok (record { thread_id = ""; prompt = s; template = ""; context_options = all_context });
  unmarshal_patch_apply = λ s. ok (record { job_id = s; mode = "all"; selected = [] });
  unmarshal_run_profile = λ s. ok (record { job_id = s; profile_id = "test_all" });
  unmarshal_open_location = λ s. ok (record { path = s; line = pos 1; column = pos 1 });
  unmarshal_signal_offer = λ s. ok (record { sdp = s });
  unmarshal_signal_answer = λ s. ok (record { sdp = s });
  unmarshal_signal_ice = λ s. err s;
  unmarshal_signal_ready = λ s. ok (record { role = s; peer_connected = true; timestamp = pos 0 });
  unmarshal_cmd_ack = read_ack;
}

abbrev is_text : Result String → Bool
is_text (ok String.[]) = false
is_text (ok (String.◌∷◌ c s)) = true
is_text (err e) = true

is_text-count : (z : ℤ) → is_text (write_count z) ≡ true
is_text-count (pos n) = refl
is_text-count (negsuc n) = refl

is_text-payload : (p : Payload) → is_text (write_payload p) ≡ true
is_text-payload (of_cmd_ack p) = refl
is_text-payload (of_term_summary p) = is_text-count p.skipped_lines
is_text-payload _ = refl

not_empty : (p : Payload) (s : String) → write_payload p ≡ ok s → s ≢ ""
not_empty p s h e =
    let k : is_text (ok s) ≡ true = ap is_text (sym h) ∙ is_text-payload p in
    let n : is_text (ok s) ≡ false = ap (λ (x : String). is_text (ok x)) e in absurd (ground arith)

abbrev text_of : Result String → String
text_of (ok s) = s
text_of (err e) = e

read_ack-write_payload :
    (p : CmdAckPayload) → read_ack (text_of (write_payload (of_cmd_ack p))) ≡ ok p
read_ack-write_payload p = go p.accepted
  where
    go :
        (b : Bool)
        → read_ack (String.◌∷◌ (if b then more else stop) (write p.request_rid p.message))
          ≡ ok (record { request_rid = p.request_rid; accepted = b; message = p.message })
    go true = ap (ack_of more) (read-write p.request_rid p.message)
    go false = ap (ack_of stop) (read-write p.request_rid p.message)

read_ack-write :
    (p : CmdAckPayload) (s : String) → write_payload (of_cmd_ack p) ≡ ok s → read_ack s ≡ ok p
read_ack-write p s h =
    ap (λ (x : Result String). read_ack (text_of x)) (sym h) ∙ read_ack-write_payload p

pub test_codec-IsJson : IsJson test_codec
test_codec-IsJson = record {
  total = λ p. (_, refl);
  not_empty = not_empty;
  round_trip = read_ack-write;
}

-- The count that `write_count` wrote.
abbrev pub read_count : String → ℕ
read_count String.[] = 0
read_count (String.◌∷◌ c String.[]) = 0
read_count (String.◌∷◌ c (String.◌∷◌ d s)) = let n = read_count (String.◌∷◌ d s) in n + 1

read_count-marks : (n : ℕ) → read_count (marks (suc n)) ≡ n
read_count-marks zero = refl
read_count-marks (suc n) = rw (read_count-marks n) (omega arith)

pub test_codec-reads :
    (n : ℕ) (s : String)
    → test_codec.marshal (of_term_summary (record { skipped_lines = pos n })) ≡ ok s
    → read_count s ≡ n
test_codec-reads n s h =
    ap (λ (x : Result String). read_count (text_of x)) (sym h) ∙ read_count-marks n
