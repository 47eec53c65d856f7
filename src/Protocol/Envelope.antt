-- ===== src/Protocol/Envelope.antt =====
-- envelope.go and `NewCmdAck` of payloads.go. A Go pair (value, error) is a `Result`, an error is
-- its text, and a returned `error` alone is an `Option String` with `none` for nil. The clock's
-- reading, `time.Now().UnixMilli()`, is an argument.
pub mod Laws
use Prim.Native.String.{◌++◌ as concat}
use vibe_deck.Prelude.{
  ℤ, pos, Bool, String, Option, none, some, ◌≡◌, ◌≢◌, str_eq, ltb_ℤ, leb_ℤ, if◌then◌else◌,
}
use vibe_deck.Protocol.Models.{
  MessageType, other, cmd_ack, PromptSubmitPayload, PatchApplyPayload, RunProfilePayload,
  OpenLocationPayload, SignalOfferPayload, SignalAnswerPayload, SignalIcePayload,
  SignalReadyPayload, CmdAckPayload, Payload, of_cmd_ack,
}

pub data Result {ℓ} (A : Type ℓ) : Type ℓ where
  ok : A → Result A
  err : String → Result A

infixl 5 ◌>>=◌
abbrev pub ◌>>=◌ {ℓ κ} : {A : Type ℓ} {B : Type κ} → Result A → (A → Result B) → Result B
ok a >>= f = f a
err e >>= f = err e

-- fmt.Errorf("...: %w", err)
abbrev pub wrap {ℓ} : {A : Type ℓ} → String → Result A → Result A
wrap context (ok a) = ok a
wrap context (err e) = err (concat context e)

-- encoding/json, as far as the code calls it: one encoder, and a decoder for each target type.
pub record Codec : Type 0 where
  pub marshal : Payload → Result String
  pub unmarshal_prompt_submit : String → Result PromptSubmitPayload
  pub unmarshal_patch_apply : String → Result PatchApplyPayload
  pub unmarshal_run_profile : String → Result RunProfilePayload
  pub unmarshal_open_location : String → Result OpenLocationPayload
  pub unmarshal_signal_offer : String → Result SignalOfferPayload
  pub unmarshal_signal_answer : String → Result SignalAnswerPayload
  pub unmarshal_signal_ice : String → Result SignalIcePayload
  pub unmarshal_signal_ready : String → Result SignalReadyPayload
  pub unmarshal_cmd_ack : String → Result CmdAckPayload

-- What the code relies on: a struct of strings and Booleans can be encoded, its text is not empty,
-- and decoding it gives the struct back.
pub record IsJson (c : Codec) : Type 0 where
  pub total : (p : CmdAckPayload) → (s : String) × (c.marshal (of_cmd_ack p) ≡ ok s)
  pub not_empty : (p : Payload) (s : String) → c.marshal p ≡ ok s → s ≢ ""
  pub round_trip :
      (p : CmdAckPayload) (s : String)
      → c.marshal (of_cmd_ack p) ≡ ok s
      → c.unmarshal_cmd_ack s ≡ ok p

-- `payload` is the raw JSON text; `ts` and `seq` are of type int64.
pub record Envelope : Type 0 where
  pub sid : String
  pub rid : String
  pub seq : ℤ
  pub ts : ℤ
  pub kind : MessageType
  pub payload : String

-- e.Type == ""
abbrev pub is_empty_type : MessageType → Bool
is_empty_type (other s) = str_eq s ""
is_empty_type _ = Bool.false

unfoldable pub validate : Envelope → Option String
validate e =
    if str_eq e.sid ""
    then some "sid is required"
    else if str_eq e.rid ""
    then some "rid is required"
    else if ltb_ℤ e.seq (pos 0)
    then some "seq must be >= 0"
    else if leb_ℤ e.ts (pos 0)
    then some "ts must be > 0"
    else if is_empty_type e.kind
    then some "type is required"
    else if str_eq e.payload ""
    then some "payload is required"
    else none

abbrev or_invalid : Option String → Envelope → Result Envelope
or_invalid none e = ok e
or_invalid (some message) e = err message

unfoldable pub new_envelope :
    Codec → ℤ → String → String → ℤ → MessageType → Payload → Result Envelope
new_envelope codec now sid rid seq kind payload =
    wrap "marshal payload: " (codec.marshal payload) >>= λ bytes.
    let e : Envelope = record {
      sid = sid;
      rid = rid;
      seq = seq;
      ts = now;
      kind = kind;
      payload = bytes;
    } in
    or_invalid (validate e) e

-- `DecodePayload` into the struct that `unmarshal` decodes.
unfoldable pub decode_payload {ℓ} : {A : Type ℓ} → (String → Result A) → Envelope → Result A
decode_payload unmarshal e =
    if str_eq e.payload ""
    then err "empty payload"
    else wrap "decode payload: " (unmarshal e.payload)

unfoldable pub new_cmd_ack : Codec → ℤ → String → ℤ → String → Bool → String → Result Envelope
unfolding new_envelope
new_cmd_ack codec now sid seq request_rid accepted message =
    new_envelope codec now sid (concat request_rid "_ack") seq cmd_ack
      (of_cmd_ack (record { request_rid = request_rid; accepted = accepted; message = message }))
