-- ===== src/Control/Router.antt =====
-- internal/agent: control_router.go, ack_registration.go and control_timeouts.go.
-- The orchestrator is an argument: its state `O` and its `HandleEnvelope`. A nil pointer to the
-- orchestrator or to the tracker is `none`. Durations are in nanoseconds.
pub mod Laws
use vibe_deck.Prelude.{
  ℕ, ◌*◌, Bool, true, false, Option, none, some, List, [], ◌∷◌, String, if◌then◌else◌,
}
use vibe_deck.Protocol.Models.{
  MessageType, cmd_ack, prompt_submit, run_profile, patch_apply, CmdAckPayload,
}
use vibe_deck.Protocol.Envelope.{Envelope, Codec, Result, ok, err, decode_payload}
use vibe_deck.Runtime.AckTracker.State.{AckTracker, second}
use vibe_deck.Runtime.AckTracker.Table.{ack, register_envelope}

pub record ControlHandleResult : Type 0 where
  pub responses : List Envelope
  pub ack_handled : Bool
  pub ack_request_id : String

pub record ControlRouter (O : Type 0) : Type 0 where
  pub orchestrator : Option O
  pub ack_tracker : Option AckTracker

abbrev pub is_cmd_ack : MessageType → Bool
is_cmd_ack cmd_ack = true
is_cmd_ack _ = false

abbrev pub no_result : ControlHandleResult
no_result = record { responses = []; ack_handled = false; ack_request_id = "" }

module _ {O : Type 0} where
  unfoldable pub new_control_router : Option O → Option AckTracker → ControlRouter O
  new_control_router orchestrator ack_tracker = record {
    orchestrator = orchestrator;
    ack_tracker = ack_tracker;
  }

  abbrev pub ack_decoded :
      ℕ
      → Result CmdAckPayload
      → AckTracker
      → ControlRouter O
      → ControlRouter O × ControlHandleResult × Option String
  ack_decoded now (err e) tracker r = (r, no_result, some e)
  ack_decoded now (ok payload) tracker r =
      let (next, handled) = ack now payload.request_rid tracker in
      (
        record r { ack_tracker = some next },
        record { responses = []; ack_handled = handled; ack_request_id = payload.request_rid },
        none,
      )

  abbrev pub handle_ack :
      Codec
      → ℕ
      → Envelope
      → Option AckTracker
      → ControlRouter O
      → ControlRouter O × ControlHandleResult × Option String
  handle_ack codec now env none r = (r, no_result, some "ack tracker is not configured")
  handle_ack codec now env (some tracker) r =
      ack_decoded now (decode_payload codec.unmarshal_cmd_ack env) tracker r

  abbrev pub handle_command :
      (Envelope → O → O × List Envelope × Option String)
      → Envelope
      → Option O
      → ControlRouter O
      → ControlRouter O × ControlHandleResult × Option String
  handle_command command env none r = (r, no_result, some "orchestrator is not configured")
  handle_command command env (some o) r =
      let (next, responses, error) = command env o in
      (record r { orchestrator = some next }, record no_result { responses = responses }, error)

  -- The router afterwards, the result and the error. `command` is the orchestrator's handler.
  unfoldable pub handle_envelope :
      Codec
      → (Envelope → O → O × List Envelope × Option String)
      → ℕ
      → Envelope
      → ControlRouter O
      → ControlRouter O × ControlHandleResult × Option String
  handle_envelope codec command now env r =
      if is_cmd_ack env.kind
      then handle_ack codec now env r.ack_tracker r
      else handle_command command env r.orchestrator r

-- The tracker, if there is one, after the responses that want an acknowledgement are registered.
abbrev pub register_each : ℕ → List Envelope → String → Bool → AckTracker → AckTracker
register_each now [] transport retry_enabled t = t
register_each now (response ∷ rest) transport retry_enabled t =
    register_each now rest transport retry_enabled (
      if is_cmd_ack response.kind
      then t
      else register_envelope now response transport retry_enabled t)

unfoldable pub register_ackable_responses :
    ℕ → Option AckTracker → List Envelope → String → Bool → Option AckTracker
register_ackable_responses now none responses transport retry_enabled = none
register_ackable_responses now (some t) responses transport retry_enabled =
    some (register_each now responses transport retry_enabled t)

unfoldable pub control_envelope_timeout : MessageType → ℕ
control_envelope_timeout prompt_submit = 300 * second
control_envelope_timeout run_profile = 300 * second
control_envelope_timeout patch_apply = 30 * second
control_envelope_timeout _ = 5 * second
