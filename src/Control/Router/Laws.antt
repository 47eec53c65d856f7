-- ===== src/Control/Router/Laws.antt =====
-- What the control router does with acknowledgements and commands (internal/agent).
use vibe_deck.Prelude.{
  ℕ, Bool, true, false, Option, none, some, List, [], ◌∷◌, String, ◌≡◌, refl, ap, ◌∙◌, arith,
  str_eq, if◌then◌else◌, inl, inr, Bool-cases,
}
use vibe_deck.GoMap.{lookup, lookup-insert}
use vibe_deck.Protocol.Models.{cmd_ack, CmdAckPayload}
use vibe_deck.Protocol.Envelope.{Envelope, Codec, ok, decode_payload}
use vibe_deck.Runtime.AckTracker.State.{AckTracker}
use vibe_deck.Runtime.AckTracker.Table.{
  ack, register_envelope, register_locked, stamp, envelope_entry,
}
use vibe_deck.Runtime.AckTracker.Invariant.{IsTable}
use vibe_deck.Runtime.AckTracker.Settled.{call-IsTable, register_envelope_call, ack_once, is_some}
use vibe_deck.Control.Router.{
  ControlRouter, is_cmd_ack, handle_envelope, register_each, register_ackable_responses,
}

-- An acknowledgement that can be decoded goes to the tracker only: it is answered with its request's
-- rid and whether that was pending, afterwards the rid is not pending, the orchestrator is as
-- before, and nothing is sent back.
pub handle_envelope-ack :
    {O : Type 0} (codec : Codec) (command : Envelope → O → O × List Envelope × Option String)
    (now : ℕ) (env : Envelope) (r : ControlRouter O) (t : AckTracker) (p : CmdAckPayload)
    → env.kind ≡ cmd_ack
    → r.ack_tracker ≡ some t
    → decode_payload codec.unmarshal_cmd_ack env ≡ ok p
    → (t' : AckTracker) × (handle_envelope codec command now env r ≡ (
      record r { ack_tracker = some t' },
      record {
        responses = [];
        ack_handled = is_some (lookup p.request_rid t.pending);
        ack_request_id = p.request_rid;
      },
      none,
    ))
      × (lookup p.request_rid t'.pending ≡ none)
unfolding handle_envelope decode_payload ack lookup
handle_envelope-ack codec command now env r t p k e d =
    let (answer, gone, others, again) = ack_once now now p.request_rid t in
    ((ack now p.request_rid t).0, rw (k, e, d, answer) refl, gone)

is_cmd_ack-register :
    (now : ℕ) (response : Envelope) (transport : String) (retry : Bool) (t : AckTracker)
    → IsTable t
    → IsTable
        (if is_cmd_ack response.kind then t else register_envelope now response transport retry t)
is_cmd_ack-register now response transport retry t w =
    elim (Bool-cases (is_cmd_ack response.kind)) [
      | inl e ↦ rw e w
      | inr e ↦ rw e (call-IsTable (register_envelope_call now response transport retry) t w)
    ]

register_each-IsTable :
    (now : ℕ) (responses : List Envelope) (transport : String) (retry : Bool) (t : AckTracker)
    → IsTable t
    → IsTable (register_each now responses transport retry t)
register_each-IsTable now [] transport retry t w = w
register_each-IsTable now (response ∷ rest) transport retry t w =
    register_each-IsTable now rest transport retry _
      (is_cmd_ack-register now response transport retry t w)

-- Is `rid` the rid of a response that wants an acknowledgement?
abbrev pub wanted : String → List Envelope → Bool
wanted rid [] = false
wanted rid (response ∷ rest) =
    let later = wanted rid rest in
    if is_cmd_ack response.kind then later else if str_eq response.rid rid then true else later

register_envelope-pending :
    (now : ℕ) (response : Envelope) (transport : String) (retry : Bool) (rid : String)
    (t : AckTracker)
    → is_some (lookup rid (register_envelope now response transport retry t).pending)
      ≡ (if str_eq response.rid rid then true else is_some (lookup rid t.pending))
unfolding register_envelope register_locked
register_envelope-pending now response transport retry rid t =
    let entry = stamp now (envelope_entry response transport retry t.max_retries) t in
    ap is_some (lookup-insert response.rid rid entry t.pending)
    ∙ elim (Bool-cases (str_eq response.rid rid)) [ inl e ↦ rw e refl | inr e ↦ rw e refl ]

either :
    (later now before after : Bool)
    → after ≡ (if now then true else before)
    → (if later then true else after) ≡ (if (if now then true else later) then true else before)
either later now before after h = ground arith

register_each-wanted :
    (now : ℕ) (responses : List Envelope) (transport : String) (retry : Bool) (rid : String)
    (t : AckTracker)
    → is_some (lookup rid (register_each now responses transport retry t).pending)
      ≡ (if wanted rid responses then true else is_some (lookup rid t.pending))
register_each-wanted now [] transport retry rid t = refl
register_each-wanted now (response ∷ rest) transport retry rid t =
    register_each-wanted now rest transport retry rid
      (if is_cmd_ack response.kind then t else register_envelope now response transport retry t)
    ∙ elim (Bool-cases (is_cmd_ack response.kind)) [
      | inl e ↦ rw e refl
      | inr e ↦ rw e (
          either (wanted rid rest) (str_eq response.rid rid) _ _
            (register_envelope-pending now response transport retry rid t))
    ]

-- After the responses of a command are registered, the tracker's table is well formed, and a rid is
-- pending exactly if it was before or is the rid of a response other than an acknowledgement.
register_ackable_responses-IsTable :
    (now : ℕ) (t : AckTracker) (responses : List Envelope) (transport : String) (retry : Bool)
    → IsTable t
    → (t' : AckTracker) × (register_ackable_responses now (some t) responses transport retry
        ≡ some t')
      × IsTable t'
      × ((rid : String)
          → is_some (lookup rid t'.pending)
            ≡ (if wanted rid responses then true else is_some (lookup rid t.pending)))
unfolding register_ackable_responses
register_ackable_responses-IsTable now t responses transport retry w = (
  register_each now responses transport retry t,
  refl,
  register_each-IsTable now responses transport retry t w,
  λ rid. register_each-wanted now responses transport retry rid t,
)
