-- ===== src/Runtime/AckTracker/Settled.antt =====
-- Acknowledgement of one message, and the invariant over any sequence of calls (ack_tracker.go).
use mathlib.Core.Path.{subst}
use vibe_deck.Prelude.{
  if◌then◌else◌, eq_iff, ℕ, ◌+◌, Bool, true, false, Option, none, some, List, [], ◌∷◌, String, ◌≡◌,
  refl, ◌∙◌, arith, str_eq, eq_refl, if◌then◌else◌, inl, inr, Bool-cases, Option-cases,
}
use vibe_deck.GoMap.{lookup, delete, lookup-delete}
use vibe_deck.Protocol.Envelope.{Envelope}
use vibe_deck.Runtime.AckTracker.State.{
  TrackedAck, AckTracker, AckTrackerConfig, new_ack_tracker_with_config,
}
use vibe_deck.Runtime.AckTracker.Table.{
  plain_entry, envelope_entry, register, register_envelope, ack,
}
use vibe_deck.Runtime.AckTracker.Sweeps.{due_retries, expired, forget_by_session_transport}
use vibe_deck.Runtime.AckTracker.Invariant.{
  IsTable, new-IsTable, register_locked-IsTable, ack-IsTable, due_retries-IsTable, expired-IsTable,
  forget-IsTable,
}

abbrev pub is_some {ℓ} : {A : Type ℓ} → Option A → Bool
is_some none = false
is_some (some a) = true

pub ack_absent :
    (now : ℕ) (rid : String) (t : AckTracker)
    → lookup rid t.pending ≡ none
    → ack now rid t ≡ (t, false)
unfolding ack
ack_absent now rid t e = rw e

pub ack_found_lem :
    (now : ℕ) (rid : String) (t : AckTracker) (tracked : TrackedAck)
    → lookup rid t.pending ≡ some tracked
    → ((ack now rid t).1 ≡ true)
      × ((ack now rid t).0.pending ≡ delete rid t.pending)
      × ((ack now rid t).0.metrics.acked_count ≡ t.metrics.acked_count + 1)
      × ((ack now rid t).0.metrics.expired_count ≡ t.metrics.expired_count)
      × ((ack now rid t).0.metrics.exhausted_count ≡ t.metrics.exhausted_count)
unfolding ack
ack_found_lem now rid t tracked e =
    (ground arith, ground arith, ground arith, ground arith, ground arith)

lookup-ack :
    (now : ℕ) (rid other : String) (t : AckTracker)
    → lookup other (ack now rid t).0.pending
      ≡ (if str_eq rid other then none else lookup other t.pending)
lookup-ack now rid other t = elim (Option-cases (lookup rid t.pending)) [
  | inl e ↦ rw (ack_absent now rid t e) (elim (Bool-cases (str_eq rid other)) [
    | inl same ↦
        rw same (subst (λ (k : String). lookup k t.pending ≡ none) ((eq_iff rid other).0 same) e)
    | inr differ ↦ rw differ
  ])
  | inr (tracked, e) ↦ rw (ack_found_lem now rid t tracked e).1 (lookup-delete rid other t.pending)
]

-- `ack` answers whether the message was pending; after it the message is not pending, every other
-- message stands as before, and a second `ack` of it answers false and changes nothing.
pub ack_once :
    (now later : ℕ) (rid : String) (t : AckTracker)
    → ((ack now rid t).1 ≡ is_some (lookup rid t.pending))
      × (lookup rid (ack now rid t).0.pending ≡ none)
      × ((other : String)
          → lookup other (ack now rid t).0.pending
            ≡ (if str_eq rid other then none else lookup other t.pending))
      × (ack later rid (ack now rid t).0 ≡ ((ack now rid t).0, false))
ack_once now later rid t =
    let gone : lookup rid (ack now rid t).0.pending ≡ none =
      lookup-ack now rid rid t ∙ rw eq_refl in
    (
      answer (lookup rid t.pending) refl,
      gone,
      (λ other. lookup-ack now rid other t),
      ack_absent later rid (ack now rid t).0 gone,
    )
  where
    answer : (o : Option TrackedAck) → lookup rid t.pending ≡ o → (ack now rid t).1 ≡ is_some o
    answer none e = rw (ack_absent now rid t e)
    answer (some tracked) e = (ack_found_lem now rid t tracked e).0

-- A call of the tracker, with the clock's reading where the method takes one.
pub data Call : Type 0 where
  register_call : ℕ → String → String → String → Call
  register_envelope_call : ℕ → Envelope → String → Bool → Call
  ack_call : ℕ → String → Call
  due_retries_call : ℕ → Call
  expired_call : ℕ → Call
  forget_call : String → String → Call

abbrev pub call : Call → AckTracker → AckTracker
call (register_call now sid rid kind) t = register now sid rid kind t
call (register_envelope_call now env transport retry) t =
    register_envelope now env transport retry t
call (ack_call now rid) t = (ack now rid t).0
call (due_retries_call now) t = (due_retries now t).0
call (expired_call now) t = (expired now t).0
call (forget_call sid transport) t = forget_by_session_transport sid transport t

unfoldable pub calls : List Call → AckTracker → AckTracker
calls [] t = t
calls (c ∷ cs) t = calls cs (call c t)

pub call-IsTable : (c : Call) (t : AckTracker) → IsTable t → IsTable (call c t)
unfolding register register_envelope
call-IsTable (register_call now sid rid kind) t w =
    register_locked-IsTable now (plain_entry sid rid kind) t refl w
call-IsTable (register_envelope_call now env transport retry) t w =
    register_locked-IsTable now (envelope_entry env transport retry t.max_retries) t refl w
call-IsTable (ack_call now rid) t w = ack-IsTable now rid t w
call-IsTable (due_retries_call now) t w = due_retries-IsTable now t w
call-IsTable (expired_call now) t w = expired-IsTable now t w
call-IsTable (forget_call sid transport) t w = forget-IsTable sid transport t w

calls_keep : (cs : List Call) (t : AckTracker) → IsTable t → IsTable (calls cs t)
unfolding calls
calls_keep [] t w = w
calls_keep (c ∷ cs) t w = calls_keep cs (call c t) (call-IsTable c t w)

-- After any calls on a new tracker, of any configuration, each rid has one entry, which stands
-- under its own rid, names a transport and has used no more retries than its limit allows, and the
-- recorded peak is at least the number of pending messages.
pub calls-IsTable :
    (cs : List Call) (cfg : AckTrackerConfig) → IsTable (calls cs (new_ack_tracker_with_config cfg))
calls-IsTable cs cfg = calls_keep cs (new_ack_tracker_with_config cfg) (new-IsTable cfg)
