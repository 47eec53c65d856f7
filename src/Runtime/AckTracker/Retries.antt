-- ===== src/Runtime/AckTracker/Retries.antt =====
-- What a sweep of `DueRetries` does to one message, and how many sweeps end it (ack_tracker.go).
use mathlib.Core.Path.{subst}
use vibe_deck.Prelude.{
  map, ℕ, ◌+◌, ◌≤◌, ◌<◌, true, Option, none, some, List, [], ◌∷◌, String, ◌≡◌, refl, ap, ◌∙◌, arith,
  str_eq, eq_iff, eq_refl, length, inl, inr, Bool-cases,
}
use vibe_deck.GoMap.{GoMap, lookup, IsMap}
use vibe_deck.Protocol.Envelope.{Envelope}
use vibe_deck.Runtime.AckTracker.Batches.{
  mine, given_up, sent_of, sent_by, dropped_of, due_retries_batch,
}
use vibe_deck.Runtime.AckTracker.State.{
  PendingAck, TrackedAck, AckRetryBatch, AckMetricState, AckTracker,
}
use vibe_deck.Runtime.AckTracker.Sweeps.{
  Verdict, keep, exhaust, resend, retry_verdict, settle_entry, due_loop, due_retries, next_delay,
  time_add,
}
use vibe_deck.Runtime.AckTracker.Invariant.{
  IsTable, settle_entry-absent, due_retries-IsTable, due_loop-absent,
}

-- The entry that a verdict leaves.
abbrev pub after_verdict : Verdict → TrackedAck → Option TrackedAck
after_verdict keep tracked = some tracked
after_verdict exhaust tracked = none
after_verdict (resend p) tracked = some (record tracked { pending = p })

abbrev pub after_sweep : ℕ → AckTracker → Option TrackedAck → Option TrackedAck
after_sweep now t none = none
after_sweep now t (some tracked) = after_verdict (retry_verdict now t tracked.pending) tracked

lookup-settle_entry :
    (v : Verdict) (rid : String) (tracked : TrackedAck) (table : GoMap TrackedAck)
    → lookup rid table ≡ none
    → lookup rid (settle_entry v rid tracked table) ≡ after_verdict v tracked
unfolding lookup
lookup-settle_entry keep rid tracked table h = rw eq_refl
lookup-settle_entry exhaust rid tracked table h = h
lookup-settle_entry (resend p) rid tracked table h = rw eq_refl

module _ (now : ℕ) (t : AckTracker) where
  lookup-due_loop_self :
      (rest : GoMap TrackedAck) (rid : String) (tracked : TrackedAck) (m : AckMetricState)
      (b : AckRetryBatch)
      → lookup rid rest ≡ none
      → lookup rid (due_loop now t ((rid, tracked) ∷ rest) m b).0
        ≡ after_sweep now t (lookup rid ((rid, tracked) ∷ rest))
  unfolding due_loop lookup
  lookup-due_loop_self rest rid tracked m b n = rw eq_refl (
      lookup-settle_entry (retry_verdict now t tracked.pending) rid tracked _
        (due_loop-absent now t rest _ _ rid n))

  lookup-due_loop :
      (es : GoMap TrackedAck) (m : AckMetricState) (b : AckRetryBatch) (k : String)
      → IsMap es
      → lookup k (due_loop now t es m b).0 ≡ after_sweep now t (lookup k es)
  unfolding due_loop lookup
  lookup-due_loop [] m b k u = refl
  lookup-due_loop ((rid, tracked) ∷ rest) m b k u = elim (Bool-cases (str_eq rid k)) [
    | inl same ↦
        subst
          (λ (j : String).
            lookup j (due_loop now t ((rid, tracked) ∷ rest) m b).0
            ≡ after_sweep now t (lookup j ((rid, tracked) ∷ rest)))
          ((eq_iff rid k).0 same) (lookup-due_loop_self rest rid tracked m b u.0)
    | inr other ↦
        settle_entry-absent (retry_verdict now t tracked.pending) rid k tracked _ other
        ∙ lookup-due_loop rest _ _ k u.1
        ∙ rw other
  ]

-- A sweep treats every message by its own entry alone, in whatever order the table is visited: a
-- message that takes no retries or is not due keeps its entry; a due message that has its retries
-- used up leaves the table; any other due message stays with one retry more, a new sending time
-- and a new expiry.
lookup-due_retries :
    (now : ℕ) (t : AckTracker) (rid : String)
    → IsTable t
    → lookup rid (due_retries now t).0.pending ≡ after_sweep now t (lookup rid t.pending)
unfolding due_retries
lookup-due_retries now t rid w = lookup-due_loop now t t.pending _ _ rid w.unique

-- One sweep after another, at the given times.
unfoldable pub sweeps : List ℕ → AckTracker → AckTracker
sweeps [] t = t
sweeps (now ∷ later) t = sweeps later (due_retries now t).0

-- The packets of that message that each sweep returns for sending, one list to a sweep.
abbrev pub resent : String → List ℕ → AckTracker → List (List Envelope)
resent rid [] t = []
resent rid (now ∷ later) t =
    map (λ (x : TrackedAck). x.envelope) (mine rid (due_retries now t).1.retries)
    ∷ resent rid later (due_retries now t).0

-- Each sweep finds the message due.
abbrev pub AllDue : String → List ℕ → AckTracker → Type 0
AllDue rid [] t = Unit
AllDue rid (now ∷ later) t =
    ((tracked : TrackedAck)
      → lookup rid t.pending ≡ some tracked
      → tracked.pending.expires_at ≤ now)
    × AllDue rid later (due_retries now t).0

abbrev pub Retried : TrackedAck → ℕ → TrackedAck → Type 0
Retried old n new =
    (new.envelope ≡ old.envelope)
    × (new.pending.retry_enabled ≡ true)
    × (new.pending.max_retries ≡ old.pending.max_retries)
    × (new.pending.retry_count ≡ old.pending.retry_count + n)

abbrev bumped : ℕ → AckTracker → PendingAck → PendingAck
bumped now t p = record p {
  retry_count = p.retry_count + 1;
  last_sent_at = now;
  expires_at = time_add now (next_delay t (p.retry_count + 1));
}

retry_verdict-resend :
    (now : ℕ) (t : AckTracker) (p : PendingAck)
    → p.retry_enabled ≡ true
    → p.retry_count < p.max_retries
    → p.expires_at ≤ now
    → retry_verdict now t p ≡ resend (bumped now t p)
unfolding retry_verdict
retry_verdict-resend now t p r c d = ground arith

retry_verdict-exhaust :
    (now : ℕ) (t : AckTracker) (p : PendingAck)
    → p.retry_enabled ≡ true
    → p.max_retries ≤ p.retry_count
    → p.expires_at ≤ now
    → retry_verdict now t p ≡ exhaust
unfolding retry_verdict
retry_verdict-exhaust now t p r c d = ground arith

resend_one :
    (now : ℕ) (t : AckTracker) (rid : String) (tracked : TrackedAck)
    → IsTable t
    → lookup rid t.pending ≡ some tracked
    → tracked.pending.retry_enabled ≡ true
    → tracked.pending.retry_count < tracked.pending.max_retries
    → tracked.pending.expires_at ≤ now
    → lookup rid (due_retries now t).0.pending
      ≡ some (record tracked { pending = bumped now t tracked.pending })
resend_one now t rid tracked w e r c d =
    lookup-due_retries now t rid w
    ∙ rw e (
        ap (λ (v : Verdict). after_verdict v tracked)
          (retry_verdict-resend now t tracked.pending r c d))

two_lists : {x y : List Envelope} {xs ys : List (List Envelope)} → x ≡ y → xs ≡ ys → x ∷ xs ≡ y ∷ ys
two_lists {x} {y} {xs} {ys} e h =
    ap (λ (z : List Envelope). z ∷ xs) e ∙ ap (λ (zs : List (List Envelope)). y ∷ zs) h

resent_one :
    (now : ℕ) (t : AckTracker) (rid : String) (tracked : TrackedAck)
    → IsTable t
    → lookup rid t.pending ≡ some tracked
    → tracked.pending.retry_enabled ≡ true
    → tracked.pending.retry_count < tracked.pending.max_retries
    → tracked.pending.expires_at ≤ now
    → map (λ (x : TrackedAck). x.envelope) (mine rid (due_retries now t).1.retries)
      ≡ tracked.envelope ∷ []
resent_one now t rid tracked w e r c d =
    let v = retry_verdict-resend now t tracked.pending r c d in
    let found : sent_by now t (lookup rid t.pending)
        ≡ sent_of (resend (bumped now t tracked.pending)) tracked =
      rw e (ap (λ (v : Verdict). sent_of v tracked) v) in
    ap (λ (xs : List TrackedAck). map (λ (x : TrackedAck). x.envelope) xs)
      ((due_retries_batch now t rid w).0 ∙ found)

given_up_one :
    (now : ℕ) (t : AckTracker) (rid : String) (tracked : TrackedAck)
    → IsTable t
    → lookup rid t.pending ≡ some tracked
    → tracked.pending.retry_enabled ≡ true
    → tracked.pending.max_retries ≤ tracked.pending.retry_count
    → tracked.pending.expires_at ≤ now
    → (lookup rid (due_retries now t).0.pending ≡ none)
      × (mine rid (due_retries now t).1.retries ≡ [])
      × (given_up rid (due_retries now t).1.exhausted ≡ tracked.pending ∷ [])
given_up_one now t rid tracked w e r c d =
    let v = retry_verdict-exhaust now t tracked.pending r c d in
    let (sent, dropped) = due_retries_batch now t rid w in
    (
      lookup-due_retries now t rid w ∙ rw e (ap (λ (v : Verdict). after_verdict v tracked) v),
      sent ∙ rw e (ap (λ (v : Verdict). sent_of v tracked) v),
      dropped ∙ rw e (ap (λ (v : Verdict). dropped_of v tracked) v),
    )

module _ (rid : String) where
  pub sweeps_resend :
      (times : List ℕ) (t : AckTracker) (tracked : TrackedAck)
      → IsTable t
      → lookup rid t.pending ≡ some tracked
      → tracked.pending.retry_enabled ≡ true
      → tracked.pending.retry_count + length times ≤ tracked.pending.max_retries
      → AllDue rid times t
      → (tracked' : TrackedAck) × (lookup rid (sweeps times t).pending ≡ some tracked')
        × Retried tracked (length times) tracked'
        × (resent rid times t ≡ map (λ (now : ℕ). tracked.envelope ∷ []) times)
  unfolding sweeps
  sweeps_resend [] t tracked w e r c d = (tracked, e, (refl, r, refl, omega arith), refl)
  sweeps_resend (now ∷ later) t tracked w e r c d =
      let next : TrackedAck = record tracked { pending = bumped now t tracked.pending } in
      let (last, found, (same, enabled, limit, count), rest) =
        sweeps_resend later (due_retries now t).0 next (due_retries-IsTable now t w)
          (resend_one now t rid tracked w e r (omega arith) (d.0 tracked e)) r (omega arith) d.1 in
      (
        last,
        found,
        (same, enabled, limit, omega arith),
        two_lists (resent_one now t rid tracked w e r (omega arith) (d.0 tracked e)) rest,
      )

  sweeps-IsTable : (times : List ℕ) (t : AckTracker) → IsTable t → IsTable (sweeps times t)
  unfolding sweeps
  sweeps-IsTable [] t w = w
  sweeps-IsTable (now ∷ later) t w =
      sweeps-IsTable later (due_retries now t).0 (due_retries-IsTable now t w)

  -- Let a message take retries and have used `retry_count` of its `max_retries`, and let as many
  -- sweeps as it has left each find it due: each of them returns its packet, as it was registered,
  -- exactly once for sending. The message is then still pending, with its retries used up, and the
  -- next sweep that finds it due returns it once as exhausted and not for sending, and takes it off
  -- the table.
  pub sweeps_exhaust :
      (times : List ℕ) (now : ℕ) (t : AckTracker) (tracked : TrackedAck)
      → IsTable t
      → lookup rid t.pending ≡ some tracked
      → tracked.pending.retry_enabled ≡ true
      → tracked.pending.retry_count + length times ≡ tracked.pending.max_retries
      → AllDue rid times t
      → ((last : TrackedAck)
          → lookup rid (sweeps times t).pending ≡ some last
          → last.pending.expires_at ≤ now)
      → let r = due_retries now (sweeps times t) in
        (resent rid times t ≡ map (λ (now : ℕ). tracked.envelope ∷ []) times)
        × (lookup rid r.0.pending ≡ none)
        × (mine rid r.1.retries ≡ [])
        × (last : TrackedAck) × (lookup rid (sweeps times t).pending ≡ some last)
        × (last.pending.retry_count ≡ tracked.pending.max_retries)
        × (given_up rid r.1.exhausted ≡ last.pending ∷ [])
  sweeps_exhaust times now t tracked w e r c d due =
      let (last, found, (same, enabled, limit, count), all) =
        sweeps_resend times t tracked w e r (omega arith) d in
      let (gone, silent, exhausted) =
        given_up_one now (sweeps times t) rid last (sweeps-IsTable times t w) found enabled
          (omega arith) (due last found) in
      (all, gone, silent, last, found, omega arith, exhausted)
