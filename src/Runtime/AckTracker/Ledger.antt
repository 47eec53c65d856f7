-- ===== src/Runtime/AckTracker/Ledger.antt =====
-- The ledger of the tracker over any sequence of calls (ack_tracker.go).
use vibe_deck.Prelude.{
  ℕ, suc, ◌+◌, Bool, false, not, ◌&&◌, ◌||◌, List, [], ◌∷◌, String, ◌≡◌, refl, arith, str_eq, leb,
  if◌then◌else◌, length, inl, inr, Bool-cases, Option-cases,
}
use vibe_deck.GoMap.{GoMap, lookup, retain, length-delete, length-insert_new, length-insert_old}
use vibe_deck.Runtime.AckTracker.State.{
  PendingAck, TrackedAck, AckRetryBatch, AckMetricState, AckTracker,
}
use vibe_deck.Runtime.AckTracker.Table.{
  stamp, register_locked, plain_entry, envelope_entry, register, register_envelope, ack,
}
use vibe_deck.Runtime.AckTracker.Sweeps.{
  Verdict, keep, exhaust, resend, retry_verdict, settle_entry, count_verdict, collect_verdict,
  due_loop, due_retries, is_expired, expired_loop, expired, forget_by_session_transport,
}
use vibe_deck.Runtime.AckTracker.Invariant.{IsTable}
use vibe_deck.Runtime.AckTracker.Settled.{
  is_some, ack_absent, ack_found_lem, Call, register_call, register_envelope_call, ack_call,
  due_retries_call, expired_call, forget_call, call, calls, call-IsTable,
}

-- How many entries of the table pass a test.
abbrev pub count : (PendingAck → Bool) → GoMap TrackedAck → ℕ
count test [] = 0
count test ((rid, tracked) ∷ rest) = (if test tracked.pending then 1 else 0) + count test rest

-- A registration enters a message if its rid is not pending; otherwise it replaces the entry.
abbrev pub entered_rid : String → AckTracker → ℕ
entered_rid rid t = if is_some (lookup rid t.pending) then 0 else 1

abbrev pub entered : Call → AckTracker → ℕ
entered (register_call now sid rid kind) t = entered_rid rid t
entered (register_envelope_call now env transport retry) t = entered_rid env.rid t
entered _ t = 0

-- An acknowledgement ends the message with its rid, if one is pending.
abbrev pub acked : Call → AckTracker → ℕ
acked (ack_call now rid) t = if is_some (lookup rid t.pending) then 1 else 0
acked _ t = 0

-- `Expired` ends what has expired and has no retry left, whether it takes none or has used them up.
abbrev pub ended : Call → AckTracker → ℕ
ended (expired_call now) t =
    count
      (λ (p : PendingAck).
        leb p.expires_at now && (not p.retry_enabled || leb p.max_retries p.retry_count))
      t.pending
ended _ t = 0

-- `DueRetries` ends what takes retries, has expired and has used its retries up.
abbrev is_exhausted : ℕ → PendingAck → Bool
is_exhausted now p = p.retry_enabled && (leb p.expires_at now && leb p.max_retries p.retry_count)

abbrev pub exhausted : Call → AckTracker → ℕ
exhausted (due_retries_call now) t = count (is_exhausted now) t.pending
exhausted _ t = 0

-- A session with an id takes its messages on that transport with it.
abbrev pub forgotten : Call → AckTracker → ℕ
forgotten (forget_call sid transport) t =
    count
      (λ (p : PendingAck).
        not (str_eq sid "") && (str_eq p.sid sid && str_eq p.transport transport))
      t.pending
forgotten _ t = 0

-- A count summed over calls, each on the tracker that it finds.
abbrev pub total : (Call → AckTracker → ℕ) → List Call → AckTracker → ℕ
total f [] t = 0
total f (c ∷ cs) t = f c t + total f cs (call c t)

-- What becomes of the number of pending messages and of the metrics.
abbrev Books : (a e x f n : ℕ) (t t' : AckTracker) → Type 0
Books a e x f n t t' =
    (length t'.pending + (a + e + x + f) ≡ length t.pending + n)
    × (t'.metrics.acked_count ≡ t.metrics.acked_count + a)
    × (t'.metrics.expired_count ≡ t.metrics.expired_count + e)
    × (t'.metrics.exhausted_count ≡ t.metrics.exhausted_count + x)

register_locked_ledger :
    (now : ℕ) (entry : TrackedAck) (t : AckTracker)
    → Books 0 0 0 0 (entered_rid entry.pending.rid t) t (register_locked now entry t)
unfolding register_locked
register_locked_ledger now entry t = elim (Option-cases (lookup entry.pending.rid t.pending)) [
  | inl e ↦
      let k = length-insert_new entry.pending.rid (stamp now entry t) t.pending e in
      rw e (omega (arith, k), omega arith, omega arith, omega arith)
  | inr (old, e) ↦
      let k = length-insert_old entry.pending.rid (stamp now entry t) t.pending old e in
      rw e (omega (arith, k), omega arith, omega arith, omega arith)
]

ack_ledger :
    (now : ℕ) (rid : String) (t : AckTracker)
    → IsTable t
    → Books (if is_some (lookup rid t.pending) then 1 else 0) 0 0 0 0 t (ack now rid t).0
ack_ledger now rid t w = elim (Option-cases (lookup rid t.pending)) [
  | inl e ↦ rw (ack_absent now rid t e, e) (omega arith, omega arith, omega arith, omega arith)
  | inr (old, e) ↦
      let (answer, table, a, x, k) = ack_found_lem now rid t old e in
      rw (table, e)
        (
          omega (arith, length-delete rid t.pending old w.unique e),
          omega (arith, a),
          omega (arith, x),
          omega (arith, k),
        )
]

abbrev is_end : Verdict → ℕ
is_end exhaust = 1
is_end _ = 0

is_end_lem :
    (now : ℕ) (t : AckTracker) (p : PendingAck)
    → is_end (retry_verdict now t p) ≡ (if is_exhausted now p then 1 else 0)
unfolding retry_verdict
is_end_lem now t p = ground arith

settle_entry_ledger :
    (v : Verdict) (rid : String) (tracked : TrackedAck) (table : GoMap TrackedAck)
    → length (settle_entry v rid tracked table) + is_end v ≡ suc (length table)
settle_entry_ledger keep rid tracked table = omega arith
settle_entry_ledger exhaust rid tracked table = omega arith
settle_entry_ledger (resend p) rid tracked table = omega arith

count_verdict_ledger :
    (v : Verdict) (m : AckMetricState)
    → ((count_verdict v m).exhausted_count ≡ m.exhausted_count + is_end v)
      × ((count_verdict v m).acked_count ≡ m.acked_count)
      × ((count_verdict v m).expired_count ≡ m.expired_count)
count_verdict_ledger keep m = (omega arith, refl, refl)
count_verdict_ledger exhaust m = (refl, refl, refl)
count_verdict_ledger (resend p) m = (omega arith, refl, refl)

due_loop_ledger :
    (now : ℕ) (t : AckTracker) (es : GoMap TrackedAck) (m : AckMetricState) (b : AckRetryBatch)
    → let n = count (is_exhausted now) es in
      let r = due_loop now t es m b in
      (length r.0 + n ≡ length es)
      × (r.1.exhausted_count ≡ m.exhausted_count + n)
      × (r.1.acked_count ≡ m.acked_count)
      × (r.1.expired_count ≡ m.expired_count)
unfolding due_loop
due_loop_ledger now t [] m b = (omega arith, omega arith, refl, refl)
due_loop_ledger now t ((rid, tracked) ∷ rest) m b =
    let v = retry_verdict now t tracked.pending in
    let m' = count_verdict v m in
    let b' = collect_verdict v tracked b in
    let (size, x, a, e) = due_loop_ledger now t rest m' b' in
    let (x', a', e') = count_verdict_ledger v m in
    let one = is_end_lem now t tracked.pending in
    (
      omega (arith, settle_entry_ledger v rid tracked (due_loop now t rest m' b').0, size, one),
      omega (arith, x, x', one),
      omega (arith, a, a'),
      omega (arith, e, e'),
    )

is_expired_lem :
    (now : ℕ) (p : PendingAck)
    → is_expired now p
      ≡ (leb p.expires_at now && (not p.retry_enabled || leb p.max_retries p.retry_count))
unfolding is_expired
is_expired_lem now p = ground arith

expired_loop_ledger :
    (now : ℕ) (es : GoMap TrackedAck) (m : AckMetricState)
    → let n = count (is_expired now) es in
      let r = expired_loop now es m in
      (length r.0 + n ≡ length es)
      × (r.1.expired_count ≡ m.expired_count + n)
      × (r.1.acked_count ≡ m.acked_count)
      × (r.1.exhausted_count ≡ m.exhausted_count)
unfolding expired_loop
expired_loop_ledger now [] m = (omega arith, omega arith, refl, refl)
expired_loop_ledger now ((rid, tracked) ∷ rest) m =
    elim (Bool-cases (is_expired now tracked.pending)) [
      | inl e ↦
          let (size, x, a, k) =
            expired_loop_ledger now rest (record m { expired_count = m.expired_count + 1 }) in
          rw e (omega (arith, size), omega (arith, x), a, k)
      | inr e ↦
          let (size, x, a, k) = expired_loop_ledger now rest m in
          rw e (omega (arith, size), omega (arith, x), a, k)
    ]

count_same :
    (f g : PendingAck → Bool) (es : GoMap TrackedAck)
    → ((p : PendingAck) → f p ≡ g p)
    → count f es ≡ count g es
count_same f g [] h = refl
count_same f g ((rid, tracked) ∷ rest) h =
    rw (h tracked.pending) (omega (arith, count_same f g rest h))

retain_ledger :
    (test : PendingAck → Bool) (es : GoMap TrackedAck)
    → length (retain (λ rid tracked. not (test tracked.pending)) es) + count test es ≡ length es
unfolding retain
retain_ledger test [] = refl
retain_ledger test ((rid, tracked) ∷ rest) = elim (Bool-cases (test tracked.pending)) [
  | inl e ↦ rw e (omega (arith, retain_ledger test rest))
  | inr e ↦ rw e (omega (arith, retain_ledger test rest))
]

count_none : (es : GoMap TrackedAck) → count (λ (p : PendingAck). false) es ≡ 0
count_none [] = refl
count_none ((rid, tracked) ∷ rest) = omega (arith, count_none rest)

forget_ledger :
    (sid transport : String) (t : AckTracker)
    → Books 0 0 0
        (forgotten (forget_call sid transport) t)
        0
        t
        (forget_by_session_transport sid transport t)
unfolding forget_by_session_transport
forget_ledger sid transport t = elim (Bool-cases (str_eq sid "")) [
  | inl e ↦ rw e (omega (arith, count_none t.pending), omega arith, omega arith, omega arith)
  | inr e ↦
      let test : PendingAck → Bool =
        λ (p : PendingAck). str_eq p.sid sid && str_eq p.transport transport in
      rw e (omega (arith, retain_ledger test t.pending), omega arith, omega arith, omega arith)
]

call_ledger :
    (c : Call) (t : AckTracker)
    → IsTable t
    → Books (acked c t) (ended c t) (exhausted c t) (forgotten c t) (entered c t) t (call c t)
unfolding register register_envelope due_retries expired
call_ledger (register_call now sid rid kind) t w =
    register_locked_ledger now (plain_entry sid rid kind) t
call_ledger (register_envelope_call now env transport retry) t w =
    register_locked_ledger now (envelope_entry env transport retry t.max_retries) t
call_ledger (ack_call now rid) t w = ack_ledger now rid t w
call_ledger (due_retries_call now) t w =
    let (size, x, a, e) =
      due_loop_ledger now t t.pending t.metrics (record { retries = []; exhausted = [] }) in
    (omega (arith, size), omega (arith, a), omega (arith, e), x)
call_ledger (expired_call now) t w =
    let (size, e, a, x) = expired_loop_ledger now t.pending t.metrics in
    let same = count_same (is_expired now) _ t.pending (is_expired_lem now) in
    (omega (arith, size, same), omega (arith, a), omega (arith, e, same), omega (arith, x))
call_ledger (forget_call sid transport) t w = forget_ledger sid transport t

-- Over any calls the metrics grow by what the calls end, each counted apart on the table that a call
-- finds: acknowledged messages, expired ones with no retry left, and exhausted ones. And what was
-- pending at the start or entered by a call is at the end pending, or counted once among those, or
-- forgotten with its session and transport.
pub calls_ledger :
    (cs : List Call) (t : AckTracker)
    → IsTable t
    → let t' = calls cs t in
      (t'.metrics.acked_count ≡ t.metrics.acked_count + total acked cs t)
      × (t'.metrics.expired_count ≡ t.metrics.expired_count + total ended cs t)
      × (t'.metrics.exhausted_count ≡ t.metrics.exhausted_count + total exhausted cs t)
      × (length t'.pending
            + (total acked cs t + total ended cs t + total exhausted cs t + total forgotten cs t)
          ≡ length t.pending + total entered cs t)
unfolding calls
calls_ledger [] t w = (omega arith, omega arith, omega arith, omega arith)
calls_ledger (c ∷ cs) t w =
    let (size, a, e, x) = call_ledger c t w in
    let (a', e', x', size') = calls_ledger cs (call c t) (call-IsTable c t w) in
    (omega (arith, a, a'), omega (arith, e, e'), omega (arith, x, x'), omega (arith, size, size'))
