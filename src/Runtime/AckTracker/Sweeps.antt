-- ===== src/Runtime/AckTracker/Sweeps.antt =====
-- ack_tracker.go: the methods that go through the table: retries, expiry and forgetting.
use vibe_deck.Prelude.{
  ℕ, zero, suc, ◌+◌, ◌-◌, ◌*◌, ◌%◌, ◌^◌, ℤ, pos, negsuc, Bool, not, ◌&&◌, ◌||◌, List, [], ◌∷◌, ◌++◌,
  String, ltb, leb, str_eq, if◌then◌else◌,
}
use vibe_deck.GoMap.{GoMap, retain}
use vibe_deck.Runtime.AckTracker.State.{
  PendingAck, TrackedAck, AckRetryBatch, AckMetricState, AckTracker,
}

-- The loop `delay *= multiplier` on the bit pattern of an int64.
unfoldable pub backoff : ℕ → ℕ → ℕ → ℕ
backoff multiplier zero delay = delay
backoff multiplier (suc n) delay =
    backoff multiplier n (if leb multiplier 1 then delay else delay * multiplier % 2 ^ 64)

-- The int64 of a bit pattern.
abbrev pub as_int64 : ℕ → ℤ
as_int64 u = if ltb u (2 ^ 63) then pos u else negsuc (2 ^ 64 - 1 - u)

unfoldable pub next_delay : AckTracker → ℕ → ℤ
unfolding backoff
next_delay t retry_count = as_int64 (backoff t.backoff_multiplier retry_count t.timeout)

-- now.Add(d); the clock is far from the zero time, so the subtraction does not stop at 0.
abbrev pub time_add : ℕ → ℤ → ℕ
time_add now (pos d) = now + d
time_add now (negsuc d) = now - suc d

-- What one round of the loop of `DueRetries` does with its entry.
pub data Verdict : Type 0 where
  keep : Verdict
  exhaust : Verdict
  resend : PendingAck → Verdict

unfoldable pub retry_verdict : ℕ → AckTracker → PendingAck → Verdict
retry_verdict now t p =
    if not p.retry_enabled || ltb now p.expires_at
    then keep
    else if leb p.max_retries p.retry_count
    then exhaust
    else let n = p.retry_count + 1 in
      resend (record p {
        retry_count = n;
        last_sent_at = now;
        expires_at = time_add now (next_delay t n);
      })

abbrev pub count_verdict : Verdict → AckMetricState → AckMetricState
count_verdict keep m = m
count_verdict exhaust m = record m { exhausted_count = m.exhausted_count + 1 }
count_verdict (resend p) m = record m { retry_dispatch_count = m.retry_dispatch_count + 1 }

abbrev pub collect_verdict : Verdict → TrackedAck → AckRetryBatch → AckRetryBatch
collect_verdict keep tracked batch = batch
collect_verdict exhaust tracked batch = record batch {
  exhausted = batch.exhausted ++ tracked.pending ∷ [];
}
collect_verdict (resend p) tracked batch = record batch {
  retries = batch.retries ++ (record tracked { pending = p }) ∷ [];
}

-- The entry's place in the table after its round.
abbrev pub settle_entry : Verdict → String → TrackedAck → GoMap TrackedAck → GoMap TrackedAck
settle_entry keep rid tracked rest = (rid, tracked) ∷ rest
settle_entry exhaust rid tracked rest = rest
settle_entry (resend p) rid tracked rest = (rid, record tracked { pending = p }) ∷ rest

-- The loop over the table, which writes and deletes the visited key only.
unfoldable pub due_loop :
    ℕ
    → AckTracker
    → GoMap TrackedAck
    → AckMetricState
    → AckRetryBatch
    → GoMap TrackedAck × AckMetricState × AckRetryBatch
due_loop now t [] m batch = ([], m, batch)
due_loop now t ((rid, tracked) ∷ rest) m batch =
    let v = retry_verdict now t tracked.pending in
    let (table, m', batch') =
      due_loop now t rest (count_verdict v m) (collect_verdict v tracked batch) in
    (settle_entry v rid tracked table, m', batch')

unfoldable pub due_retries : ℕ → AckTracker → AckTracker × AckRetryBatch
due_retries now t =
    let (table, m, batch) =
      due_loop now t t.pending t.metrics (record { retries = []; exhausted = [] }) in
    (record t { pending = table; metrics = m }, batch)

-- The tests of the loop of `Expired`.
unfoldable pub is_expired : ℕ → PendingAck → Bool
is_expired now p =
    not (ltb now p.expires_at) && not (p.retry_enabled && ltb p.retry_count p.max_retries)

unfoldable pub expired_loop :
    ℕ → GoMap TrackedAck → AckMetricState → GoMap TrackedAck × AckMetricState × List PendingAck
expired_loop now [] m = ([], m, [])
expired_loop now ((rid, tracked) ∷ rest) m =
    let gone = is_expired now tracked.pending in
    let (table, m', expired) =
      expired_loop now rest
        (if gone then record m { expired_count = m.expired_count + 1 } else m) in
    if gone then (table, m', tracked.pending ∷ expired) else ((rid, tracked) ∷ table, m', expired)

unfoldable pub expired : ℕ → AckTracker → AckTracker × List PendingAck
expired now t =
    let (table, m, gone) = expired_loop now t.pending t.metrics in
    (record t { pending = table; metrics = m }, gone)

unfoldable pub forget_by_session_transport : String → String → AckTracker → AckTracker
forget_by_session_transport sid transport t = if str_eq sid "" then t else record t {
  pending =
      retain
        (λ rid tracked.
          not (str_eq tracked.pending.sid sid && str_eq tracked.pending.transport transport))
        t.pending;
}
