-- ===== src/Runtime/AckTracker/Invariant.antt =====
-- The invariant of the tracker's table, over its methods (ack_tracker.go).
use vibe_deck.Prelude.{
  ℕ, suc, ◌≤◌, Bool, false, not, none, [], ◌∷◌, String, ◌≡◌, ◌≢◌, refl, ap, ◌∙◌, arith, str_eq,
  eq_iff, length, inl, inr, Bool-cases, ne_of_str_eq, Option-cases,
}
use vibe_deck.GoMap.{
  GoMap, lookup, retain, retain-IsMap, retain-Each, length-retain, IsMap, Each, Each-insert,
  Each-delete, insert-IsMap, delete-IsMap, length-delete,
}
use vibe_deck.Runtime.AckTracker.State.{
  PendingAck, TrackedAck, AckRetryBatch, AckMetricState, AckTracker, AckTrackerConfig,
  new_ack_tracker_with_config, transport_unknown, normalize_transport,
}
use vibe_deck.Runtime.AckTracker.Table.{register_locked, ack}
use vibe_deck.Runtime.AckTracker.Sweeps.{
  Verdict, keep, exhaust, resend, retry_verdict, settle_entry, count_verdict, collect_verdict,
  due_loop, due_retries, is_expired, expired_loop, expired, forget_by_session_transport,
}

-- An entry stands under its own rid, names a transport, and has not been resent more often than
-- its limit, which is at most the tracker's.
abbrev pub IsEntry : ℕ → String → TrackedAck → Type 0
IsEntry limit rid tracked =
    (tracked.pending.rid ≡ rid)
    × (tracked.pending.retry_count ≤ tracked.pending.max_retries)
    × (tracked.pending.max_retries ≤ limit)
    × (tracked.pending.transport ≢ "")

pub record IsTable (t : AckTracker) : Type 0 where
  pub unique : IsMap t.pending
  pub entries : Each (IsEntry t.max_retries) t.pending
  pub peak : length t.pending ≤ t.metrics.max_pending_count

pub new-IsTable : (cfg : AckTrackerConfig) → IsTable (new_ack_tracker_with_config cfg)
unfolding new_ack_tracker_with_config
new-IsTable cfg = record { unique = tt; entries = tt; peak = omega arith }

normalize_transport-ne : (t : String) → normalize_transport t ≢ ""
normalize_transport-ne t h = elim (Bool-cases (str_eq t "")) [
  | inl e ↦ ground (arith, eq_iff t "", eq_iff transport_unknown "")
  | inr e ↦ ne_of_str_eq t "" e (rw e at h)
]

pub register_locked-IsTable :
    (now : ℕ) (entry : TrackedAck) (t : AckTracker)
    → entry.pending.retry_count ≡ 0
    → IsTable t
    → IsTable (register_locked now entry t)
unfolding register_locked
register_locked-IsTable now entry t z w = record {
  unique = insert-IsMap entry.pending.rid _ t.pending w.unique;
  entries =
      Each-insert (IsEntry t.max_retries) entry.pending.rid _ t.pending
        (refl, omega arith, ground arith, normalize_transport-ne entry.pending.transport) w.entries;
  peak = ground arith;
}

pub ack-IsTable : (now : ℕ) (rid : String) (t : AckTracker) → IsTable t → IsTable (ack now rid t).0
unfolding ack
ack-IsTable now rid t w = elim (Option-cases (lookup rid t.pending)) [
  | inl e ↦ rw e w
  | inr (tracked, e) ↦ rw e (record {
    unique = delete-IsMap rid t.pending w.unique;
    entries = Each-delete (IsEntry t.max_retries) rid t.pending w.entries;
    peak = ground (arith, length-delete rid t.pending tracked w.unique e, w.peak);
  })
]

pub settle_entry-absent :
    (v : Verdict) (rid k : String) (tracked : TrackedAck) (table : GoMap TrackedAck)
    → str_eq rid k ≡ false
    → lookup k (settle_entry v rid tracked table) ≡ lookup k table
unfolding lookup
settle_entry-absent keep rid k tracked table h = rw h
settle_entry-absent exhaust rid k tracked table h = refl
settle_entry-absent (resend p) rid k tracked table h = rw h

settle_entry-IsMap :
    (v : Verdict) (rid : String) (tracked : TrackedAck) (table : GoMap TrackedAck)
    → lookup rid table ≡ none
    → IsMap table
    → IsMap (settle_entry v rid tracked table)
settle_entry-IsMap keep rid tracked table n u = (n, u)
settle_entry-IsMap exhaust rid tracked table n u = u
settle_entry-IsMap (resend p) rid tracked table n u = (n, u)

length-settle_entry :
    (v : Verdict) (rid : String) (tracked : TrackedAck) (table : GoMap TrackedAck)
    → length (settle_entry v rid tracked table) ≤ suc (length table)
length-settle_entry keep rid tracked table = omega arith
length-settle_entry exhaust rid tracked table = omega arith
length-settle_entry (resend p) rid tracked table = omega arith

settle_entry-Each :
    (limit : ℕ) (v : Verdict) (rid : String) (tracked : TrackedAck) (table : GoMap TrackedAck)
    → IsEntry limit rid tracked
    → ((p : PendingAck) → v ≡ resend p → IsEntry limit rid (record tracked { pending = p }))
    → Each (IsEntry limit) table
    → Each (IsEntry limit) (settle_entry v rid tracked table)
settle_entry-Each limit keep rid tracked table h r e = (h, e)
settle_entry-Each limit exhaust rid tracked table h r e = e
settle_entry-Each limit (resend p) rid tracked table h r e = (r p refl, e)

-- A resent entry has been resent less often than its limit.
resend-IsEntry :
    (now limit : ℕ) (t : AckTracker) (rid : String) (tracked : TrackedAck) (p : PendingAck)
    → IsEntry limit rid tracked
    → retry_verdict now t tracked.pending ≡ resend p
    → IsEntry limit rid (record tracked { pending = p })
unfolding retry_verdict
resend-IsEntry now limit t rid tracked p h e =
    (ground arith, ground arith, ground arith, λ q. h.3 (ground arith))

module _ (now : ℕ) (t : AckTracker) where
  pub due_loop-absent :
      (es : GoMap TrackedAck) (m : AckMetricState) (b : AckRetryBatch) (k : String)
      → lookup k es ≡ none
      → lookup k (due_loop now t es m b).0 ≡ none
  unfolding due_loop lookup
  due_loop-absent [] m b k h = refl
  due_loop-absent ((rid, tracked) ∷ rest) m b k h = elim (Bool-cases (str_eq rid k)) [
    | inl same ↦ cc (rw same at h)
    | inr other ↦
        settle_entry-absent (retry_verdict now t tracked.pending) rid k tracked _ other
        ∙ due_loop-absent rest _ _ k (rw other at h)
  ]

  pub due_loop-IsMap :
      (es : GoMap TrackedAck) (m : AckMetricState) (b : AckRetryBatch)
      → IsMap es
      → IsMap (due_loop now t es m b).0
  unfolding due_loop
  due_loop-IsMap [] m b h = tt
  due_loop-IsMap ((rid, tracked) ∷ rest) m b h =
      settle_entry-IsMap (retry_verdict now t tracked.pending) rid tracked _
        (due_loop-absent rest _ _ rid h.0) (due_loop-IsMap rest _ _ h.1)

  due_loop-Each :
      (limit : ℕ) (es : GoMap TrackedAck) (m : AckMetricState) (b : AckRetryBatch)
      → Each (IsEntry limit) es
      → Each (IsEntry limit) (due_loop now t es m b).0
  unfolding due_loop
  due_loop-Each limit [] m b h = tt
  due_loop-Each limit ((rid, tracked) ∷ rest) m b h =
      settle_entry-Each limit (retry_verdict now t tracked.pending) rid tracked _ h.0
        (λ p. resend-IsEntry now limit t rid tracked p h.0) (due_loop-Each limit rest _ _ h.1)

  length-due_loop :
      (es : GoMap TrackedAck) (m : AckMetricState) (b : AckRetryBatch)
      → length (due_loop now t es m b).0 ≤ length es
  unfolding due_loop
  length-due_loop [] m b = omega arith
  length-due_loop ((rid, tracked) ∷ rest) m b =
      let v = retry_verdict now t tracked.pending in
      let m' = count_verdict v m in
      let b' = collect_verdict v tracked b in
      omega (
        arith,
        length-settle_entry v rid tracked (due_loop now t rest m' b').0,
        length-due_loop rest m' b',
      )

count_verdict-peak :
    (v : Verdict) (m : AckMetricState) → (count_verdict v m).max_pending_count ≡ m.max_pending_count
count_verdict-peak keep m = refl
count_verdict-peak exhaust m = refl
count_verdict-peak (resend p) m = refl

due_loop-peak :
    (now : ℕ) (t : AckTracker) (es : GoMap TrackedAck) (m : AckMetricState) (b : AckRetryBatch)
    → (due_loop now t es m b).1.max_pending_count ≡ m.max_pending_count
unfolding due_loop
due_loop-peak now t [] m b = refl
due_loop-peak now t ((rid, tracked) ∷ rest) m b =
    due_loop-peak now t rest _ _ ∙ count_verdict-peak (retry_verdict now t tracked.pending) m

pub due_retries-IsTable : (now : ℕ) (t : AckTracker) → IsTable t → IsTable (due_retries now t).0
unfolding due_retries
due_retries-IsTable now t w =
    let b : AckRetryBatch = record { retries = []; exhausted = [] } in
    record {
      unique = due_loop-IsMap now t t.pending t.metrics b w.unique;
      entries = due_loop-Each now t t.max_retries t.pending t.metrics b w.entries;
      peak = omega (
        arith,
        length-due_loop now t t.pending t.metrics b,
        due_loop-peak now t t.pending t.metrics b,
        w.peak,
      );
    }

module _ (now : ℕ) where
  -- What `expired` leaves of the table.
  pub expired_loop-retain :
      (es : GoMap TrackedAck) (m : AckMetricState)
      → (expired_loop now es m).0 ≡ retain (λ rid tracked. not (is_expired now tracked.pending)) es
  unfolding expired_loop retain
  expired_loop-retain [] m = refl
  expired_loop-retain ((rid, tracked) ∷ rest) m =
      elim (Bool-cases (is_expired now tracked.pending)) [
        | inl e ↦ rw e (expired_loop-retain rest _)
        | inr e ↦ rw e (ap (◌∷◌ (rid, tracked)) (expired_loop-retain rest m))
      ]

  expired_loop-peak :
      (es : GoMap TrackedAck) (m : AckMetricState)
      → (expired_loop now es m).1.max_pending_count ≡ m.max_pending_count
  unfolding expired_loop
  expired_loop-peak [] m = refl
  expired_loop-peak ((rid, tracked) ∷ rest) m = elim (Bool-cases (is_expired now tracked.pending)) [
    | inl e ↦ rw e (expired_loop-peak rest _)
    | inr e ↦ rw e (expired_loop-peak rest m)
  ]

  pub expired-IsTable : (t : AckTracker) → IsTable t → IsTable (expired now t).0
  unfolding expired
  expired-IsTable t w =
      let test : String → TrackedAck → Bool = λ rid tracked. not (is_expired now tracked.pending) in
      record {
        unique = rw expired_loop-retain (retain-IsMap test t.pending w.unique);
        entries =
            rw expired_loop-retain (retain-Each (IsEntry t.max_retries) test t.pending w.entries);
        peak = rw expired_loop-retain (
            omega
              (arith, length-retain test t.pending, expired_loop-peak t.pending t.metrics, w.peak));
      }

pub forget-IsTable :
    (sid transport : String) (t : AckTracker)
    → IsTable t
    → IsTable (forget_by_session_transport sid transport t)
unfolding forget_by_session_transport
forget-IsTable sid transport t w = elim (Bool-cases (str_eq sid "")) [
  | inl e ↦ rw e w
  | inr e ↦ rw e (record {
    unique = retain-IsMap _ t.pending w.unique;
    entries = retain-Each (IsEntry t.max_retries) _ t.pending w.entries;
    peak = omega (arith, length-retain _ t.pending, w.peak);
  })
]
