-- ===== src/Runtime/AckTracker/Batches.antt =====
-- What the batch of `DueRetries` holds of one message (ack_tracker.go).
use mathlib.Core.List.{append-nil}
use mathlib.Core.Path.{subst}
use vibe_deck.Prelude.{
  ℕ, Bool, true, false, Option, none, some, List, [], ◌∷◌, ◌++◌, String, ◌≡◌, refl, sym, ap, ◌∙◌,
  arith, str_eq, eq_iff, if◌then◌else◌, inl, inr, Bool-cases,
}
use vibe_deck.GoMap.{GoMap, lookup, IsMap, Each}
use vibe_deck.Runtime.AckTracker.State.{
  PendingAck, TrackedAck, AckRetryBatch, AckMetricState, AckTracker,
}
use vibe_deck.Runtime.AckTracker.Sweeps.{
  Verdict, keep, exhaust, resend, retry_verdict, count_verdict, collect_verdict, due_loop,
  due_retries,
}
use vibe_deck.Runtime.AckTracker.Invariant.{IsTable, IsEntry}

-- The messages with that rid.
abbrev pub mine : String → List TrackedAck → List TrackedAck
mine rid [] = []
mine rid (x ∷ xs) = let rest = mine rid xs in if str_eq x.pending.rid rid then x ∷ rest else rest

abbrev pub given_up : String → List PendingAck → List PendingAck
given_up rid [] = []
given_up rid (p ∷ ps) = let rest = given_up rid ps in if str_eq p.rid rid then p ∷ rest else rest

mine-append :
    (rid : String) (xs : List TrackedAck) (y : TrackedAck)
    → mine rid (xs ++ y ∷ []) ≡ mine rid xs ++ (if str_eq y.pending.rid rid then y ∷ [] else [])
mine-append rid [] y = refl
mine-append rid (x ∷ xs) y = elim (Bool-cases (str_eq x.pending.rid rid)) [
  | inl e ↦ rw e (ap (λ (l : List TrackedAck). x ∷ l) (mine-append rid xs y))
  | inr e ↦ rw e (mine-append rid xs y)
]

given_up-append :
    (rid : String) (ps : List PendingAck) (q : PendingAck)
    → given_up rid (ps ++ q ∷ []) ≡ given_up rid ps ++ (if str_eq q.rid rid then q ∷ [] else [])
given_up-append rid [] q = refl
given_up-append rid (p ∷ ps) q = elim (Bool-cases (str_eq p.rid rid)) [
  | inl e ↦ rw e (ap (λ (l : List PendingAck). p ∷ l) (given_up-append rid ps q))
  | inr e ↦ rw e (given_up-append rid ps q)
]

-- What a verdict on an entry puts in the batch.
abbrev pub sent_of : Verdict → TrackedAck → List TrackedAck
sent_of (resend p) tracked = (record tracked { pending = p }) ∷ []
sent_of _ tracked = []

abbrev pub dropped_of : Verdict → TrackedAck → List PendingAck
dropped_of exhaust tracked = tracked.pending ∷ []
dropped_of _ tracked = []

abbrev verdict_rid : Verdict → TrackedAck → String
verdict_rid (resend p) tracked = p.rid
verdict_rid _ tracked = tracked.pending.rid

retry_verdict_rid :
    (now : ℕ) (t : AckTracker) (tracked : TrackedAck)
    → verdict_rid (retry_verdict now t tracked.pending) tracked ≡ tracked.pending.rid
unfolding retry_verdict
retry_verdict_rid now t tracked = ground arith

none_either_way {ℓ} : {A : Type ℓ} (c : Bool) (xs : List A) → xs ≡ xs ++ (if c then [] else [])
none_either_way true xs = sym (append-nil xs)
none_either_way false xs = sym (append-nil xs)

collect-mine :
    (v : Verdict) (rid : String) (tracked : TrackedAck) (b : AckRetryBatch)
    → verdict_rid v tracked ≡ tracked.pending.rid
    → mine rid (collect_verdict v tracked b).retries
      ≡ mine rid b.retries ++ (if str_eq tracked.pending.rid rid then sent_of v tracked else [])
collect-mine keep rid tracked b h = none_either_way (str_eq tracked.pending.rid rid) _
collect-mine exhaust rid tracked b h = none_either_way (str_eq tracked.pending.rid rid) _
collect-mine (resend p) rid tracked b h =
    mine-append rid b.retries (record tracked { pending = p })
    ∙ ap
        (λ (r : String).
          mine rid b.retries
          ++ (if str_eq r rid then (record tracked { pending = p }) ∷ [] else []))
        h

collect-given_up :
    (v : Verdict) (rid : String) (tracked : TrackedAck) (b : AckRetryBatch)
    → given_up rid (collect_verdict v tracked b).exhausted
      ≡ given_up rid b.exhausted
        ++ (if str_eq tracked.pending.rid rid then dropped_of v tracked else [])
collect-given_up keep rid tracked b = none_either_way (str_eq tracked.pending.rid rid) _
collect-given_up exhaust rid tracked b = given_up-append rid b.exhausted tracked.pending
collect-given_up (resend p) rid tracked b = none_either_way (str_eq tracked.pending.rid rid) _

abbrev pub sent_by : ℕ → AckTracker → Option TrackedAck → List TrackedAck
sent_by now t none = []
sent_by now t (some tracked) = sent_of (retry_verdict now t tracked.pending) tracked

abbrev pub dropped_by : ℕ → AckTracker → Option TrackedAck → List PendingAck
dropped_by now t none = []
dropped_by now t (some tracked) = dropped_of (retry_verdict now t tracked.pending) tracked

module _ (now : ℕ) (t : AckTracker) where
  -- Behind an entry with the rid there is no other.
  absent_after :
      (k rid : String) (rest : GoMap TrackedAck)
      → str_eq k rid ≡ true
      → lookup k rest ≡ none
      → lookup rid rest ≡ none
  absent_after k rid rest e h = subst (λ (j : String). lookup j rest ≡ none) ((eq_iff k rid).0 e) h

  due_loop_batch :
      (limit : ℕ) (es : GoMap TrackedAck) (m : AckMetricState) (b : AckRetryBatch) (rid : String)
      → IsMap es
      → Each (IsEntry limit) es
      → let b' = (due_loop now t es m b).2 in
        (mine rid b'.retries ≡ mine rid b.retries ++ sent_by now t (lookup rid es))
        × (given_up rid b'.exhausted ≡ given_up rid b.exhausted ++ dropped_by now t (lookup rid es))
  unfolding due_loop lookup
  due_loop_batch limit [] m b rid u w =
      (sym (append-nil (mine rid b.retries)), sym (append-nil (given_up rid b.exhausted)))
  due_loop_batch limit ((k, tracked) ∷ rest) m b rid u w =
      let v = retry_verdict now t tracked.pending in
      let (sent, dropped) =
        due_loop_batch limit rest (count_verdict v m) (collect_verdict v tracked b) rid u.1 w.1 in
      let s = collect-mine v rid tracked b (retry_verdict_rid now t tracked) in
      let d = collect-given_up v rid tracked b in
      let name : tracked.pending.rid ≡ k = w.0.0 in
      elim (Bool-cases (str_eq k rid)) [
        | inl e ↦
            let gone = absent_after k rid rest e u.0 in
            (
              rw e (sent ∙ rw gone (append-nil _) ∙ s ∙ rw (name, e) refl),
              rw e (dropped ∙ rw gone (append-nil _) ∙ d ∙ rw (name, e) refl),
            )
        | inr e ↦ (
          rw e (
              sent
              ∙ ap (λ (l : List TrackedAck). l ++ sent_by now t (lookup rid rest))
                  (s ∙ rw (name, e) (append-nil _))),
          rw e (
              dropped
              ∙ ap (λ (l : List PendingAck). l ++ dropped_by now t (lookup rid rest))
                  (d ∙ rw (name, e) (append-nil _))),
        )
      ]

  -- The batch of a sweep has of each message what its own entry alone decides.
  pub due_retries_batch :
      (rid : String)
      → IsTable t
      → let b = (due_retries now t).1 in
        (mine rid b.retries ≡ sent_by now t (lookup rid t.pending))
        × (given_up rid b.exhausted ≡ dropped_by now t (lookup rid t.pending))
  unfolding due_retries
  due_retries_batch rid w =
      due_loop_batch t.max_retries t.pending t.metrics (record { retries = []; exhausted = [] }) rid
        w.unique w.entries
