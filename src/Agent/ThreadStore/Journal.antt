-- ===== src/Agent/ThreadStore/Journal.antt =====
-- Any sequence of calls of the thread store (thread_store.go).
use mathlib.Core.Path.{subst}
use vibe_deck.Prelude.{
  ℕ, ◌||◌, Option, none, some, List, [], ◌∷◌, ◌++◌, String, str_eq, ◌≡◌, refl, sym, ap, ◌∙◌, eq_iff,
  inl, inr, Bool-cases,
}
use mathlib.Core.List.{append-nil, append_assoc}
use vibe_deck.GoMap.{
  GoMap, lookup, insert, lookup-insert, IsMap, insert-IsMap, Each, Each-insert, Each-lookup,
}
use vibe_deck.Agent.ThreadStore.State.{ThreadEvent, ThreadRecord, ThreadStore, new_thread_store}
use vibe_deck.Agent.ThreadStore.Disk.{persist_locked_best_effort}
use vibe_deck.Agent.ThreadStore.Methods.{
  ensured, ensure_thread, append_to, append_found, append_event, fill_event, assigned, assign_job,
}

pub data Call : Type 0 where
  ensure : ℕ → ℕ → ℕ → String → String → String → Call
  append : ℕ → ℕ → ℕ → String → ThreadEvent → Call
  assign : ℕ → String → String → Call

abbrev pub call : Call → ThreadStore → ThreadStore
call (ensure now stamp saved id session_id title) s =
    (ensure_thread now stamp saved id session_id title s).0
call (append now stamp saved id event) s = (append_event now stamp saved id event s).0
call (assign saved id job_id) s = assign_job saved id job_id s

unfoldable pub calls : List Call → ThreadStore → ThreadStore
calls [] s = s
calls (c ∷ cs) s = calls cs (call c s)

-- The kind that the summary shows is that of the last event.
abbrev pub Shows : List ThreadEvent → String → Type 0
Shows [] kind = kind ≡ ""
Shows (e ∷ []) kind = kind ≡ e.kind
Shows (e ∷ f ∷ rest) kind = Shows (f ∷ rest) kind

pub record IsThread (id : String) (r : ThreadRecord) : Type 0 where
  pub named : r.summary.id ≡ id
  pub shown : Shows r.events r.summary.last_event_kind

pub record IsThreadStore (s : ThreadStore) : Type 0 where
  pub unique : IsMap s.threads
  pub threads : Each IsThread s.threads

pub persist_threads :
    (now : ℕ) (s : ThreadStore)
    → ((persist_locked_best_effort now s).threads ≡ s.threads)
      × ((persist_locked_best_effort now s).job_to_thread ≡ s.job_to_thread)
unfolding persist_locked_best_effort
persist_threads now s = elim (Bool-cases (str_eq s.persistence_path "")) [
  | inl e ↦ rw e (refl, refl)
  | inr e ↦ rw e (refl, refl)
]

Shows-append : (es : List ThreadEvent) (e : ThreadEvent) → Shows (es ++ e ∷ []) e.kind
Shows-append [] e = refl
Shows-append (x ∷ []) e = refl
Shows-append (x ∷ y ∷ es) e = Shows-append (y ∷ es) e

append_to-IsThread :
    (id : String) (e : ThreadEvent) (r : ThreadRecord) → IsThread id r → IsThread id (append_to e r)
unfolding append_to
append_to-IsThread id e r h = record { named = h.named; shown = Shows-append r.events e }

pub ensured-IsThread :
    (now : ℕ) (id session_id title : String) (o : Option ThreadRecord) (s : ThreadStore)
    → IsThreadStore s
    → lookup id s.threads ≡ o
    → IsThread id (ensured now id session_id title o)
ensured-IsThread now id session_id title none s w l = record { named = refl; shown = refl }
ensured-IsThread now id session_id title (some r) s w l =
    let h = Each-lookup IsThread id r s.threads w.threads l in
    record { named = h.named; shown = h.shown }

persist-IsThreadStore :
    (now : ℕ) (s : ThreadStore) → IsThreadStore s → IsThreadStore (persist_locked_best_effort now s)
persist-IsThreadStore now s w =
    let (same, links) = persist_threads now s in
    record { unique = rw same w.unique; threads = rw same w.threads }

-- Writing one thread, and the file.
write-IsThreadStore :
    (now : ℕ) (id : String) (r : ThreadRecord) (jobs : GoMap String) (s : ThreadStore)
    → IsThreadStore s
    → IsThread id r
    → IsThreadStore (
        persist_locked_best_effort now
          (record s { threads = insert id r s.threads; job_to_thread = jobs }))
write-IsThreadStore now id r jobs s w h = persist-IsThreadStore now _ (record {
  unique = insert-IsMap id r s.threads w.unique;
  threads = Each-insert IsThread id r s.threads h w.threads;
})

append_found-IsThreadStore :
    (saved : ℕ) (id : String) (e : ThreadEvent) (o : Option ThreadRecord) (s : ThreadStore)
    → IsThreadStore s
    → lookup id s.threads ≡ o
    → IsThreadStore (append_found saved id e o s).0
append_found-IsThreadStore saved id e none s w l = w
append_found-IsThreadStore saved id e (some r) s w l =
    write-IsThreadStore saved id (append_to e r) _ s w
      (append_to-IsThread id e r (Each-lookup IsThread id r s.threads w.threads l))

assigned-IsThreadStore :
    (saved : ℕ) (id job_id : String) (o : Option ThreadRecord) (s : ThreadStore)
    → IsThreadStore s
    → lookup id s.threads ≡ o
    → IsThreadStore (
        persist_locked_best_effort saved (record s {
          threads = assigned id job_id o s.threads;
          job_to_thread = insert job_id id s.job_to_thread;
        }))
assigned-IsThreadStore saved id job_id none s w l =
    persist-IsThreadStore saved _ (record { unique = w.unique; threads = w.threads })
assigned-IsThreadStore saved id job_id (some r) s w l =
    let h = Each-lookup IsThread id r s.threads w.threads l in
    write-IsThreadStore saved id _ _ s w (record { named = h.named; shown = h.shown })

pub call-IsThreadStore : (c : Call) (s : ThreadStore) → IsThreadStore s → IsThreadStore (call c s)
unfolding ensure_thread append_event assign_job
call-IsThreadStore (ensure now stamp saved id session_id title) s w =
    write-IsThreadStore saved _ _ s.job_to_thread s w
      (ensured-IsThread now _ session_id _ _ s w refl)
call-IsThreadStore (append now stamp saved id event) s w =
    append_found-IsThreadStore saved id (fill_event now stamp id event) (lookup id s.threads) s w
      refl
call-IsThreadStore (assign saved id job_id) s w =
    elim (Bool-cases (str_eq id "" || str_eq job_id "")) [
      | inl e ↦ rw e w
      | inr e ↦ rw e (assigned-IsThreadStore saved id job_id (lookup id s.threads) s w refl)
    ]

calls_keep : (cs : List Call) (s : ThreadStore) → IsThreadStore s → IsThreadStore (calls cs s)
unfolding calls
calls_keep [] s w = w
calls_keep (c ∷ cs) s w = calls_keep cs (call c s) (call-IsThreadStore c s w)

-- After any calls on a new store each thread has one record, which stands under its own id, and the
-- kind of event that its summary shows is that of its last event.
pub calls-IsThreadStore : (cs : List Call) → IsThreadStore (calls cs new_thread_store)
unfolding new_thread_store
calls-IsThreadStore cs = calls_keep cs new_thread_store (record { unique = tt; threads = tt })

abbrev pub record_events : Option ThreadRecord → List ThreadEvent
record_events none = []
record_events (some r) = r.events

abbrev pub events_of : String → ThreadStore → List ThreadEvent
events_of id s = record_events (lookup id s.threads)

abbrev pub Extends : List ThreadEvent → List ThreadEvent → Type 0
Extends old new = (more : List ThreadEvent) × (new ≡ old ++ more)

pub Extends-refl : (es : List ThreadEvent) → Extends es es
Extends-refl es = ([], sym (append-nil es))

pub Extends-trans : (a b c : List ThreadEvent) → Extends a b → Extends b c → Extends a c
Extends-trans a b c (m, e) (n, f) =
    (m ++ n, f ∙ ap (λ (x : List ThreadEvent). x ++ n) e ∙ append_assoc a m n)

write-Extends :
    (now : ℕ) (id : String) (r : ThreadRecord) (jobs : GoMap String) (s : ThreadStore) (j : String)
    → Extends (events_of id s) r.events
    → Extends (events_of j s) (
        events_of j (
          persist_locked_best_effort now
            (record s { threads = insert id r s.threads; job_to_thread = jobs })))
write-Extends now id r jobs s j h =
    let s' = record s { threads = insert id r s.threads; job_to_thread = jobs } in
    let (same, links) = persist_threads now s' in
    rw same (elim (Bool-cases (str_eq id j)) [
      | inl e ↦
          rw (lookup-insert id j r s.threads, e)
            (subst (λ (k : String). Extends (events_of k s) r.events) ((eq_iff id j).0 e) h)
      | inr n ↦ rw (lookup-insert id j r s.threads, n) (Extends-refl (events_of j s))
    ])

append_found-Extends :
    (saved : ℕ) (id : String) (e : ThreadEvent) (o : Option ThreadRecord) (s : ThreadStore)
    (j : String)
    → lookup id s.threads ≡ o
    → Extends (events_of j s) (events_of j (append_found saved id e o s).0)
unfolding append_to
append_found-Extends saved id e none s j l = Extends-refl (events_of j s)
append_found-Extends saved id e (some r) s j l =
    write-Extends saved id (append_to e r) _ s j
      (e ∷ [], ap (λ (o : Option ThreadRecord). record_events o ++ e ∷ []) (sym l))

ensured-events :
    (now : ℕ) (id session_id title : String) (o : Option ThreadRecord)
    → (ensured now id session_id title o).events ≡ record_events o
ensured-events now id session_id title none = refl
ensured-events now id session_id title (some r) = refl

assigned-Extends :
    (saved : ℕ) (id job_id : String) (o : Option ThreadRecord) (s : ThreadStore) (j : String)
    → lookup id s.threads ≡ o
    → Extends (events_of j s) (
        events_of j (
          persist_locked_best_effort saved (record s {
            threads = assigned id job_id o s.threads;
            job_to_thread = insert job_id id s.job_to_thread;
          })))
assigned-Extends saved id job_id none s j l =
    let (same, links) =
      persist_threads saved (record s { job_to_thread = insert job_id id s.job_to_thread }) in
    rw same (Extends-refl (events_of j s))
assigned-Extends saved id job_id (some r) s j l =
    write-Extends saved id _ _ s j (rw l (Extends-refl r.events))

pub call-Extends :
    (c : Call) (s : ThreadStore) (j : String) → Extends (events_of j s) (events_of j (call c s))
unfolding ensure_thread append_event assign_job
call-Extends (ensure now stamp saved id session_id title) s j =
    write-Extends saved _ _ s.job_to_thread s j
      ([], ensured-events now _ session_id _ (lookup _ s.threads) ∙ sym (append-nil _))
call-Extends (append now stamp saved id event) s j =
    append_found-Extends saved id (fill_event now stamp id event) (lookup id s.threads) s j refl
call-Extends (assign saved id job_id) s j = elim (Bool-cases (str_eq id "" || str_eq job_id "")) [
  | inl e ↦ rw e (Extends-refl (events_of j s))
  | inr e ↦ rw e (assigned-Extends saved id job_id (lookup id s.threads) s j refl)
]

-- No call removes or changes an event: whatever is called, the events of a thread before are the first
-- ones of its events afterwards, in the same order.
pub calls-Extends :
    (cs : List Call) (s : ThreadStore) (j : String)
    → Extends (events_of j s) (events_of j (calls cs s))
unfolding calls
calls-Extends [] s j = Extends-refl (events_of j s)
calls-Extends (c ∷ cs) s j =
    Extends-trans _ _ _ (call-Extends c s j) (calls-Extends cs (call c s) j)
