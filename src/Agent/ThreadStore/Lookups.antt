-- ===== src/Agent/ThreadStore/Lookups.antt =====
-- What lookups find in a thread store after a call (thread_store.go).
use Prim.Native.String.{◌++◌ as concat}
use vibe_deck.Prelude.{
  ℕ, false, some, String, str_eq, ◌≡◌, refl, if◌then◌else◌, ◌||◌, eq_refl, inl, inr, Bool-cases,
}
use vibe_deck.GoMap.{lookup, insert, lookup-insert}
use vibe_deck.Agent.ThreadStore.State.{ThreadStore, ThreadRecord, ThreadEvent}
use vibe_deck.Agent.ThreadStore.Methods.{append_event, append_to, append_found, fill_event}
use vibe_deck.Text.{decimal}
use vibe_deck.Agent.ThreadStore.Disk.{link_job}
use vibe_deck.Agent.ThreadStore.Titles.{normalize_thread_title}
use vibe_deck.Agent.ThreadStore.Methods.{ensure_thread, ensured, assign_job, thread_id_for_job}
use vibe_deck.Agent.ThreadStore.Journal.{persist_threads, ensured-IsThread, IsThreadStore}

-- An event that finds its thread is appended to it.
pub lookup-append_event :
    (now stamp saved : ℕ) (id : String) (e : ThreadEvent) (t : ThreadRecord) (s : ThreadStore)
    → lookup id s.threads ≡ some t
    → lookup id (append_event now stamp saved id e s).0.threads
      ≡ some (append_to (fill_event now stamp id e) t)
unfolding append_event
lookup-append_event now stamp saved id e t s h =
    let k : (append_found saved id (fill_event now stamp id e) (lookup id s.threads) s).0.threads
        ≡ insert id (append_to (fill_event now stamp id e) t) s.threads =
      rw h ((persist_threads saved _).0) in
    rw (k, lookup-insert id id (append_to (fill_event now stamp id e) t) s.threads, eq_refl id) refl

-- A thread that is ensured is there, under the id of its summary.
pub found-ensure_thread :
    (now stamp saved : ℕ) (thread_id session_id title : String) (s : ThreadStore)
    → IsThreadStore s
    → let r = ensure_thread now stamp saved thread_id session_id title s in
      (t : ThreadRecord) × (lookup r.1.id r.0.threads ≡ some t)
unfolding ensure_thread
found-ensure_thread now stamp saved thread_id session_id title s w =
    let id = if str_eq thread_id "" then concat "thread_" (decimal stamp) else thread_id in
    let t = ensured now id session_id (normalize_thread_title title) (lookup id s.threads) in
    let h =
      ensured-IsThread now id session_id (normalize_thread_title title) (lookup id s.threads) s w
        refl in
    let k = (persist_threads saved (record s { threads = insert id t s.threads })).0 in
    (t, rw (k, h.named, lookup-insert id id t s.threads, eq_refl id) refl)

pub found-assign_job :
    (saved : ℕ) (id job_id : String) (t : ThreadRecord) (s : ThreadStore)
    → lookup id s.threads ≡ some t
    → (t' : ThreadRecord) × (lookup id (assign_job saved id job_id s).threads ≡ some t')
unfolding assign_job
found-assign_job saved id job_id t s h = elim (Bool-cases (str_eq id "" || str_eq job_id "")) [
  | inl e ↦ rw e (t, h)
  | inr e ↦
      let t' = record t { summary = record t.summary { current_job_id = job_id } } in
      rw e
        (t', rw ((persist_threads saved _).0, h, lookup-insert id id t' s.threads, eq_refl id) refl)
]

pub linked-append_event :
    (now stamp saved : ℕ) (id : String) (e : ThreadEvent) (t : ThreadRecord) (s : ThreadStore)
    → lookup id s.threads ≡ some t
    → str_eq e.job_id "" ≡ false
    → thread_id_for_job e.job_id (append_event now stamp saved id e s).0 ≡ some id
unfolding append_event thread_id_for_job fill_event
linked-append_event now stamp saved id e t s h ne =
    let k : (append_found saved id (fill_event now stamp id e) (lookup id s.threads)
          s).0.job_to_thread
        ≡ link_job e.job_id id s.job_to_thread =
      rw h ((persist_threads saved _).1) in
    rw (k, ne, lookup-insert e.job_id e.job_id id s.job_to_thread, eq_refl e.job_id) refl
