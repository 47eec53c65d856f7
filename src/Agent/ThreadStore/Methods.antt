-- ===== src/Agent/ThreadStore/Methods.antt =====
-- thread_store.go: the methods. Each holds the mutex and is one step; the readings of the clock are
-- arguments, in nanoseconds. `cloneThreadEvent` copies a map that nothing else changes here.
use Prim.Native.String.{◌++◌ as concat}
use vibe_deck.Prelude.{
  ℕ, ◌==◌, ℤ, pos, negsuc, ltb_ℤ, Bool, true, false, not, ◌&&◌, ◌||◌, Option, none, some, List, [],
  ◌∷◌, ◌++◌, map, String, str_eq, if◌then◌else◌,
}
use vibe_deck.GoMap.{GoMap, lookup, insert}
use vibe_deck.Text.{trim_space, decimal}
use vibe_deck.Protocol.Envelope.{Result, ok, err}
use vibe_deck.Agent.ThreadStore.State.{
  ThreadSummary, ThreadEvent, ThreadDetail, ThreadRecord, ThreadStore,
}
use vibe_deck.Agent.ThreadStore.Titles.{
  normalize_thread_title, new_thread_title, first_non_empty_text, humanize_event_kind,
  value_from_data,
}
use vibe_deck.Agent.ThreadStore.Disk.{unix_milli, str_less, persist_locked_best_effort, link_job}

abbrev pub draft : ℕ → String → String → String → ThreadRecord
draft now id session_id title = record {
  summary = record {
    id = id;
    session_id = trim_space session_id;
    title = title;
    state = "draft";
    current_job_id = "";
    last_event_kind = "";
    last_event_text = "";
    updated_at = unix_milli now;
  };
  events = [];
}

-- The summary of a thread that is there already.
abbrev pub renewed : ℕ → String → String → ThreadSummary → ThreadSummary
renewed now session_id title old = record old {
  title = if str_eq old.title new_thread_title && not (str_eq title "") then title else old.title;
  session_id =
      if str_eq old.session_id "" && not (str_eq (trim_space session_id) "")
      then trim_space session_id
      else old.session_id;
  updated_at = unix_milli now;
}

abbrev pub ensured : ℕ → String → String → String → Option ThreadRecord → ThreadRecord
ensured now id session_id title none = draft now id session_id title
ensured now id session_id title (some r) = record r {
  summary = renewed now session_id title r.summary;
}

-- `stamp` is the reading for an id that is not given, and `saved` the one for the snapshot.
unfoldable pub ensure_thread :
    ℕ → ℕ → ℕ → String → String → String → ThreadStore → ThreadStore × ThreadSummary
ensure_thread now stamp saved thread_id session_id title s =
    let id = if str_eq thread_id "" then concat "thread_" (decimal stamp) else thread_id in
    let r = ensured now id session_id (normalize_thread_title title) (lookup id s.threads) in
    (persist_locked_best_effort saved (record s { threads = insert id r s.threads }), r.summary)

abbrev pub is_zero : ℤ → Bool
is_zero (pos n) = n == 0
is_zero (negsuc n) = false

-- The event with its empty fields filled in.
unfoldable pub fill_event : ℕ → ℕ → String → ThreadEvent → ThreadEvent
fill_event now stamp thread_id e = record e {
  id = if str_eq e.id "" then concat "evt_" (decimal stamp) else e.id;
  thread_id = if str_eq e.thread_id "" then thread_id else e.thread_id;
  at = if is_zero e.at then unix_milli now else e.at;
  title = if str_eq e.title "" then humanize_event_kind e.kind else e.title;
}

-- The `switch` on the kind of the event.
unfoldable pub next_state : ThreadEvent → String → String
next_state e state =
    if str_eq e.kind "prompt_submitted"
    then "prompt_submitted"
    else if str_eq e.kind "patch_ready"
    then "patch_ready"
    else if str_eq e.kind "patch_applied"
    then value_from_data e.data_of "status" "applied"
    else if str_eq e.kind "run_finished"
    then value_from_data e.data_of "status" "completed"
    else state

unfoldable pub append_to : ThreadEvent → ThreadRecord → ThreadRecord
append_to e r = record {
  events = r.events ++ e ∷ [];
  summary = record r.summary {
    updated_at = e.at;
    last_event_kind = e.kind;
    last_event_text = first_non_empty_text (e.body ∷ e.title ∷ []);
    current_job_id = if str_eq e.job_id "" then r.summary.current_job_id else e.job_id;
    state = next_state e r.summary.state;
  };
}

abbrev pub append_found :
    ℕ
    → String
    → ThreadEvent
    → Option ThreadRecord
    → ThreadStore
    → ThreadStore × Result ThreadSummary
append_found saved thread_id e none s = (s, err (concat "thread " (concat thread_id " not found")))
append_found saved thread_id e (some r) s =
    let r' = append_to e r in
    (
      persist_locked_best_effort saved (record s {
        threads = insert thread_id r' s.threads;
        job_to_thread = link_job e.job_id thread_id s.job_to_thread;
      }),
      ok r'.summary,
    )

unfoldable pub append_event :
    ℕ → ℕ → ℕ → String → ThreadEvent → ThreadStore → ThreadStore × Result ThreadSummary
append_event now stamp saved thread_id event s =
    append_found saved thread_id (fill_event now stamp thread_id event) (lookup thread_id s.threads)
      s

abbrev pub assigned :
    String → String → Option ThreadRecord → GoMap ThreadRecord → GoMap ThreadRecord
assigned thread_id job_id none threads = threads
assigned thread_id job_id (some r) threads =
    insert thread_id (record r { summary = record r.summary { current_job_id = job_id } }) threads

unfoldable pub assign_job : ℕ → String → String → ThreadStore → ThreadStore
assign_job saved thread_id job_id s =
    if str_eq thread_id "" || str_eq job_id ""
    then s
    else persist_locked_best_effort saved (record s {
      threads = assigned thread_id job_id (lookup thread_id s.threads) s.threads;
      job_to_thread = insert job_id thread_id s.job_to_thread;
    })

unfoldable pub thread_id_for_job : String → ThreadStore → Option String
thread_id_for_job job_id s = lookup job_id s.job_to_thread

abbrev pub detail_of : Option ThreadRecord → Option ThreadDetail
detail_of none = none
detail_of (some r) = some (record { thread = r.summary; events = r.events })

unfoldable pub get : String → ThreadStore → Option ThreadDetail
get thread_id s = detail_of (lookup thread_id s.threads)

-- The comparison of `List`: the newest first, and of two of one time the greater id.
unfoldable pub newer : ThreadSummary → ThreadSummary → Bool
newer a b =
    if ltb_ℤ b.updated_at a.updated_at
    then true
    else if ltb_ℤ a.updated_at b.updated_at
    then false
    else str_less b.id a.id

-- sort.Slice
abbrev pub place : ThreadSummary → List ThreadSummary → List ThreadSummary
place x [] = x ∷ []
place x (y ∷ ys) = let rest = place x ys in if newer y x then y ∷ rest else x ∷ y ∷ ys

unfoldable pub sort_newest : List ThreadSummary → List ThreadSummary
unfolding newer
sort_newest [] = []
sort_newest (x ∷ xs) = place x (sort_newest xs)

unfoldable pub list : ThreadStore → List ThreadSummary
list s = sort_newest (map (λ e. e.1.summary) s.threads)
