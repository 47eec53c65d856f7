-- ===== src/Agent/Examples.antt =====
-- The thread store, the orchestrator and the control metrics on concrete values.
use vibe_deck.Prelude.{
  map, if◌then◌else◌, str_eq, ℕ, ◌+◌, pos, negsuc, true, none, some, List, [], ◌∷◌, String, ◌≡◌,
  ◌≢◌, refl, arith, eq_iff,
}
use vibe_deck.Text.{decimal, trim_space, trim_left, trim_right, is_space}
use mathlib.Core.Option.{map as option_map}
use vibe_deck.GoMap.{GoMap, lookup}
use vibe_deck.Protocol.Models.{MessageType, prompt_submit, patch_apply}
use vibe_deck.Protocol.Envelope.{Envelope, Result, ok, decode_payload}
use vibe_deck.Protocol.TestCodec.{test_codec, test_codec-IsJson}
use vibe_deck.Agent.Adapter.Mock.{MockAdapter, mock_adapter, mock_context, mock_patch}
use vibe_deck.Agent.ThreadStore.State.{
  ThreadStore, ThreadRecord, ThreadDetail, ThreadEvent, Value, number, texts, no_disk,
  new_thread_store,
}
use vibe_deck.Agent.ThreadStore.Titles.{
  normalize_thread_title, first_line, replace_crlf, split_lines, first_of, byte_length, byte_prefix,
}
use vibe_deck.Agent.ThreadStore.Journal.{
  Call, calls, ensure, append, assign, IsThreadStore, Extends, events_of, calls-IsThreadStore,
  calls-Extends,
}
use vibe_deck.Agent.ThreadStore.State.{ThreadStoreSnapshot}
use vibe_deck.Agent.ThreadStore.Disk.{
  persist_locked_best_effort, load_from_disk, content, ok as loaded, snapshot_locked,
}
use vibe_deck.Agent.ThreadStore.Methods.{get}
use vibe_deck.Agent.ThreadStore.Reload.{get-load_from_disk}
use vibe_deck.Agent.Orchestrator.State.{Job, Orchestrator, World}
use vibe_deck.Agent.Orchestrator.Commands.{
  handle_envelope, handle_patch_apply, handle_prompt_submit,
}
use vibe_deck.Agent.Orchestrator.Steps.{event}
use vibe_deck.Agent.Orchestrator.Replies.{IsReply, IsOrchestrator, Onward, IsWorld}
use vibe_deck.Agent.Orchestrator.Answers.{handle_envelope_answers}
use vibe_deck.Agent.Orchestrator.Patches.{ReadyJob, patch_apply_lem, prompt_submit-ReadyJob}
use vibe_deck.Agent.ControlMetrics.{
  new_control_metrics, no_error, deadline_exceeded, other_error, snapshot,
}
use vibe_deck.Agent.ControlMetrics.Counts.{Observation, observe_all}
use vibe_deck.Agent.ControlMetrics.Snapshots.{stats_at}
use vibe_deck.Agent.ControlMetrics.Bounds.{IsStats, observe_all-IsStats}

abbrev start_time : ℕ
start_time = 1700000000000000000

abbrev world : World
world = record { codec = test_codec; clock = λ n. start_time + n }

world-IsWorld : IsWorld world
world-IsWorld = record { json = test_codec-IsJson; late = λ n. omega arith }

abbrev job : Job
job = record {
  id = "j1";
  thread_id = "t1";
  session_id = "s1";
  task_id = "task_1";
  prompt = "fix it";
  state = "patch_ready";
  patch_files = [];
  created_at = start_time;
}

abbrev thread : ThreadRecord
thread = record {
  summary = record {
    id = "t1";
    session_id = "s1";
    title = "fix it";
    state = "patch_ready";
    current_job_id = "j1";
    last_event_kind = "";
    last_event_text = "";
    updated_at = pos 1;
  };
  events = [];
}

abbrev store : ThreadStore
store = record {
  threads = ("t1", thread) ∷ [];
  job_to_thread = ("j1", "t1") ∷ [];
  persistence_path = "";
  disk = no_disk;
}

abbrev orchestrator : Orchestrator mock_adapter
orchestrator = record {
  adapter = record { task_seq = 1; run_seq = 0 };
  profiles = [];
  thread_store = store;
  jobs = ("j1", job) ∷ [];
  seq = 3;
  reads = 0;
}

orchestrator-IsOrchestrator : IsOrchestrator orchestrator
unfolding lookup
orchestrator-IsOrchestrator = record {
  threads = record { unique = (refl, tt); threads = (record { named = refl; shown = refl }, tt) };
  unique = (refl, tt);
  jobs = (refl, tt);
}

abbrev request : MessageType → String → Envelope
request kind payload = record {
  sid = "s1";
  rid = "r1";
  seq = pos 1;
  ts = pos 1;
  kind = kind;
  payload = payload;
}

abbrev rid : String
rid = "r1"

rid-ne : rid ≢ ""
rid-ne h = ground (arith, eq_iff "r1" "")

handle_envelope_answers_example :
    let r = handle_envelope world (request patch_apply "j1") orchestrator in
    IsOrchestrator r.0 × Onward orchestrator r.0 × IsReply test_codec "r1" r.1
handle_envelope_answers_example =
    handle_envelope_answers world world-IsWorld (request patch_apply "j1") rid-ne orchestrator
      orchestrator-IsOrchestrator

abbrev applied : MockAdapter
applied = record { task_seq = 1; run_seq = 0 }

patch_apply_lem_example :
    let o' = (handle_patch_apply (request patch_apply "j1") world orchestrator).1 in
    (lookup "j1" o'.jobs ≡ some (record job { state = "applied" }))
    × (o'.adapter ≡ applied)
    × (t' : ThreadRecord) × (lookup "t1" o'.thread_store.threads ≡ some t')
    × (t'.summary.state
        ≡ (if str_eq (trim_space "success") "" then "applied" else trim_space "success"))
    × (t'.summary.last_event_kind ≡ "patch_applied")
unfolding decode_payload lookup
patch_apply_lem_example =
    patch_apply_lem world (request patch_apply "j1") orchestrator
      (record { job_id = "j1"; mode = "all"; selected = [] }) job thread applied
      (record { status = "success"; message = "patch applied" }) refl refl refl refl

abbrev prompt : String
prompt = "fix the test"

prompt_submit-ReadyJob_example :
    ReadyJob "task_2" mock_patch
      (handle_prompt_submit (request prompt_submit "fix the test") world orchestrator).1
unfolding decode_payload decimal
prompt_submit-ReadyJob_example =
    prompt_submit-ReadyJob world (request prompt_submit "fix the test") orchestrator
      (record {
        thread_id = "";
        prompt = prompt;
        template = "";
        context_options = record {
          include_active_file = true;
          include_selection = true;
          include_latest_error = true;
          include_workspace_summary = true;
        };
      })
      mock_context (record { task_id = "task_2" }) mock_patch (record { task_seq = 1; run_seq = 0 })
      (record { task_seq = 2; run_seq = 0 }) (record { task_seq = 2; run_seq = 0 })
      orchestrator-IsOrchestrator refl (λ h. ground (arith, eq_iff "fix the test" "")) refl refl
      refl

abbrev some_calls : List Call
some_calls =
    ensure start_time start_time start_time "t1" "s1" "fix it"
    ∷ append start_time start_time start_time "t1"
        (event "" "prompt_submitted" "user" "" "fix it" [])
    ∷ assign start_time "t1" "j1"
    ∷ []

calls-IsThreadStore_example : IsThreadStore (calls some_calls new_thread_store)
calls-IsThreadStore_example = calls-IsThreadStore some_calls

calls-Extends_example : Extends (events_of "t1" store) (events_of "t1" (calls some_calls store))
calls-Extends_example = calls-Extends some_calls store "t1"

abbrev saved : ThreadStore
saved = record store {
  persistence_path = "threads.json";
  disk = record {
    file = none;
    tmp = none;
    outcomes = [];
    marshal = λ (snapshot : ThreadStoreSnapshot). ok "{}";
  };
}

abbrev file_path : String
file_path = "threads.json"

path-ne : file_path ≢ ""
path-ne h = ground (arith, eq_iff "threads.json" "")

-- A JSON that reads numbers among event data as another kind of value.
abbrev read_value : Value → Value
read_value (number n) = texts []
read_value v = v

abbrev read_data : GoMap Value → GoMap Value
read_data [] = []
read_data ((k, v) ∷ rest) = (k, read_value v) ∷ read_data rest

abbrev read_back : ThreadDetail → ThreadDetail
read_back d = record d {
  events = map (λ (e : ThreadEvent). record e { data_of = read_data e.data_of }) d.events;
}

abbrev unmarshal : String → Result ThreadStoreSnapshot
unmarshal bytes = ok (record (snapshot_locked start_time saved) {
  threads = map read_back (snapshot_locked start_time saved).threads;
})

abbrev file_bytes : String
file_bytes = "{}"

bytes-ne : trim_space file_bytes ≢ ""
unfolding trim_space trim_left trim_right is_space
bytes-ne h = ground (arith, eq_iff "{}" "")

get-load_from_disk_example :
    (t : ThreadStore) × ((persist_locked_best_effort start_time saved).disk.file ≡ some "{}")
    × (load_from_disk unmarshal (content "{}") saved ≡ loaded t)
    × ((id : String) → get id t ≡ option_map read_back (get id saved))
get-load_from_disk_example =
    get-load_from_disk unmarshal read_back start_time saved saved "{}" (refl, tt) path-ne path-ne
      refl (λ d. refl) refl bytes-ne refl

abbrev observations : List Observation
observations =
    (record {
      message_type = prompt_submit;
      path = " HTTP";
      duration = pos 3000000;
      error = no_error;
    })
    ∷ (record {
      message_type = patch_apply;
      path = "p2p";
      duration = negsuc 0;
      error = deadline_exceeded;
    })
    ∷ (record {
      message_type = prompt_submit;
      path = "http";
      duration = pos 5000000;
      error = other_error;
    })
    ∷ []

observe_all-IsStats_example :
    let s = snapshot (some (observe_all observations new_control_metrics)) in
    IsStats s.totals
    × ((path : String) → IsStats (stats_at path s.by_path))
    × ((label : String) → IsStats (stats_at label s.by_type))
observe_all-IsStats_example = observe_all-IsStats observations

-- A title is cut after 72 bytes, here within a letter of three bytes, of which two stay as bytes.
title_cut : normalize_thread_title "a가나다라마바사아자차카타파하가나다라마바사아자차" ≡ "a가나다라마바사아자차카타파하가나다라마바사아자𓃬𓂰"
unfolding normalize_thread_title first_line replace_crlf split_lines first_of byte_length
    byte_prefix trim_space trim_left trim_right is_space
title_cut = refl
