-- ===== src/Agent/ThreadStore/Disk.antt =====
-- thread_store.go: the snapshot, its file, and the store that is loaded from it.
-- The file is a text. json.MarshalIndent, which makes it, and json.Unmarshal, which reads it, are
-- functions that the store is given; nothing is said of them here.
use Prim.Native.Nat.{Ordering}
use Prim.Native.String.{◌++◌ as concat, compare}
use vibe_deck.Prelude.{
  ℕ, ℤ, pos, ◌/◌, Bool, true, false, Option, none, some, List, [], ◌∷◌, String, str_eq,
  if◌then◌else◌,
}
use vibe_deck.GoMap.{GoMap, lookup, insert}
use vibe_deck.Text.{trim_space}
use vibe_deck.Protocol.Envelope as Protocol
use vibe_deck.Agent.ThreadStore.State.{
  ThreadEvent, ThreadDetail, ThreadRecord, ThreadStoreSnapshot, Outcome, written, not_written,
  not_renamed, Disk, ThreadStore, new_thread_store,
}

-- t.UnixMilli()
abbrev pub unix_milli : ℕ → ℤ
unix_milli t = pos (t / 1000000)

abbrev pub str_less : String → String → Bool
str_less a b = elim (compare a b) [ Ordering.lt ↦ true | _ ↦ false ]

-- sort.Strings
abbrev pub insert_sorted : String → List String → List String
insert_sorted x [] = x ∷ []
insert_sorted x (y ∷ ys) =
    let rest = insert_sorted x ys in if str_less y x then y ∷ rest else x ∷ y ∷ ys

unfoldable pub sort_strings : List String → List String
sort_strings [] = []
sort_strings (x ∷ xs) = insert_sorted x (sort_strings xs)

abbrev pub keys : GoMap ThreadRecord → List String
keys [] = []
keys ((k, r) ∷ rest) = k ∷ keys rest

abbrev pub details_of : Option ThreadRecord → List ThreadDetail → List ThreadDetail
details_of none rest = rest
details_of (some r) rest = (record { thread = r.summary; events = r.events }) ∷ rest

-- The loop over the sorted ids; every id is a key of the map.
unfoldable pub collect : GoMap ThreadRecord → List String → List ThreadDetail
collect threads [] = []
collect threads (id ∷ ids) = details_of (lookup id threads) (collect threads ids)

unfoldable pub snapshot_locked : ℕ → ThreadStore → ThreadStoreSnapshot
snapshot_locked now s = record {
  version = 1;
  saved_at = unix_milli now;
  threads = collect s.threads (sort_strings (keys s.threads));
}

abbrev pub next_outcome : List Outcome → Outcome
next_outcome [] = written
next_outcome (o ∷ rest) = o

abbrev pub later_outcomes : List Outcome → List Outcome
later_outcomes [] = []
later_outcomes (o ∷ rest) = rest

abbrev pub write_disk : Outcome → String → Disk → Disk
write_disk written bytes d = record d { file = some bytes; tmp = none }
write_disk not_written bytes d = d
write_disk not_renamed bytes d = record d { file = none; tmp = some bytes }

-- A snapshot that is no JSON is not written; otherwise the next outcome is used.
abbrev pub write_marshalled : Protocol.Result String → Disk → Disk
write_marshalled (Protocol.err e) d = d
write_marshalled (Protocol.ok bytes) d = record (write_disk (next_outcome d.outcomes) bytes d) {
  outcomes = later_outcomes d.outcomes;
}

unfoldable pub persist_locked : ThreadStoreSnapshot → Disk → Disk
persist_locked snapshot d = write_marshalled (d.marshal snapshot) d

-- A failure is logged only.
unfoldable pub persist_locked_best_effort : ℕ → ThreadStore → ThreadStore
unfolding persist_locked
persist_locked_best_effort now s =
    if str_eq s.persistence_path ""
    then s
    else record s { disk = persist_locked (snapshot_locked now s) s.disk }

abbrev pub link_job : String → String → GoMap String → GoMap String
link_job job_id thread_id jobs = if str_eq job_id "" then jobs else insert job_id thread_id jobs

unfoldable pub link_events : String → List ThreadEvent → GoMap String → GoMap String
link_events thread_id [] jobs = jobs
link_events thread_id (e ∷ rest) jobs =
    link_events thread_id rest (link_job e.job_id thread_id jobs)

unfoldable pub load_details : List ThreadDetail → ThreadStore → ThreadStore
load_details [] s = s
load_details (d ∷ rest) s = load_details rest (record s {
  job_to_thread =
      link_job d.thread.current_job_id d.thread.id
        (link_events d.thread.id d.events s.job_to_thread);
  threads = insert d.thread.id (record { summary = d.thread; events = d.events }) s.threads;
})

-- What os.ReadFile gives.
pub data FileRead : Type 0 where
  not_exist : FileRead
  not_read : String → FileRead
  content : String → FileRead

pub data Loaded : Type 0 where
  ok : ThreadStore → Loaded
  err : String → Loaded

abbrev pub load_decoded : Protocol.Result ThreadStoreSnapshot → ThreadStore → Loaded
load_decoded (Protocol.err e) s = err (concat "decode thread store snapshot: " e)
load_decoded (Protocol.ok snapshot) s =
    ok (load_details snapshot.threads (record s { threads = []; job_to_thread = [] }))

abbrev pub load_read :
    (String → Protocol.Result ThreadStoreSnapshot) → FileRead → ThreadStore → Loaded
load_read unmarshal not_exist s = ok s
load_read unmarshal (not_read e) s = err (concat "read thread store snapshot: " e)
load_read unmarshal (content bytes) s =
    if str_eq (trim_space bytes) "" then ok s else load_decoded (unmarshal bytes) s

unfoldable pub load_from_disk :
    (String → Protocol.Result ThreadStoreSnapshot) → FileRead → ThreadStore → Loaded
load_from_disk unmarshal read s =
    if str_eq s.persistence_path "" then ok s else load_read unmarshal read s

-- `path` is the argument before it is trimmed; `disk` is the file system that the store finds.
unfoldable pub new_persistent_thread_store :
    (String → Protocol.Result ThreadStoreSnapshot) → String → FileRead → Disk → Loaded
unfolding new_thread_store
new_persistent_thread_store unmarshal path read disk =
    let s = record new_thread_store { persistence_path = trim_space path; disk = disk } in
    if str_eq s.persistence_path "" then ok s else load_from_disk unmarshal read s
