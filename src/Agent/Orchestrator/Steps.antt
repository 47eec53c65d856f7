-- ===== src/Agent/Orchestrator/Steps.antt =====
-- orchestrator.go: the steps that the handlers are made of: the helper methods, and the calls of the
-- thread store and of the adapter.
use Prim.Native.String.{◌++◌ as concat}
use vibe_deck.Prelude.{
  ℕ, ◌+◌, ℤ, pos, Bool, true, false, ◌||◌, Option, none, some, List, [], ◌∷◌, String, str_eq,
  if◌then◌else◌,
}
use vibe_deck.GoMap.{GoMap, lookup, insert}
use vibe_deck.Text.{decimal}
use vibe_deck.Protocol.Models.{MessageType, FilePatch, Payload}
use vibe_deck.Protocol.Envelope.{Envelope, Result, ok, err, new_envelope, new_cmd_ack}
use vibe_deck.Runtime.AckTracker.Table.{zero_envelope}
use vibe_deck.Control.Profiles.{RunProfile}
use vibe_deck.Agent.Adapter.{WorkspaceAdapter}
use vibe_deck.Agent.ThreadStore.State.{Value, ThreadStore, ThreadEvent}
use vibe_deck.Agent.ThreadStore.Disk.{unix_milli}
use vibe_deck.Agent.ThreadStore.Methods.{append_event, assign_job}
use vibe_deck.Agent.Orchestrator.State.{Job, Reply, next, Handler, pure, return_early, ◌>>=◌}

-- e, _ := ...
abbrev pub or_zero : Result Envelope → Envelope
or_zero (ok e) = e
or_zero (err _) = zero_envelope

-- A literal of `ThreadEvent` as the handlers write it; the store fills in the rest.
abbrev pub event : String → String → String → String → String → GoMap Value → ThreadEvent
event job_id kind role title body data_of = record {
  id = "";
  thread_id = "";
  job_id = job_id;
  kind = kind;
  role = role;
  title = title;
  body = body;
  data_of = data_of;
  at = pos 0;
}

abbrev pub has_path : String → List String → Bool
has_path path [] = false
has_path path (p ∷ rest) = str_eq p path || has_path path rest

-- The loop of `patchFilePaths`; `seen` are the paths so far.
abbrev pub paths_loop : List String → List FilePatch → List String
paths_loop seen [] = []
paths_loop seen (f ∷ rest) = elim (str_eq f.path "" || has_path f.path seen) [
  | true ↦ paths_loop seen rest
  | false ↦ f.path ∷ paths_loop (f.path ∷ seen) rest
]

unfoldable pub patch_file_paths : List FilePatch → List String
patch_file_paths files = paths_loop [] files

-- The job is shared by pointer: a change shows in the map.
abbrev pub in_state : String → String → Option Job → GoMap Job → GoMap Job
in_state job_id state none jobs = jobs
in_state job_id state (some job) jobs = insert job_id (record job { state = state }) jobs

abbrev pub failure : String → Result Envelope → Reply
failure error (ok ack) = record { responses = ack ∷ []; error = some error }
failure error (err e) = record { responses = []; error = some (concat "build ack: " e) }

module _ {A : WorkspaceAdapter} where
  -- time.Now()
  unfoldable pub reading : Handler A ℕ
  reading world o = (next (world.clock o.reads), record o { reads = o.reads + 1 })

  -- The counter is of type int64 and counts from 0: 2 ^ 63 messages are not reached.
  unfoldable pub next_seq : Handler A ℤ
  next_seq world o = (next (pos (o.seq + 1)), record o { seq = o.seq + 1 })

  unfoldable pub new_id : String → Handler A String
  new_id kind = do now ← reading; pure (concat kind (concat "_" (decimal now)))

  -- o.threadStore.EnsureThread and o.threadStore.AppendEvent read the clock for the time, for an id
  -- and for the snapshot; `AssignJob` for the snapshot alone.
  unfoldable pub in_threads :
      {X : Type 0} → (ℕ → ℕ → ℕ → ThreadStore → ThreadStore × X) → Handler A X
  in_threads {X} call world o =
      let (s, x) =
        call (world.clock o.reads) (world.clock (o.reads + 1)) (world.clock (o.reads + 2))
          o.thread_store in
      (next x, record o { thread_store = s; reads = o.reads + 3 })

  abbrev pub append_thread_event : String → ThreadEvent → Handler A Unit
  append_thread_event thread_id e = do
    _ ← in_threads (λ now stamp saved. append_event now stamp saved thread_id e)
    pure tt

  unfoldable pub assign_thread_job : String → String → Handler A Unit
  assign_thread_job thread_id job_id world o = (
    next tt,
    record o {
      thread_store = assign_job (world.clock o.reads) thread_id job_id o.thread_store;
      reads = o.reads + 1;
    },
  )

  -- A call of the adapter.
  unfoldable pub ask : {X : Type 0} → (A.State → A.State × X) → Handler A X
  ask call world o = let (adapter, r) = call o.adapter in (next r, record o { adapter = adapter })

  -- ack, _ := protocol.NewCmdAck(...)
  unfoldable pub new_ack : Envelope → Bool → String → Handler A Envelope
  new_ack env accepted message world =
      (do
        seq ← next_seq
        now ← reading
        pure (
            or_zero
              (new_cmd_ack world.codec (unix_milli now) env.sid seq env.rid accepted message)))
        world

  -- e, _ := protocol.NewEnvelope(env.SID, o.newID(name), o.nextSeq(), kind, payload)
  unfoldable pub new_response : Envelope → String → MessageType → Payload → Handler A Envelope
  new_response env name kind payload world =
      (do
        rid ← new_id name
        seq ← next_seq
        now ← reading
        pure (or_zero (new_envelope world.codec (unix_milli now) env.sid rid seq kind payload)))
        world

  abbrev pub rid_of : String → Handler A String
  rid_of rid = if str_eq rid "" then new_id "rid" else pure rid

  -- The method ends the handler: each caller returns its result.
  unfoldable pub ack_fail : {X : Type 0} → Envelope → String → String → Handler A X
  ack_fail env message error world =
      (do
        rid ← rid_of env.rid
        seq ← next_seq
        now ← reading
        return_early (
            failure error (
              new_cmd_ack world.codec (unix_milli now)
                (if str_eq env.sid "" then "unknown" else env.sid) seq rid false message)))
        world

  -- if err != nil { return o.ackFail(env, message, err) }
  unfoldable pub or_ack_fail : {X : Type 0} → Envelope → String → Result X → Handler A X
  or_ack_fail env message (ok x) = pure x
  or_ack_fail env message (err e) = ack_fail env message e

  -- v, ok := ...; if !ok { return o.ackFail(env, message, err) }
  unfoldable pub or_missing : {X : Type 0} → Envelope → String → String → Option X → Handler A X
  or_missing env message error (some x) = pure x
  or_missing env message error none = ack_fail env message error

  unfoldable pub get_job : String → Handler A (Option Job)
  get_job job_id world o = (next (lookup job_id o.jobs), o)

  unfoldable pub put_job : String → Job → Handler A Unit
  put_job job_id job world o = (next tt, record o { jobs = insert job_id job o.jobs })

  unfoldable pub set_job_state : String → String → Handler A Unit
  set_job_state job_id state world o =
      (next tt, record o { jobs = in_state job_id state (lookup job_id o.jobs) o.jobs })

  unfoldable pub profile_of : String → Handler A (Option RunProfile)
  profile_of id world o = (next (lookup id o.profiles), o)
