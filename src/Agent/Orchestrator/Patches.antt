-- ===== src/Agent/Orchestrator/Patches.antt =====
-- A patch from the prompt to its application, where the adapter succeeds (orchestrator.go).
use Prim.Native.String.{◌++◌ as concat, len}
use text.Mathlib.TextPositions.{len-append}
use vibe_deck.Prelude.{
  ◌+◌, false, some, String, str_eq, str_eq-ne, ◌≡◌, ◌≢◌, refl, ap, arith, eq_refl, not, ◌&&◌,
  if◌then◌else◌,
}
use vibe_deck.GoMap.{lookup, lookup-insert}
use vibe_deck.Protocol.Models.{PatchReadyPayload, PromptSubmitPayload, PatchApplyPayload}
use vibe_deck.Protocol.Envelope.{Envelope, ok, decode_payload}
use vibe_deck.Agent.Adapter.{WorkspaceAdapter, ApplyPatchResult, WorkspaceContext, TaskHandle}
use vibe_deck.Agent.ThreadStore.State.{ThreadRecord}
use vibe_deck.Agent.ThreadStore.Titles.{value_from_data}
use vibe_deck.Agent.ThreadStore.Methods.{append_to, fill_event, next_state}
use vibe_deck.Text.{decimal, trim_space}
use vibe_deck.Agent.Orchestrator.Paths.{
  named, IsDistinct, has_path-patch_file_paths, patch_file_paths-IsDistinct,
}
use vibe_deck.Agent.ThreadStore.Methods.{thread_id_for_job}
use vibe_deck.Agent.Orchestrator.State.{Job, Orchestrator, World}
use vibe_deck.Agent.Orchestrator.Steps.{
  or_ack_fail, or_missing, get_job, set_job_state, ask, in_threads, new_ack, new_response, next_seq,
  reading, new_id,
}
use vibe_deck.Agent.Orchestrator.Commands.{patch_outcome, handle_patch_apply}
use vibe_deck.Agent.ThreadStore.Lookups.{
  lookup-append_event, found-ensure_thread, found-assign_job, linked-append_event,
}
use vibe_deck.Agent.Orchestrator.Replies.{IsOrchestrator}
use vibe_deck.Agent.Orchestrator.Steps.{put_job, assign_thread_job, patch_file_paths, has_path}
use vibe_deck.Agent.Orchestrator.Commands.{require_prompt, patch_is_ready, handle_prompt_submit}

module _ {A : WorkspaceAdapter} (world : World) (env : Envelope) (o : Orchestrator A)
    (p : PatchApplyPayload) (job : Job) (t : ThreadRecord) (a : A.State)
    (result : ApplyPatchResult) where
  -- If the payload decodes, its job and the job's thread are known and the adapter returns a
  -- result, the job is applied whatever the status of the result says, and the thread takes over
  -- that status, without the space around it, or "applied" for a blank one.
  pub patch_apply_lem :
      decode_payload world.codec.unmarshal_patch_apply env ≡ ok p
      → lookup p.job_id o.jobs ≡ some job
      → lookup job.thread_id o.thread_store.threads ≡ some t
      → A.apply_patch
          (record { task_id = job.task_id; mode = p.mode; selected = p.selected })
          o.adapter
        ≡ (a, ok result)
      → let o' = (handle_patch_apply env world o).1 in
        (lookup p.job_id o'.jobs ≡ some (record job { state = "applied" }))
        × (o'.adapter ≡ a)
        × (t' : ThreadRecord) × (lookup job.thread_id o'.thread_store.threads ≡ some t')
        × (t'.summary.state ≡ (
            if str_eq (trim_space result.status) "" then "applied" else trim_space result.status))
        × (t'.summary.last_event_kind ≡ "patch_applied")
  unfolding handle_patch_apply or_ack_fail or_missing get_job in_threads ask patch_outcome
      set_job_state new_ack new_response new_id next_seq reading append_to fill_event next_state
      value_from_data lookup
  patch_apply_lem decoded known thread applied =
      rw (decoded, known, applied)
        (
          rw
              (
                known,
                lookup-insert p.job_id p.job_id (record job { state = "applied" }) o.jobs,
                eq_refl p.job_id,
              )
              refl,
          refl,
          _,
          lookup-append_event _ _ _ job.thread_id _ _ _
              (lookup-append_event _ _ _ job.thread_id _ t _ thread),
          refl,
          refl,
        )

-- A job that is found under its id, with the adapter's task and each path of its patch once, but for
-- the empty one; its thread is known, shows the job and is in state "patch_ready", and the job leads to that thread.
pub record ReadyJob {A : WorkspaceAdapter} (task_id : String) (patch : PatchReadyPayload)
    (o : Orchestrator A) : Type 0 where
  pub job : Job
  pub known : lookup job.id o.jobs ≡ some job
  pub ready : job.state ≡ "patch_ready"
  pub task : job.task_id ≡ task_id
  pub paths :
      (path : String)
      → has_path path job.patch_files ≡ (not (str_eq path "") && named path patch.files)
  pub distinct : IsDistinct job.patch_files
  pub t : ThreadRecord
  pub thread : lookup job.thread_id o.thread_store.threads ≡ some t
  pub state : t.summary.state ≡ "patch_ready"
  pub current : t.summary.current_job_id ≡ job.id
  pub linked : thread_id_for_job job.id o.thread_store ≡ some job.thread_id

job_id-ne : (s : String) → str_eq (concat "job" s) "" ≡ false
job_id-ne s = str_eq-ne _ _ (λ h.
    let e : len (concat "job" s) ≡ 0 = ap len h in
    let k : len "job" ≡ 3 = refl in omega (arith, len-append "job" s))

module _ {A : WorkspaceAdapter} (world : World) (env : Envelope) where
  patch_is_ready-ReadyJob :
      (o : Orchestrator A) (prompt thread_id task_id : String) (patch : PatchReadyPayload)
      (t : ThreadRecord)
      → lookup thread_id o.thread_store.threads ≡ some t
      → ReadyJob task_id patch (patch_is_ready env prompt thread_id task_id patch world o).1
  unfolding patch_is_ready put_job in_threads assign_thread_job new_ack new_response new_id next_seq
      reading append_to fill_event next_state
  patch_is_ready-ReadyJob o prompt thread_id task_id patch t h =
      let job_id = concat "job" (concat "_" (decimal (world.clock o.reads))) in
      let ne = job_id-ne (concat "_" (decimal (world.clock o.reads))) in
      let job : Job = record {
        id = job_id;
        thread_id = thread_id;
        session_id = env.sid;
        task_id = task_id;
        prompt = prompt;
        state = "patch_ready";
        patch_files = patch_file_paths patch.files;
        created_at = world.clock (o.reads + 1);
      } in
      let (t1, e1) =
        found-assign_job (world.clock (o.reads + 1 + 1)) thread_id job_id t o.thread_store h in
      let e2 = lookup-append_event _ _ _ thread_id _ t1 _ e1 in
      record {
        job = job;
        known = rw (lookup-insert job_id job_id job o.jobs, eq_refl job_id) refl;
        ready = refl;
        task = refl;
        paths = λ path. has_path-patch_file_paths path patch.files;
        distinct = patch_file_paths-IsDistinct patch.files;
        t = _;
        thread = lookup-append_event _ _ _ thread_id _ _ _ e2;
        state = refl;
        current = rw ne refl;
        linked = linked-append_event _ _ _ thread_id _ _ _ e2 ne;
      }

  module _ (o : Orchestrator A) (p : PromptSubmitPayload) (context : WorkspaceContext)
      (task : TaskHandle) (patch : PatchReadyPayload) (a b c : A.State) where
    -- If threads and jobs stand under their own ids, the payload decodes to a prompt that is not
    -- empty, and the adapter's three calls succeed, a job is ready afterwards: it is found under
    -- its id, carries the adapter's task and each path of the patch once, but for the empty one, and
    -- leads to a thread that shows it in state "patch_ready".
    pub prompt_submit-ReadyJob :
        IsOrchestrator o
        → decode_payload world.codec.unmarshal_prompt_submit env ≡ ok p
        → p.prompt ≢ ""
        → A.get_context (record { options = p.context_options }) o.adapter ≡ (a, ok context)
        → A.submit_task (record { prompt = p.prompt; template = p.template; context = context }) a
          ≡ (b, ok task)
        → A.get_patch task.task_id b ≡ (c, ok (some patch))
        → ReadyJob task.task_id patch (handle_prompt_submit env world o).1
    unfolding handle_prompt_submit require_prompt or_ack_fail or_missing in_threads ask
    prompt_submit-ReadyJob w decoded given got submitted ready =
        let clock = world.clock in
        let n = o.reads in
        let (t0, e0) =
          found-ensure_thread (clock n) (clock (n + 1)) (clock (n + 2)) p.thread_id env.sid p.prompt
            o.thread_store w.threads in
        rw (decoded, str_eq-ne p.prompt "" given, got, submitted, ready)
          (patch_is_ready-ReadyJob _ p.prompt _ task.task_id patch _
            (lookup-append_event _ _ _ _ _ t0 _ e0))
