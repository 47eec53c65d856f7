-- ===== src/Agent/Orchestrator/Commands.antt =====
-- orchestrator.go: the handlers of the commands. Each string for a person is the source's.
use Prim.Native.String.{◌++◌ as concat}
use vibe_deck.Prelude.{
  ℤ, pos, true, false, Option, none, some, List, [], ◌∷◌, String, str_eq, if◌then◌else◌, length,
}
use vibe_deck.Protocol.Models.{
  MessageType, prompt_submit, prompt_ack, patch_ready, patch_apply, patch_result, run_profile,
  run_result, open_location, of_prompt_ack, of_patch_ready, of_patch_result, of_run_result,
  PatchReadyPayload,
}
use vibe_deck.Protocol.Envelope.{Envelope, Result, ok, err, validate, decode_payload}
use vibe_deck.Agent.Adapter.{WorkspaceAdapter, ApplyPatchResult, RunResult}
use vibe_deck.Agent.ThreadStore.State.{text, number, texts, files, errors}
use vibe_deck.Agent.ThreadStore.Titles.{first_non_empty_text}
use vibe_deck.Agent.ThreadStore.Methods.{ensure_thread}
use vibe_deck.Agent.Orchestrator.State.{
  Job, Orchestrator, Reply, Flow, next, early, World, Handler, pure, ◌>>=◌, ◌>>◌,
}
use vibe_deck.Agent.Orchestrator.Steps.{
  event, patch_file_paths, reading, new_id, in_threads, append_thread_event, assign_thread_job, ask,
  new_ack, new_response, ack_fail, or_ack_fail, or_missing, get_job, put_job, set_job_state,
  profile_of,
}

abbrev pub answer : List Envelope → Option String → Reply
answer responses error = record { responses = responses; error = error }

abbrev pub count : {X : Type 0} → List X → ℤ
count xs = pos (length xs)

-- The run's own changed files, or the patch's when it names none.
abbrev pub changed_or : List String → List String → List String
changed_or [] patch_files = patch_files
changed_or (f ∷ rest) patch_files = f ∷ rest

abbrev pub reply_of : Flow Reply → Reply
reply_of (next r) = r
reply_of (early r) = r

module _ {A : WorkspaceAdapter} where
  unfoldable pub require_prompt : Envelope → String → Handler A Unit
  require_prompt env prompt =
      if str_eq prompt "" then ack_fail env "prompt is required" "prompt is required" else pure tt

  -- From the answer of `GetPatch` on.
  unfoldable pub patch_is_ready :
      Envelope → String → String → String → PatchReadyPayload → Handler A Reply
  patch_is_ready env prompt thread_id task_id patch = do
    job_id ← new_id "job"
    now ← reading
    put_job job_id (record {
      id = job_id;
      thread_id = thread_id;
      session_id = env.sid;
      task_id = task_id;
      prompt = prompt;
      state = "patch_ready";
      patch_files = patch_file_paths patch.files;
      created_at = now;
    })
    assign_thread_job thread_id job_id
    append_thread_event thread_id (
        event job_id "prompt_accepted" "system" "작업 시작" "프롬프트를 받아 패치를 생성합니다."
          (("taskId", text task_id) ∷ ("message", text "task started") ∷ []))
    append_thread_event thread_id (
        event job_id "patch_ready" "assistant" "패치 준비 완료" patch.summary (
          ("jobId", text job_id)
          ∷ ("summary", text patch.summary)
          ∷ ("fileCount", number (count patch.files))
          ∷ ("files", files patch.files)
          ∷ []))
    ack ← new_ack env true "accepted"
    prompt_response ← new_response env "prompt_ack" prompt_ack (
        of_prompt_ack (record {
          thread_id = thread_id;
          job_id = job_id;
          accepted = true;
          message = "task started";
        }))
    patch_response ←
        new_response env "patch_ready" patch_ready
          (of_patch_ready (record patch { job_id = job_id }))
    pure (answer (ack ∷ prompt_response ∷ patch_response ∷ []) none)

  unfoldable pub handle_prompt_submit : Envelope → Handler A Reply
  handle_prompt_submit env world =
      (do
        p ←
            or_ack_fail env "invalid prompt payload"
              (decode_payload world.codec.unmarshal_prompt_submit env)
        require_prompt env p.prompt
        thread ←
            in_threads
              (λ now stamp saved. ensure_thread now stamp saved p.thread_id env.sid p.prompt)
        found ← ask (A.get_context (record { options = p.context_options }))
        context ← or_ack_fail env "adapter get context failed" found
        append_thread_event thread.id (
            event "" "prompt_submitted" "user" "프롬프트 제출" p.prompt (
              ("template", text p.template)
              ∷ ("activeFilePath", text context.active_file_path)
              ∷ ("selection", text context.selection)
              ∷ ("changedFiles", texts context.changed_files)
              ∷ []))
        submitted ←
            ask (
              A.submit_task
                (record { prompt = p.prompt; template = p.template; context = context }))
        task ← or_ack_fail env "adapter submit task failed" submitted
        got ← ask (A.get_patch task.task_id)
        maybe ← or_ack_fail env "adapter get patch failed" got
        patch ← or_missing env "patch is not ready" "patch is nil" maybe
        patch_is_ready env p.prompt thread.id task.task_id patch)
        world

  unfoldable pub patch_outcome : Envelope → String → Job → Result ApplyPatchResult → Handler A Reply
  patch_outcome env job_id job (err e) = do
    append_thread_event job.thread_id (
        event job.id "patch_applied" "system" "패치 적용 실패" e
          (("status", text "failed") ∷ ("message", text e) ∷ []))
    ack ← new_ack env false e
    response ←
        new_response env "patch_result" patch_result
          (of_patch_result (record { job_id = job_id; status = "failed"; message = e }))
    pure (answer (ack ∷ response ∷ []) (some e))
  patch_outcome env job_id job (ok result) = do
    set_job_state job_id "applied"
    append_thread_event job.thread_id (
        event job.id "patch_applied" "system" "패치 적용 결과" result.message
          (("status", text result.status) ∷ ("message", text result.message) ∷ []))
    ack ← new_ack env true "patch apply queued"
    response ← new_response env "patch_result" patch_result (
        of_patch_result
          (record { job_id = job_id; status = result.status; message = result.message }))
    pure (answer (ack ∷ response ∷ []) none)

  unfoldable pub handle_patch_apply : Envelope → Handler A Reply
  handle_patch_apply env world =
      (do
        p ←
            or_ack_fail env "invalid patch apply payload"
              (decode_payload world.codec.unmarshal_patch_apply env)
        found ← get_job p.job_id
        job ← or_missing env "job not found" (concat "job " (concat p.job_id " not found")) found
        append_thread_event job.thread_id (
            event job.id "patch_apply_requested" "user" "패치 적용 요청" (concat "mode=" p.mode)
              (("mode", text p.mode) ∷ ("selectedCount", number (count p.selected)) ∷ []))
        result ←
            ask (
              A.apply_patch
                (record { task_id = job.task_id; mode = p.mode; selected = p.selected }))
        patch_outcome env p.job_id job result)
        world

  -- From the answer of `GetRunResult` on.
  unfoldable pub run_finished : Envelope → String → String → Job → RunResult → Handler A Reply
  run_finished env job_id profile_id job r = do
    let changed_files = changed_or r.changed_files job.patch_files
    set_job_state job_id "completed"
    append_thread_event job.thread_id (
        event job.id "run_finished" "system" "실행 결과"
          (first_non_empty_text (r.summary ∷ r.excerpt ∷ []))
          (("profileId", text profile_id)
            ∷ ("status", text r.status)
            ∷ ("summary", text r.summary)
            ∷ ("excerpt", text r.excerpt)
            ∷ ("output", text r.output)
            ∷ ("topErrors", errors r.top_errors)
            ∷ ("changedFiles", texts changed_files)
            ∷ []))
    ack ← new_ack env true "run started"
    response ← new_response env "run_result" run_result (
        of_run_result (record {
          job_id = job_id;
          profile_id = r.profile_id;
          status = r.status;
          summary = r.summary;
          top_errors = r.top_errors;
          excerpt = r.excerpt;
          output = r.output;
          changed_files = changed_files;
        }))
    pure (answer (ack ∷ response ∷ []) none)

  unfoldable pub handle_run_profile : Envelope → Handler A Reply
  handle_run_profile env world =
      (do
        p ←
            or_ack_fail env "invalid run profile payload"
              (decode_payload world.codec.unmarshal_run_profile env)
        found ← get_job p.job_id
        job ← or_missing env "job not found" (concat "job " (concat p.job_id " not found")) found
        known ← profile_of p.profile_id
        profile ←
            or_missing env "unknown run profile"
              (concat "profile " (concat p.profile_id " not found")) known
        append_thread_event job.thread_id (
            event job.id "run_requested" "user" "실행 요청"
              (first_non_empty_text (profile.label ∷ p.profile_id ∷ []))
              (("profileId", text p.profile_id)
                ∷ ("label", text profile.label)
                ∷ ("command", text profile.command)
                ∷ []))
        started ← ask (
            A.run_profile (record {
              task_id = job.task_id;
              job_id = p.job_id;
              profile_id = p.profile_id;
              command = profile.command;
            }))
        run ← or_ack_fail env "run profile execution failed" started
        fetched ← ask (A.get_run_result run.run_id)
        maybe ← or_ack_fail env "failed to fetch run result" fetched
        result ← or_missing env "run result is empty" "run result is nil" maybe
        run_finished env p.job_id p.profile_id job result)
        world

  unfoldable pub location_outcome : Envelope → Option String → Handler A Reply
  location_outcome env (some e) = ack_fail env "open location failed" e
  location_outcome env none = do
    ack ← new_ack env true "location opened"
    pure (answer (ack ∷ []) none)

  unfoldable pub handle_open_location : Envelope → Handler A Reply
  handle_open_location env world =
      (do
        p ←
            or_ack_fail env "invalid open location payload"
              (decode_payload world.codec.unmarshal_open_location env)
        failed ← ask (A.open_location (record { path = p.path; line = p.line; column = p.column }))
        location_outcome env failed)
        world

  abbrev pub command_of : Envelope → MessageType → Handler A Reply
  command_of env prompt_submit = handle_prompt_submit env
  command_of env patch_apply = handle_patch_apply env
  command_of env run_profile = handle_run_profile env
  command_of env open_location = handle_open_location env
  command_of env _ = ack_fail env "unsupported message type" "unsupported message type"

  abbrev pub if_valid : Envelope → Option String → Handler A Reply
  if_valid env (some e) = ack_fail env (concat "invalid envelope: " e) e
  if_valid env none = command_of env env.kind

  unfoldable pub handle_envelope : World → Envelope → Orchestrator A → Orchestrator A × Reply
  handle_envelope world env o =
      let (flow, o') = if_valid env (validate env) world o in (o', reply_of flow)
