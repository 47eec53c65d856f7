-- ===== src/Agent/Orchestrator/Answers.antt =====
-- What each handler answers, and what it leaves behind (orchestrator.go).
use vibe_deck.Prelude.{
  true, false, Option, none, some, [], ◌∷◌, String, str_eq, ◌≡◌, ◌≢◌, refl, inl, inr, Bool-cases,
}
use vibe_deck.Protocol.Models.{
  MessageType, prompt_submit, prompt_ack, patch_ready, patch_apply, patch_result, run_profile,
  run_result, open_location, PatchReadyPayload,
}
use vibe_deck.Protocol.Envelope.{Envelope, Result, ok, err, validate}
use vibe_deck.Protocol.Envelope.Laws.{validate_iff}
use vibe_deck.Agent.Adapter.{WorkspaceAdapter, ApplyPatchResult, RunResult}
use vibe_deck.Agent.Orchestrator.State.{Job, Orchestrator, Reply, Flow, next, early, World}
use vibe_deck.Agent.Orchestrator.Commands.{
  answer, require_prompt, patch_is_ready, handle_prompt_submit, patch_outcome, handle_patch_apply,
  run_finished, handle_run_profile, location_outcome, handle_open_location, command_of, if_valid,
  reply_of, handle_envelope,
}
use vibe_deck.GoMap.{GoMap}
use vibe_deck.Control.Profiles.{RunProfile}
use vibe_deck.Agent.ThreadStore.State.{new_thread_store}
use vibe_deck.Agent.Orchestrator.State.{new_orchestrator}
use vibe_deck.Agent.Orchestrator.Steps.{ack_fail}
use vibe_deck.Agent.Orchestrator.Replies.{
  IsReply, IsOrchestrator, Onward, IsWorld, Came, Runs, Runs-pure, Runs-then,
}
use vibe_deck.Agent.Orchestrator.StepReplies.{
  Any, reading-Runs, ensure_thread-Runs, append_thread_event-Runs, assign_thread_job-Runs, ask-Runs,
  get_job-Runs, profile_of-Runs, put_job-Runs, set_job_state-Runs, new_id-Runs, new_ack-Runs,
  new_response-Runs, ack_fail-Runs, or_ack_fail-Runs, or_missing-Runs,
}

module _ {A : WorkspaceAdapter} (world : World) (w : IsWorld world) (env : Envelope)
    (has_rid : env.rid ≢ "") where
  abbrev Replies : (Orchestrator A → Flow Reply × Orchestrator A) → Type 0
  Replies m = Runs {A = A} world.codec env.rid (IsReply world.codec env.rid) m

  ack_fail-Replies : (message error : String) → Replies (ack_fail env message error world)
  ack_fail-Replies = ack_fail-Runs world w env has_rid (IsReply world.codec env.rid)

  module _ (has_sid : env.sid ≢ "") where
    patch_is_ready-Runs :
        (prompt thread_id task_id : String) (patch : PatchReadyPayload)
        → Replies (patch_is_ready env prompt thread_id task_id patch world)
    unfolding patch_is_ready
    patch_is_ready-Runs prompt thread_id task_id patch =
        Runs-then _ _ (new_id-Runs world env.rid w.late "job") (λ job_id _.
          Runs-then _ _ (reading-Runs world env.rid w.late) (λ now l.
            Runs-then _ _ (put_job-Runs world env.rid job_id _ refl) (λ _ _.
              Runs-then _ _ (assign_thread_job-Runs world env.rid thread_id job_id) (λ _ _.
                Runs-then _ _ (append_thread_event-Runs world env.rid thread_id _) (λ _ _.
                  Runs-then _ _ (append_thread_event-Runs world env.rid thread_id _) (λ _ _.
                    Runs-then _ _ (new_ack-Runs world w env true "accepted" has_sid) (λ ack a.
                      Runs-then _ _ (new_response-Runs world w env "prompt_ack" prompt_ack _ refl)
                        (λ p h.
                          Runs-then _ _
                            (new_response-Runs world w env "patch_ready" patch_ready _ refl)
                            (λ q k.
                              Runs-pure _ _ (answer (ack ∷ p ∷ q ∷ []) none)
                                (a, (h, (k, tt))))))))))))

    require_prompt-Runs :
        (prompt : String) → Runs {A = A} world.codec env.rid Any (require_prompt env prompt world)
    unfolding require_prompt
    require_prompt-Runs prompt = elim (Bool-cases (str_eq prompt "")) [
      | inl e ↦ rw e (ack_fail-Runs world w env has_rid Any _ _)
      | inr e ↦ rw e (Runs-pure _ _ tt tt)
    ]

    handle_prompt_submit-Runs : Replies (handle_prompt_submit env world)
    unfolding handle_prompt_submit
    handle_prompt_submit-Runs = Runs-then _ _ (or_ack_fail-Runs world w env has_rid _ _) (λ p _.
        Runs-then _ _ (require_prompt-Runs p.prompt) (λ _ _.
          Runs-then _ _ (ensure_thread-Runs world env.rid p.thread_id env.sid p.prompt) (λ thread _.
            Runs-then _ _ (ask-Runs world env.rid _) (λ found _.
              Runs-then _ _ (or_ack_fail-Runs world w env has_rid _ found) (λ context _.
                Runs-then _ _ (append_thread_event-Runs world env.rid thread.id _) (λ _ _.
                  Runs-then _ _ (ask-Runs world env.rid _) (λ submitted _.
                    Runs-then _ _ (or_ack_fail-Runs world w env has_rid _ submitted) (λ task _.
                      Runs-then _ _ (ask-Runs world env.rid _) (λ got _.
                        Runs-then _ _ (or_ack_fail-Runs world w env has_rid _ got) (λ maybe _.
                          Runs-then _ _ (or_missing-Runs world w env has_rid _ _ maybe) (λ patch _.
                            patch_is_ready-Runs p.prompt thread.id task.task_id patch)))))))))))

    patch_outcome-Runs :
        (job_id : String) (job : Job) (r : Result ApplyPatchResult)
        → Replies (patch_outcome env job_id job r world)
    unfolding patch_outcome
    patch_outcome-Runs job_id job (err e) =
        Runs-then _ _ (append_thread_event-Runs world env.rid job.thread_id _) (λ _ _.
          Runs-then _ _ (new_ack-Runs world w env false e has_sid) (λ ack a.
            Runs-then _ _ (new_response-Runs world w env "patch_result" patch_result _ refl)
              (λ p h. Runs-pure _ _ (answer (ack ∷ p ∷ []) (some e)) (a, (h, tt)))))
    patch_outcome-Runs job_id job (ok result) =
        Runs-then _ _ (set_job_state-Runs world env.rid job_id "applied") (λ _ _.
          Runs-then _ _ (append_thread_event-Runs world env.rid job.thread_id _) (λ _ _.
            Runs-then _ _ (new_ack-Runs world w env true _ has_sid) (λ ack a.
              Runs-then _ _ (new_response-Runs world w env "patch_result" patch_result _ refl)
                (λ p h. Runs-pure _ _ (answer (ack ∷ p ∷ []) none) (a, (h, tt))))))

    handle_patch_apply-Runs : Replies (handle_patch_apply env world)
    unfolding handle_patch_apply
    handle_patch_apply-Runs = Runs-then _ _ (or_ack_fail-Runs world w env has_rid _ _) (λ p _.
        Runs-then _ _ (get_job-Runs world env.rid p.job_id) (λ found _.
          Runs-then _ _ (or_missing-Runs world w env has_rid _ _ found) (λ job _.
            Runs-then _ _ (append_thread_event-Runs world env.rid job.thread_id _) (λ _ _.
              Runs-then _ _ (ask-Runs world env.rid _)
                (λ result _. patch_outcome-Runs p.job_id job result)))))

    run_finished-Runs :
        (job_id profile_id : String) (job : Job) (r : RunResult)
        → Replies (run_finished env job_id profile_id job r world)
    unfolding run_finished
    run_finished-Runs job_id profile_id job r =
        Runs-then _ _ (set_job_state-Runs world env.rid job_id "completed") (λ _ _.
          Runs-then _ _ (append_thread_event-Runs world env.rid job.thread_id _) (λ _ _.
            Runs-then _ _ (new_ack-Runs world w env true _ has_sid) (λ ack a.
              Runs-then _ _ (new_response-Runs world w env "run_result" run_result _ refl)
                (λ p h. Runs-pure _ _ (answer (ack ∷ p ∷ []) none) (a, (h, tt))))))

    handle_run_profile-Runs : Replies (handle_run_profile env world)
    unfolding handle_run_profile
    handle_run_profile-Runs = Runs-then _ _ (or_ack_fail-Runs world w env has_rid _ _) (λ p _.
        Runs-then _ _ (get_job-Runs world env.rid p.job_id) (λ found _.
          Runs-then _ _ (or_missing-Runs world w env has_rid _ _ found) (λ job _.
            Runs-then _ _ (profile_of-Runs world env.rid p.profile_id) (λ known _.
              Runs-then _ _ (or_missing-Runs world w env has_rid _ _ known) (λ profile _.
                Runs-then _ _ (append_thread_event-Runs world env.rid job.thread_id _) (λ _ _.
                  Runs-then _ _ (ask-Runs world env.rid _) (λ started _.
                    Runs-then _ _ (or_ack_fail-Runs world w env has_rid _ started) (λ run _.
                      Runs-then _ _ (ask-Runs world env.rid _) (λ fetched _.
                        Runs-then _ _ (or_ack_fail-Runs world w env has_rid _ fetched) (λ maybe _.
                          Runs-then _ _ (or_missing-Runs world w env has_rid _ _ maybe) (λ result _.
                            run_finished-Runs p.job_id p.profile_id job result)))))))))))

    location_outcome-Runs : (failed : Option String) → Replies (location_outcome env failed world)
    unfolding location_outcome
    location_outcome-Runs (some e) = ack_fail-Replies _ e
    location_outcome-Runs none =
        Runs-then _ _ (new_ack-Runs world w env true _ has_sid)
          (λ ack a. Runs-pure _ _ (answer (ack ∷ []) none) (a, tt))

    handle_open_location-Runs : Replies (handle_open_location env world)
    unfolding handle_open_location
    handle_open_location-Runs =
        Runs-then _ _ (or_ack_fail-Runs world w env has_rid _ _) (λ p _.
          Runs-then _ _ (ask-Runs world env.rid _) (λ failed _. location_outcome-Runs failed))

    command_of-Runs : (kind : MessageType) → Replies (command_of env kind world)
    command_of-Runs prompt_submit = handle_prompt_submit-Runs
    command_of-Runs patch_apply = handle_patch_apply-Runs
    command_of-Runs run_profile = handle_run_profile-Runs
    command_of-Runs open_location = handle_open_location-Runs
    command_of-Runs _ = ack_fail-Replies _ _

  if_valid-Runs :
      (checked : Option String) → validate env ≡ checked → Replies (if_valid env checked world)
  if_valid-Runs (some e) h = ack_fail-Replies _ e
  if_valid-Runs none h = command_of-Runs ((validate_iff env).0 h).has_sid env.kind

  came_reply :
      (o : Orchestrator A) (r : Flow Reply × Orchestrator A)
      → Came world.codec env.rid o (IsReply world.codec env.rid) r
      → IsOrchestrator r.1 × Onward o r.1 × IsReply world.codec env.rid (reply_of r.0)
  came_reply o (next x, o') h = h
  came_reply o (early x, o') h = h

  -- From a state whose threads and jobs stand under their own ids, whatever envelope with a
  -- request id comes in, and whatever the adapter does, the orchestrator answers with an
  -- acknowledgement of that request first, accepted exactly if no error is returned, and with no
  -- other acknowledgement; threads and jobs stay under their own ids, events of threads are only
  -- added, and the sequence number does not fall. It is assumed that JSON encodes
  -- acknowledgements, and that the clock is past 1970.
  pub handle_envelope_answers :
      (o : Orchestrator A)
      → IsOrchestrator o
      → let r = handle_envelope world env o in
        IsOrchestrator r.0 × Onward o r.0 × IsReply world.codec env.rid r.1
  unfolding handle_envelope
  handle_envelope_answers o k =
      came_reply o (if_valid env (validate env) world o)
        ((if_valid-Runs (validate env) refl).came o k)

-- A new orchestrator over a new thread store.
new_orchestrator-IsOrchestrator :
    {A : WorkspaceAdapter}
    → (adapter : A.State) (profiles : Option (GoMap RunProfile))
    → IsOrchestrator (new_orchestrator A adapter profiles none)
unfolding new_orchestrator new_thread_store
new_orchestrator-IsOrchestrator adapter profiles = record {
  threads = record { unique = tt; threads = tt };
  unique = tt;
  jobs = tt;
}
