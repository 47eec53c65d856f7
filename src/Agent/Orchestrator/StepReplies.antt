-- ===== src/Agent/Orchestrator/StepReplies.antt =====
-- What each step of the handlers leaves behind (orchestrator.go).
use vibe_deck.Prelude.{
  ℕ, ◌+◌, ◌≤◌, ℤ, pos, leb_ℤ, ltb_ℤ, Bool, false, Option, none, some, String, str_eq, str_eq-ne,
  if◌then◌else◌, ◌≡◌, ◌≢◌, refl, ap, ◌∙◌, arith, eq_iff, inl, inr, Bool-cases,
}
use vibe_deck.GoMap.{lookup, Each-lookup, Each-insert, insert-IsMap}
use vibe_deck.Protocol.Models.{MessageType, Payload}
use vibe_deck.Protocol.Envelope.{Envelope, Codec, IsJson, Result, ok, err, new_cmd_ack}
use vibe_deck.Protocol.Envelope.Laws.{new_cmd_ack_round_trip, new_envelope-IsComplete}
use vibe_deck.Control.Router.{is_cmd_ack}
use vibe_deck.Agent.Adapter.{WorkspaceAdapter}
use vibe_deck.Agent.ThreadStore.State.{ThreadStore, ThreadEvent}
use vibe_deck.Agent.ThreadStore.Disk.{unix_milli}
use vibe_deck.Agent.ThreadStore.Methods.{ensure_thread}
use vibe_deck.Agent.ThreadStore.Journal.{
  Call, call, ensure, append, assign, Extends-refl, call-IsThreadStore, call-Extends,
}
use vibe_deck.Agent.Orchestrator.State.{Job, Orchestrator, World}
use vibe_deck.Agent.Orchestrator.Steps.{
  or_zero, failure, in_state, reading, next_seq, new_id, in_threads, append_thread_event,
  assign_thread_job, ask, new_ack, new_response, ack_fail, or_ack_fail, or_missing, get_job,
  put_job, set_job_state, profile_of,
}
use vibe_deck.Agent.Orchestrator.Replies.{
  IsAck, IsOrchestrator, Onward-refl, IsWorld, Runs, Runs-pure, Runs-return, Runs-then,
}

-- Nothing is known of the value.
abbrev pub Any : {X : Type 0} → X → Type 0
Any x = Unit

module _ {A : WorkspaceAdapter} (world : World) (rid : String) where
  pub reading-Runs :
      ((n : ℕ) → 1000000 ≤ world.clock n)
      → Runs {A = A} world.codec rid (λ (t : ℕ). 1000000 ≤ t) (reading world)
  unfolding reading
  reading-Runs late = record {
    came = λ o w. (
      record { threads = w.threads; unique = w.unique; jobs = w.jobs },
      record { events = λ id. Extends-refl _; seq = omega arith },
      late o.reads,
    );
  }

  pub next_seq-Runs :
      Runs {A = A} world.codec rid (λ (z : ℤ). ltb_ℤ z (pos 0) ≡ false) (next_seq world)
  unfolding next_seq
  next_seq-Runs = record {
    came = λ o w. (
      record { threads = w.threads; unique = w.unique; jobs = w.jobs },
      record { events = λ id. Extends-refl _; seq = omega arith },
      ground arith,
    );
  }

  -- A call that makes of the thread store what a `Call` makes of it.
  in_threads-Runs :
      {X : Type 0} (f : ℕ → ℕ → ℕ → ThreadStore → ThreadStore × X) (c : ℕ → ℕ → ℕ → Call)
      → ((x y z : ℕ) (s : ThreadStore) → (f x y z s).0 ≡ call (c x y z) s)
      → Runs {A = A} world.codec rid Any (in_threads f world)
  unfolding in_threads
  in_threads-Runs f c same = record {
    came = λ o w.
        let e =
          same (world.clock o.reads) (world.clock (o.reads + 1)) (world.clock (o.reads + 2))
            o.thread_store in
        (
          record {
            threads = rw e (call-IsThreadStore _ o.thread_store w.threads);
            unique = w.unique;
            jobs = w.jobs;
          },
          record { events = λ id. rw e (call-Extends _ o.thread_store id); seq = omega arith },
          tt,
        );
  }

  pub ensure_thread-Runs :
      (thread_id session_id title : String)
      → Runs {A = A} world.codec rid Any (
          in_threads
            (λ now stamp saved. ensure_thread now stamp saved thread_id session_id title)
            world)
  ensure_thread-Runs thread_id session_id title =
      in_threads-Runs _ (λ x y z. ensure x y z thread_id session_id title) (λ x y z s. refl)

  pub append_thread_event-Runs :
      (thread_id : String) (e : ThreadEvent)
      → Runs {A = A} world.codec rid Any (append_thread_event thread_id e world)
  append_thread_event-Runs thread_id e =
      Runs-then _ _ (in_threads-Runs _ (λ x y z. append x y z thread_id e) (λ x y z s. refl))
        (λ x p. Runs-pure _ _ tt tt)

  pub assign_thread_job-Runs :
      (thread_id job_id : String)
      → Runs {A = A} world.codec rid Any (assign_thread_job thread_id job_id world)
  unfolding assign_thread_job
  assign_thread_job-Runs thread_id job_id = record {
    came = λ o w.
        let c = assign (world.clock o.reads) thread_id job_id in
        (
          record {
            threads = call-IsThreadStore c o.thread_store w.threads;
            unique = w.unique;
            jobs = w.jobs;
          },
          record { events = λ id. call-Extends c o.thread_store id; seq = omega arith },
          tt,
        );
  }

  pub ask-Runs :
      {X : Type 0} (f : A.State → A.State × X) → Runs {A = A} world.codec rid Any (ask f world)
  unfolding ask
  ask-Runs f = record {
    came = λ o w. (
      record { threads = w.threads; unique = w.unique; jobs = w.jobs },
      record { events = λ id. Extends-refl _; seq = omega arith },
      tt,
    );
  }

  pub get_job-Runs : (id : String) → Runs {A = A} world.codec rid Any (get_job id world)
  unfolding get_job
  get_job-Runs id = record { came = λ o w. (w, Onward-refl o, tt) }

  pub profile_of-Runs : (id : String) → Runs {A = A} world.codec rid Any (profile_of id world)
  unfolding profile_of
  profile_of-Runs id = record { came = λ o w. (w, Onward-refl o, tt) }

  pub put_job-Runs :
      (id : String) (job : Job)
      → job.id ≡ id
      → Runs {A = A} world.codec rid Any (put_job id job world)
  unfolding put_job
  put_job-Runs id job e = record {
    came = λ o w. (
      record {
        threads = w.threads;
        unique = insert-IsMap id job o.jobs w.unique;
        jobs = Each-insert _ id job o.jobs e w.jobs;
      },
      record { events = λ i. Extends-refl _; seq = omega arith },
      tt,
    );
  }

  pub set_job_state-Runs :
      (id state : String) → Runs {A = A} world.codec rid Any (set_job_state id state world)
  unfolding set_job_state
  set_job_state-Runs id state = record {
    came = λ o w. (
      keep o w (lookup id o.jobs) refl,
      record { events = λ i. Extends-refl _; seq = omega arith },
      tt,
    );
  }
    where
      keep :
          (o : Orchestrator A)
          → IsOrchestrator o
          → (found : Option Job) → lookup id o.jobs ≡ found
          → IsOrchestrator (record o { jobs = in_state id state found o.jobs })
      keep o w none e = record { threads = w.threads; unique = w.unique; jobs = w.jobs }
      keep o w (some job) e = record {
        threads = w.threads;
        unique = insert-IsMap id _ o.jobs w.unique;
        jobs = Each-insert _ id _ o.jobs (Each-lookup _ id job o.jobs w.jobs e) w.jobs;
      }

  pub new_id-Runs :
      ((n : ℕ) → 1000000 ≤ world.clock n)
      → (kind : String) → Runs {A = A} world.codec rid Any (new_id kind world)
  unfolding new_id
  new_id-Runs late kind = Runs-then _ _ (reading-Runs late) (λ x p. Runs-pure _ _ _ tt)

ms_positive : (t : ℕ) → 1000000 ≤ t → leb_ℤ (unix_milli t) (pos 0) ≡ false
ms_positive t h = ground arith

or_zero-response :
    (kind : MessageType) (r : Result Envelope)
    → is_cmd_ack kind ≡ false
    → ((e : Envelope) → r ≡ ok e → e.kind ≡ kind)
    → is_cmd_ack (or_zero r).kind ≡ false
or_zero-response kind (err e) h k = refl
or_zero-response kind (ok e) h k = ap is_cmd_ack (k e refl) ∙ h

IsAck-new_cmd_ack :
    (codec : Codec) (sid rid : String) (seq : ℤ) (now : ℕ) (accepted : Bool) (message : String)
    → IsJson codec
    → sid ≢ ""
    → ltb_ℤ seq (pos 0) ≡ false
    → 1000000 ≤ now
    → (e : Envelope) × (new_cmd_ack codec (unix_milli now) sid seq rid accepted message ≡ ok e)
      × IsAck codec rid accepted e
IsAck-new_cmd_ack codec sid rid seq now accepted message json h k l =
    let (e, made, kind, says) =
      new_cmd_ack_round_trip codec json (unix_milli now) sid seq rid accepted message h k
        (ms_positive now l) in
    (e, made, record { kind = kind; says = (message, says) })

known_sid-ne : (sid : String) → (if str_eq sid "" then "unknown" else sid) ≢ ""
known_sid-ne sid h = elim (Bool-cases (str_eq sid "")) [
  | inl e ↦ ground (arith, eq_iff "unknown" "")
  | inr e ↦ ground (arith, eq_iff sid "")
]

module _ {A : WorkspaceAdapter} (world : World) (w : IsWorld world) (env : Envelope) where
  pub new_ack-Runs :
      (accepted : Bool) (message : String)
      → env.sid ≢ ""
      → Runs {A = A} world.codec env.rid
          (IsAck world.codec env.rid accepted)
          (new_ack env accepted message world)
  unfolding new_ack
  new_ack-Runs accepted message has_sid = Runs-then _ _ (next_seq-Runs world env.rid) (λ seq s.
      Runs-then _ _ (reading-Runs world env.rid w.late) (λ now l.
        let (e, made, is) =
          IsAck-new_cmd_ack world.codec env.sid env.rid seq now accepted message w.json has_sid s
            l in
        Runs-pure _ _ _ (rw made is)))

  pub new_response-Runs :
      (name : String) (kind : MessageType) (p : Payload)
      → is_cmd_ack kind ≡ false
      → Runs {A = A} world.codec env.rid
          (λ (e : Envelope). is_cmd_ack e.kind ≡ false)
          (new_response env name kind p world)
  unfolding new_response
  new_response-Runs name kind p h = Runs-then _ _ (new_id-Runs world env.rid w.late name) (λ rid _.
      Runs-then _ _ (next_seq-Runs world env.rid) (λ seq s.
        Runs-then _ _ (reading-Runs world env.rid w.late) (λ now l. Runs-pure _ _ _ (
          or_zero-response kind _ h (λ e made.
            (new_envelope-IsComplete world.codec (unix_milli now) env.sid rid seq kind p
              made).4)))))

  module _ (has_rid : env.rid ≢ "") where
    pub ack_fail-Runs :
        {X : Type 0} (P : X → Type 0) (message error : String)
        → Runs {A = A} world.codec env.rid P (ack_fail env message error world)
    unfolding ack_fail
    ack_fail-Runs P message error = rw (str_eq-ne env.rid "" has_rid) (
        Runs-then _ _ {P = λ (r : String). r ≡ env.rid} (Runs-pure _ _ env.rid refl) (λ rid r.
          Runs-then _ _ (next_seq-Runs world env.rid) (λ seq s.
            Runs-then _ _ (reading-Runs world env.rid w.late) (λ now l.
              let sid = if str_eq env.sid "" then "unknown" else env.sid in
              let (e, made, is) =
                IsAck-new_cmd_ack world.codec sid env.rid seq now false message w.json
                  (known_sid-ne env.sid) s l in
              Runs-return _ _ P
                (failure error (new_cmd_ack world.codec (unix_milli now) sid seq rid false message))
                (rw (r, made) (is, tt))))))

    pub or_ack_fail-Runs :
        {X : Type 0} (message : String) (r : Result X)
        → Runs {A = A} world.codec env.rid Any (or_ack_fail env message r world)
    unfolding or_ack_fail
    or_ack_fail-Runs message (ok x) = Runs-pure _ _ x tt
    or_ack_fail-Runs message (err e) = ack_fail-Runs Any message e

    pub or_missing-Runs :
        {X : Type 0} (message error : String) (r : Option X)
        → Runs {A = A} world.codec env.rid Any (or_missing env message error r world)
    unfolding or_missing
    or_missing-Runs message error (some x) = Runs-pure _ _ x tt
    or_missing-Runs message error none = ack_fail-Runs Any message error
