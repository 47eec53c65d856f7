-- ===== src/Agent/Orchestrator/Replies.antt =====
-- What each step of a handler leaves behind, and how steps are put together (orchestrator.go).
use vibe_deck.Prelude.{
  ℕ, ◌≤◌, Bool, true, false, Option, none, some, List, [], ◌∷◌, String, ◌≡◌, arith,
}
use vibe_deck.GoMap.{IsMap, Each}
use vibe_deck.Protocol.Models.{cmd_ack}
use vibe_deck.Protocol.Envelope.{Envelope, Codec, IsJson, ok, decode_payload}
use vibe_deck.Control.Router.{is_cmd_ack}
use vibe_deck.Agent.Adapter.{WorkspaceAdapter}
use vibe_deck.Agent.ThreadStore.Journal.{
  IsThreadStore, Extends, Extends-refl, Extends-trans, events_of,
}
use vibe_deck.Agent.Orchestrator.State.{
  Job, Orchestrator, Reply, Flow, next, early, World, then_run,
}

abbrev pub is_nil : Option String → Bool
is_nil none = true
is_nil (some e) = false

-- An acknowledgement of the request `rid`, with a verdict.
pub record IsAck (codec : Codec) (rid : String) (accepted : Bool) (e : Envelope) : Type 0 where
  pub kind : e.kind ≡ cmd_ack
  pub says :
      (message : String) × (decode_payload codec.unmarshal_cmd_ack e
        ≡ ok (record { request_rid = rid; accepted = accepted; message = message }))

abbrev pub NoAcks : List Envelope → Type 0
NoAcks [] = Unit
NoAcks (e ∷ rest) = (is_cmd_ack e.kind ≡ false) × NoAcks rest

-- The first envelope alone is an acknowledgement, and it tells whether there is an error.
abbrev pub Answers : Codec → String → Option String → List Envelope → Type 0
Answers codec rid error [] = ⊥
Answers codec rid error (ack ∷ rest) = IsAck codec rid (is_nil error) ack × NoAcks rest

abbrev pub IsReply : Codec → String → Reply → Type 0
IsReply codec rid r = Answers codec rid r.error r.responses

-- Every thread and every job stands under its own id.
pub record IsOrchestrator {A : WorkspaceAdapter} (o : Orchestrator A) : Type 0 where
  pub threads : IsThreadStore o.thread_store
  pub unique : IsMap o.jobs
  pub jobs : Each (λ (id : String) (job : Job). job.id ≡ id) o.jobs

-- From one state to a later one.
pub record Onward {A : WorkspaceAdapter} (o o' : Orchestrator A) : Type 0 where
  pub events : (id : String) → Extends (events_of id o.thread_store) (events_of id o'.thread_store)
  pub seq : o.seq ≤ o'.seq

module _ {A : WorkspaceAdapter} (codec : Codec) (rid : String) where
  -- What a run from `o` came to: the next step may rely on `P`, and a reply is one.
  abbrev pub Came : {X : Type 0} → Orchestrator A → (X → Type 0) → Flow X × Orchestrator A → Type 0
  Came o P (next x, o') = IsOrchestrator o' × Onward o o' × P x
  Came o P (early r, o') = IsOrchestrator o' × Onward o o' × IsReply codec rid r

module _ {A : WorkspaceAdapter} where
  pub Onward-refl : (o : Orchestrator A) → Onward o o
  Onward-refl o = record { events = λ id. Extends-refl _; seq = omega arith }

  pub Onward-trans : (a b c : Orchestrator A) → Onward a b → Onward b c → Onward a c
  Onward-trans a b c h k = record {
    events = λ id. Extends-trans _ _ _ (h.events id) (k.events id);
    seq = omega (arith, h.seq, k.seq);
  }

-- The world as the code relies on it: JSON, and a clock after 1970 by a millisecond at least.
pub record IsWorld (world : World) : Type 0 where
  pub json : IsJson world.codec
  pub late : (n : ℕ) → 1000000 ≤ world.clock n

module _ {A : WorkspaceAdapter} (codec : Codec) (rid : String) where
  later :
      {X : Type 0} (P : X → Type 0) (a b : Orchestrator A) (r : Flow X × Orchestrator A)
      → Onward a b
      → Came codec rid b P r
      → Came codec rid a P r
  later P a b (next x, c) ab (w, bc, q) = (w, Onward-trans a b c ab bc, q)
  later P a b (early x, c) ab (w, bc, q) = (w, Onward-trans a b c ab bc, q)

  came_then :
      {X Y : Type 0} (P : X → Type 0) (Q : Y → Type 0)
      (f : X → Orchestrator A → Flow Y × Orchestrator A) (o : Orchestrator A)
      (r : Flow X × Orchestrator A)
      → ((x : X) (o' : Orchestrator A) → P x → IsOrchestrator o' → Came codec rid o' Q (f x o'))
      → Came codec rid o P r
      → Came codec rid o Q (then_run f r)
  came_then P Q f o (early r, o') k h = h
  came_then P Q f o (next x, o') k (w, oo, p) = later Q o o' (f x o') oo (k x o' p w)

  -- Whatever well-formed state a step starts from.
  pub record Runs {X : Type 0} (P : X → Type 0) (m : Orchestrator A → Flow X × Orchestrator A)
      : Type 0 where
    pub came : (o : Orchestrator A) → IsOrchestrator o → Came codec rid o P (m o)

  pub Runs-pure : {X : Type 0} {P : X → Type 0} (x : X) → P x → Runs P (λ o. (next x, o))
  Runs-pure x p = record { came = λ o h. (h, Onward-refl o, p) }

  pub Runs-return :
      {X : Type 0} (P : X → Type 0) (r : Reply) → IsReply codec rid r → Runs P (λ o. (early r, o))
  Runs-return P r p = record { came = λ o h. (h, Onward-refl o, p) }

  pub Runs-then :
      {X Y : Type 0} {P : X → Type 0} {Q : Y → Type 0}
      {m : Orchestrator A → Flow X × Orchestrator A}
      {f : X → Orchestrator A → Flow Y × Orchestrator A}
      → Runs P m
      → ((x : X) → P x → Runs Q (f x))
      → Runs Q (λ o. then_run f (m o))
  Runs-then {P = P} {Q} {m} {f} h k = record {
    came = λ o w. came_then P Q f o (m o) (λ x o' p. (k x p).came o') (h.came o w);
  }
