-- ===== src/Agent/Orchestrator/State.antt =====
-- orchestrator.go: the structs, and the steps that the handlers are made of.
-- A handler runs over the orchestrator, whose adapter is the state of any workspace adapter, and may
-- end early with its reply. Each reading of the clock is the next of a sequence `clock`, in
-- nanoseconds. A handler runs here without another one in between.
use vibe_deck.Prelude.{ℕ, Option, none, some, List, [], String}
use vibe_deck.GoMap.{GoMap}
use vibe_deck.Protocol.Envelope.{Envelope, Codec}
use vibe_deck.Control.Profiles.{RunProfile, default_run_profiles}
use vibe_deck.Agent.Adapter.{WorkspaceAdapter}
use vibe_deck.Agent.ThreadStore.State.{ThreadStore, new_thread_store}

pub record Job : Type 0 where
  pub id : String
  pub thread_id : String
  pub session_id : String
  pub task_id : String
  pub prompt : String
  pub state : String
  pub patch_files : List String
  pub created_at : ℕ

-- `reads` counts the readings of the clock so far.
pub record Orchestrator (A : WorkspaceAdapter) : Type 0 where
  pub adapter : A.State
  pub profiles : GoMap RunProfile
  pub thread_store : ThreadStore
  pub jobs : GoMap Job
  pub seq : ℕ
  pub reads : ℕ

abbrev pub or_default : Option (GoMap RunProfile) → GoMap RunProfile
or_default none = default_run_profiles
or_default (some profiles) = profiles

abbrev pub or_new : Option ThreadStore → ThreadStore
or_new none = new_thread_store
or_new (some s) = s

unfoldable pub new_orchestrator :
    (A : WorkspaceAdapter)
    → A.State
    → Option (GoMap RunProfile)
    → Option ThreadStore
    → Orchestrator A
new_orchestrator A adapter profiles thread_store = record {
  adapter = adapter;
  profiles = or_default profiles;
  thread_store = or_new thread_store;
  jobs = [];
  seq = 0;
  reads = 0;
}

-- What a handler returns: envelopes, and an error unless it is nil.
pub record Reply : Type 0 where
  pub responses : List Envelope
  pub error : Option String

pub data Flow (X : Type 0) : Type 0 where
  next : X → Flow X
  early : Reply → Flow X

-- What the code finds around it.
pub record World : Type 0 where
  pub codec : Codec
  pub clock : ℕ → ℕ

abbrev pub Handler : WorkspaceAdapter → Type 0 → Type 0
Handler A X = World → Orchestrator A → Flow X × Orchestrator A

abbrev pub pure : {A : WorkspaceAdapter} {X : Type 0} → X → Handler A X
pure x world o = (next x, o)

abbrev pub return_early : {A : WorkspaceAdapter} {X : Type 0} → Reply → Handler A X
return_early r world o = (early r, o)

abbrev pub then_run :
    {A : WorkspaceAdapter} {X Y : Type 0}
    → (X → Orchestrator A → Flow Y × Orchestrator A)
    → Flow X × Orchestrator A
    → Flow Y × Orchestrator A
then_run f (next x, o) = f x o
then_run f (early r, o) = (early r, o)

infixl 5 ◌>>=◌ ◌>>◌
abbrev pub ◌>>=◌ :
    {A : WorkspaceAdapter} {X Y : Type 0} → Handler A X → (X → Handler A Y) → Handler A Y
◌>>=◌ m f world o = then_run (λ x o'. f x world o') (m world o)

abbrev pub ◌>>◌ : {A : WorkspaceAdapter} {X Y : Type 0} → Handler A X → Handler A Y → Handler A Y
m >> k = m >>= λ _. k
