-- ===== src/Agent/ThreadStore/State.antt =====
-- thread_store.go: the structs and the constructor.
-- A `map[string]any` of event data holds the kinds of values that the code puts into it. The file of
-- the store and its `.tmp` sibling are part of the state, as texts; what the file system does with the
-- next writes is a list of outcomes, and json.MarshalIndent is a function that the state carries.
use vibe_deck.Prelude.{ℕ, ℤ, Option, none, List, [], String}
use vibe_deck.GoMap.{GoMap}
use vibe_deck.Protocol.Envelope.{Result, err}
use vibe_deck.Protocol.Models.{FilePatch, ParsedError}

pub data Value : Type 0 where
  text : String → Value
  number : ℤ → Value
  texts : List String → Value
  files : List FilePatch → Value
  errors : List ParsedError → Value

pub record ThreadSummary : Type 0 where
  pub id : String
  pub session_id : String
  pub title : String
  pub state : String
  pub current_job_id : String
  pub last_event_kind : String
  pub last_event_text : String
  pub updated_at : ℤ

pub record ThreadEvent : Type 0 where
  pub id : String
  pub thread_id : String
  pub job_id : String
  pub kind : String
  pub role : String
  pub title : String
  pub body : String
  pub data_of : GoMap Value
  pub at : ℤ

pub record ThreadDetail : Type 0 where
  pub thread : ThreadSummary
  pub events : List ThreadEvent

pub record ThreadRecord : Type 0 where
  pub summary : ThreadSummary
  pub events : List ThreadEvent

pub record ThreadStoreSnapshot : Type 0 where
  pub version : ℕ
  pub saved_at : ℤ
  pub threads : List ThreadDetail

-- What becomes of a write: all goes well; the directory or the `.tmp` file cannot be written; or
-- `.tmp` is written and the file removed, but the renaming fails.
pub data Outcome : Type 0 where
  written not_written not_renamed : Outcome

pub record Disk : Type 0 where
  pub file : Option String
  pub tmp : Option String
  pub outcomes : List Outcome
  pub marshal : ThreadStoreSnapshot → Result String

pub record ThreadStore : Type 0 where
  pub threads : GoMap ThreadRecord
  pub job_to_thread : GoMap String
  pub persistence_path : String
  pub disk : Disk

-- A store without a path writes no file.
abbrev pub no_disk : Disk
no_disk = record { file = none; tmp = none; outcomes = []; marshal = λ s. err "no file" }

unfoldable pub new_thread_store : ThreadStore
new_thread_store = record {
  threads = [];
  job_to_thread = [];
  persistence_path = "";
  disk = no_disk;
}
