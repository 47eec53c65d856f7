-- ===== src/Agent/Adapter.antt =====
-- internal/agent/types.go and adapter_runtime_info.go: what the orchestrator asks of a workspace
-- adapter. The interface is a record of operations over a state of the adapter's own; a nil result is
-- `none`. A deadline of the `context` shows as an error of the operation.
pub mod Mock
use vibe_deck.Prelude.{Bool, true, false, Option, none, some, List, [], ℤ, String}
use vibe_deck.Protocol.Models.{ContextOptions, PatchReadyPayload, SelectedHunk, ParsedError}
use vibe_deck.Protocol.Envelope.{Result}

pub record AdapterCapabilities : Type 0 where
  pub supports_partial_apply : Bool
  pub supports_structured_patch : Bool
  pub supports_context_selection : Bool
  pub supports_artifacts : Bool
  pub supports_open_location : Bool

pub record ContextRequest : Type 0 where
  pub options : ContextOptions

pub record WorkspaceContext : Type 0 where
  pub active_file_path : String
  pub selection : String
  pub latest_terminal_error : String
  pub changed_files : List String
  pub last_run_profile : String
  pub last_run_status : String

pub record SubmitTaskInput : Type 0 where
  pub prompt : String
  pub template : String
  pub context : WorkspaceContext

pub record TaskHandle : Type 0 where
  pub task_id : String

pub record ApplyPatchInput : Type 0 where
  pub task_id : String
  pub mode : String
  pub selected : List SelectedHunk

pub record ApplyPatchResult : Type 0 where
  pub status : String
  pub message : String

pub record RunProfileInput : Type 0 where
  pub task_id : String
  pub job_id : String
  pub profile_id : String
  pub command : String

pub record RunHandle : Type 0 where
  pub run_id : String

pub record RunResult : Type 0 where
  pub run_id : String
  pub profile_id : String
  pub status : String
  pub summary : String
  pub top_errors : List ParsedError
  pub excerpt : String
  pub output : String
  pub changed_files : List String

pub record OpenLocationInput : Type 0 where
  pub path : String
  pub line : ℤ
  pub column : ℤ

-- The error of `open_location` alone is an `Option String`.
pub record WorkspaceAdapter : Type 1 where
  pub State : Type 0
  pub name : State → String
  pub capabilities : State → AdapterCapabilities
  pub get_context : ContextRequest → State → State × Result WorkspaceContext
  pub submit_task : SubmitTaskInput → State → State × Result TaskHandle
  pub get_patch : String → State → State × Result (Option PatchReadyPayload)
  pub apply_patch : ApplyPatchInput → State → State × Result ApplyPatchResult
  pub run_profile : RunProfileInput → State → State × Result RunHandle
  pub get_run_result : String → State → State × Result (Option RunResult)
  pub open_location : OpenLocationInput → State → State × Option String

pub record AdapterRuntimeInfo : Type 0 where
  pub name : String
  pub mode : String
  pub ready : Bool
  pub capabilities : AdapterCapabilities
  pub workspace_root : String
  pub binary : String
  pub binary_path : String
  pub bridge_address : String
  pub temp_root : String
  pub prompt_timeout : String
  pub run_timeout : String
  pub notes : List String

abbrev pub no_capabilities : AdapterCapabilities
no_capabilities = record {
  supports_partial_apply = false;
  supports_structured_patch = false;
  supports_context_selection = false;
  supports_artifacts = false;
  supports_open_location = false;
}

abbrev pub no_runtime_info : AdapterRuntimeInfo
no_runtime_info = record {
  name = "";
  mode = "";
  ready = false;
  capabilities = no_capabilities;
  workspace_root = "";
  binary = "";
  binary_path = "";
  bridge_address = "";
  temp_root = "";
  prompt_timeout = "";
  run_timeout = "";
  notes = [];
}

-- A nil adapter is `none`.
unfoldable pub basic_adapter_runtime_info :
    (A : WorkspaceAdapter) → Option A.State → AdapterRuntimeInfo
basic_adapter_runtime_info A none = no_runtime_info
basic_adapter_runtime_info A (some a) = record no_runtime_info {
  name = A.name a;
  ready = true;
  capabilities = A.capabilities a;
}
