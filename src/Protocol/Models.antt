-- ===== src/Protocol/Models.antt =====
-- message_types.go, models.go and payloads.go: the message types and the payload structs.
-- A `MessageType` of Go is any string: `other s` stands for a string that is no constant, so
-- `other ""` is the empty type. The JSON tags are the codec's concern.
use vibe_deck.Prelude.{ℤ, Bool, List, String}

pub data MessageType : Type 0 where
  prompt_submit prompt_ack : MessageType
  patch_ready patch_apply patch_result : MessageType
  run_profile run_result : MessageType
  open_location : MessageType
  term term_ack term_summary : MessageType
  signal_offer signal_answer signal_ice signal_ready : MessageType
  cmd_ack : MessageType
  other : String → MessageType

-- string(env.Type)
unfoldable pub type_name : MessageType → String
type_name prompt_submit = "PROMPT_SUBMIT"
type_name prompt_ack = "PROMPT_ACK"
type_name patch_ready = "PATCH_READY"
type_name patch_apply = "PATCH_APPLY"
type_name patch_result = "PATCH_RESULT"
type_name run_profile = "RUN_PROFILE"
type_name run_result = "RUN_RESULT"
type_name open_location = "OPEN_LOCATION"
type_name term = "TERM"
type_name term_ack = "TERM_ACK"
type_name term_summary = "TERM_SUMMARY"
type_name signal_offer = "SIGNAL_OFFER"
type_name signal_answer = "SIGNAL_ANSWER"
type_name signal_ice = "SIGNAL_ICE"
type_name signal_ready = "SIGNAL_READY"
type_name cmd_ack = "CMD_ACK"
type_name (other s) = s

pub record Hunk : Type 0 where
  pub hunk_id : String
  pub header : String
  pub diff : String
  pub risk : String

pub record FilePatch : Type 0 where
  pub path : String
  pub status : String
  pub hunks : List Hunk

pub record PatchReadyPayload : Type 0 where
  pub job_id : String
  pub summary : String
  pub files : List FilePatch

-- TransportMode and SessionState are strings too; the session store keeps any of them.
pub data TransportMode : Type 0 where
  p2p relay lan : TransportMode
  other_mode : String → TransportMode

pub data SessionState : Type 0 where
  idle connected reconnecting closed : SessionState
  other_state : String → SessionState

pub record ContextOptions : Type 0 where
  pub include_active_file : Bool
  pub include_selection : Bool
  pub include_latest_error : Bool
  pub include_workspace_summary : Bool

pub record PromptSubmitPayload : Type 0 where
  pub thread_id : String
  pub prompt : String
  pub template : String
  pub context_options : ContextOptions

pub record PromptAckPayload : Type 0 where
  pub thread_id : String
  pub job_id : String
  pub accepted : Bool
  pub message : String

pub record SelectedHunk : Type 0 where
  pub path : String
  pub hunk_ids : List String

pub record PatchApplyPayload : Type 0 where
  pub job_id : String
  pub mode : String
  pub selected : List SelectedHunk

pub record PatchResultPayload : Type 0 where
  pub job_id : String
  pub status : String
  pub message : String

pub record RunProfilePayload : Type 0 where
  pub job_id : String
  pub profile_id : String

pub record ParsedError : Type 0 where
  pub message : String
  pub path : String
  pub line : ℤ
  pub column : ℤ

pub record RunResultPayload : Type 0 where
  pub job_id : String
  pub profile_id : String
  pub status : String
  pub summary : String
  pub top_errors : List ParsedError
  pub excerpt : String
  pub output : String
  pub changed_files : List String

pub record OpenLocationPayload : Type 0 where
  pub path : String
  pub line : ℤ
  pub column : ℤ

pub record SignalOfferPayload : Type 0 where
  pub sdp : String

pub record SignalAnswerPayload : Type 0 where
  pub sdp : String

pub record SignalIcePayload : Type 0 where
  pub candidate : String
  pub sdp_mid : String
  pub sdp_m_line_index : ℤ

pub record SignalReadyPayload : Type 0 where
  pub role : String
  pub peer_connected : Bool
  pub timestamp : ℤ

pub record TermSummaryPayload : Type 0 where
  pub skipped_lines : ℤ

pub record CmdAckPayload : Type 0 where
  pub request_rid : String
  pub accepted : Bool
  pub message : String

-- The values that the code hands to `json.Marshal`.
pub data Payload : Type 0 where
  of_prompt_ack : PromptAckPayload → Payload
  of_patch_ready : PatchReadyPayload → Payload
  of_patch_result : PatchResultPayload → Payload
  of_run_result : RunResultPayload → Payload
  of_signal_offer : SignalOfferPayload → Payload
  of_signal_answer : SignalAnswerPayload → Payload
  of_signal_ice : SignalIcePayload → Payload
  of_signal_ready : SignalReadyPayload → Payload
  of_term_summary : TermSummaryPayload → Payload
  of_cmd_ack : CmdAckPayload → Payload
