-- ===== src/Control/Examples.antt =====
-- Runs of the control router on concrete values.
use vibe_deck.Control.Profiles.{
  RunProfile, default_run_profiles, load_run_profiles, load_run_profiles_lem, content, not_exist,
}
use vibe_deck.Prelude.{
  length, ◌≤◌, ◌⊎◌, ℕ, true, Option, none, some, List, [], ◌∷◌, String, ◌≡◌, refl, pos,
}
use vibe_deck.GoMap.{GoMap, lookup}
use vibe_deck.Protocol.Models.{cmd_ack, patch_ready, CmdAckPayload}
use vibe_deck.Protocol.Envelope.{Envelope, ok, decode_payload}
use vibe_deck.Protocol.TestCodec.{test_codec}
use vibe_deck.Runtime.AckTracker.State.{AckTracker, AckTrackerConfig, new_ack_tracker_with_config}
use vibe_deck.Runtime.AckTracker.Settled.{is_some}
use vibe_deck.Control.Router.{ControlRouter, handle_envelope}
use vibe_deck.Control.Router.Laws.{handle_envelope-ack}

abbrev config : AckTrackerConfig
config = record { timeout = pos 5; max_retries = pos 1; backoff_multiplier = pos 2 }

abbrev tracker : AckTracker
tracker = new_ack_tracker_with_config config

abbrev confirm : Envelope
confirm = record {
  sid = "s1";
  rid = "r9";
  seq = pos 0;
  ts = pos 9;
  kind = cmd_ack;
  payload = "mmrsdone";
}

abbrev patch : Envelope
patch = record confirm { rid = "r2"; kind = patch_ready }

abbrev confirmed : CmdAckPayload
confirmed = record { request_rid = "r"; accepted = true; message = "done" }

-- An orchestrator that counts its commands and answers each with a patch.
abbrev command : Envelope → ℕ → ℕ × List Envelope × Option String
command env n = (1, patch ∷ [], none)

abbrev router : ControlRouter ℕ
router = record { orchestrator = some 0; ack_tracker = some tracker }

handle_envelope-ack_example :
    (t' : AckTracker) × (handle_envelope test_codec command 20 confirm router ≡ (
      record router { ack_tracker = some t' },
      record {
        responses = [];
        ack_handled = is_some (lookup "r" tracker.pending);
        ack_request_id = "r";
      },
      none,
    ))
    × (lookup "r" t'.pending ≡ none)
unfolding decode_payload
handle_envelope-ack_example =
    handle_envelope-ack test_codec command 20 confirm router tracker confirmed refl refl refl

abbrev profiles : GoMap RunProfile
profiles =
    ("lint", record { label = "Lint"; command = "lint"; scope = "SMALL"; optional = true }) ∷ []

abbrev path_name : String
path_name = "p.json"

load_run_profiles_lem_example :
    (1 ≤ length profiles)
    × (((profiles ≡ default_run_profiles) × ((path_name ≡ "") ⊎ (content "{}" ≡ not_exist)))
        ⊎ ((bytes : String) × (content "{}" ≡ content bytes) × (ok profiles ≡ ok profiles)))
unfolding load_run_profiles
load_run_profiles_lem_example =
    load_run_profiles_lem (λ bytes. ok profiles) path_name (content "{}") profiles refl
