-- ===== src/Agent/Adapter/Mock.antt =====
-- internal/agent/mock_adapter.go: the adapter with fixed answers, and two counters.
use Prim.Native.String.{◌++◌ as concat}
use vibe_deck.Prelude.{
  ℕ, ◌+◌, ◌==◌, pos, true, false, ◌&&◌, none, some, [], ◌∷◌, String, str_eq, if◌then◌else◌, length,
}
use vibe_deck.Text.{decimal}
use vibe_deck.Protocol.Models.{Hunk, PatchReadyPayload}
use vibe_deck.Protocol.Envelope.{ok}
use vibe_deck.Agent.Adapter.{
  AdapterCapabilities, WorkspaceContext, ApplyPatchInput, ApplyPatchResult, RunResult,
  WorkspaceAdapter,
}

pub record MockAdapter : Type 0 where
  pub task_seq : ℕ
  pub run_seq : ℕ

abbrev pub mock_capabilities : AdapterCapabilities
mock_capabilities = record {
  supports_partial_apply = true;
  supports_structured_patch = true;
  supports_context_selection = true;
  supports_artifacts = false;
  supports_open_location = true;
}

abbrev pub mock_context : WorkspaceContext
mock_context = record {
  active_file_path = "src/auth/middleware.ts";
  selection = "if (!token) return 401";
  latest_terminal_error = "expected 401 got 500";
  changed_files = "src/auth/middleware.ts" ∷ "tests/auth/middleware.test.ts" ∷ [];
  last_run_profile = "test_all";
  last_run_status = "failed";
}

abbrev pub mock_hunk : Hunk
mock_hunk = record {
  hunk_id = "h1";
  header = "@@ -12,7 +12,9 @@";
  diff = "- if (!token) throw new Error()\n+ if (!token) return res.status(401).send()";
  risk = "low";
}

abbrev pub mock_patch : PatchReadyPayload
mock_patch = record {
  job_id = "";
  summary = "Fix auth middleware test path and null guard";
  files =
      (record { path = "src/auth/middleware.ts"; status = "modified"; hunks = mock_hunk ∷ [] })
      ∷ [];
}

abbrev pub mock_apply : ApplyPatchInput → ApplyPatchResult
mock_apply input =
    if str_eq input.mode "selected" && length input.selected == 0
    then record { status = "failed"; message = "selected mode requires hunk selection" }
    else if str_eq input.mode "selected"
    then record { status = "partial"; message = "selected hunks applied" }
    else record { status = "success"; message = "patch applied" }

abbrev pub mock_result : String → RunResult
mock_result run_id = record {
  run_id = run_id;
  profile_id = "test_all";
  status = "failed";
  summary = "1 failing test in auth middleware";
  top_errors =
      (record {
        message = "expected 401 got 500";
        path = "tests/auth/middleware.test.ts";
        line = pos 44;
        column = pos 13;
      })
      ∷ [];
  excerpt = "AssertionError: expected 401 got 500";
  output = "FAIL tests/auth/middleware.test.ts\nAssertionError: expected 401 got 500";
  changed_files = [];
}

abbrev pub mock_adapter : WorkspaceAdapter
mock_adapter = record {
  State = MockAdapter;
  name = λ a. "mock-cursor";
  capabilities = λ a. mock_capabilities;
  get_context = λ input a. (a, ok mock_context);
  submit_task = λ input a.
      let n = a.task_seq + 1 in
      (record a { task_seq = n }, ok (record { task_id = concat "task_" (decimal n) }));
  get_patch = λ task_id a. (a, ok (some mock_patch));
  apply_patch = λ input a. (a, ok (mock_apply input));
  run_profile = λ input a.
      let n = a.run_seq + 1 in
      (
        record a { run_seq = n },
        ok (record { run_id = concat "run_" (concat input.profile_id (concat "_" (decimal n))) }),
      );
  get_run_result = λ run_id a. (a, ok (some (mock_result run_id)));
  open_location = λ input a. (a, none);
}
