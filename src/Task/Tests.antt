-- ===== src/Task/Tests.antt =====
-- Runs of the task service, and the theorems at concrete inputs.
use cr_agent.Prelude.{◌≡◌, refl, false, none, some, List, [], ◌∷◌, arith}
use cr_agent.Prelude.Dict.{get, put}
use cr_agent.Task.Models.{
  Task, TaskSpec, Checkpoint, CheckpointKind, Phase, ControlState, ResultState,
}
use cr_agent.Task.StateMachine.{advance_phase, validate_control_transition}
use cr_agent.Task.State.{Tasks, task_of, require_lease, require_write, new_lease}
use cr_agent.Task.Leases.{start, acquire_execution, resume}
use cr_agent.Task.Service.{create_task, new_task, complete_phase, pause, terminate}
use cr_agent.Task.Calls.{
  Call, create, acquire, take_over, complete, suspend, stop, run, after, Later, run-Later,
}
use cr_agent.Task.Fencing.{AfterOk, IsFenced, resume-fences}

abbrev spec : TaskSpec
spec = record {
  spec_id = "spec";
  input_intent = "diff";
  provider_id = "p";
  provider_version = "1";
  model_id = "m";
  provider_origin = "o";
  ruleset_id = "r";
  ruleset_version = "1";
  tools = [];
  security_policy_id = "sp";
  security_policy_version = 1;
  config_digest = "c";
  credential_alias = "a";
  budget_account_id = "b";
  fixed_conditions_digest = "f";
}

abbrev first_checkpoint : Checkpoint
first_checkpoint = record {
  checkpoint_id = "c1";
  task_id = "t";
  sequence = 1;
  kind = CheckpointKind.input_acquired;
  phase = Phase.input_acquired;
  scope_type = "task";
  scope_id = "t";
  predecessor_id = none;
  budget_ledger_version = 1;
  trace_start_sequence = 0;
  trace_end_sequence = 0;
  created_task_version = 2;
  created_at = 5;
}

abbrev empty : Tasks
empty = record {
  tasks = [];
  checkpoints = [];
  snapshots = [];
  unknown_attempts = [];
  fencing_tokens = [];
}

-- The whole service open.
service_open : Unit {0}
unfolding run after create_task acquire_execution resume start new_lease task_of require_lease
    require_write complete_phase pause terminate advance_phase validate_control_transition get put
service_open = tt

abbrev begun : Tasks
begun = run (create "t" 0 spec ∷ acquire 1 "l1" "t" "me" ∷ []) empty

abbrev calls : List Call
calls =
    complete 2 3 "t" 2 "l1" 1 Phase.input_acquired first_checkpoint
    ∷ take_over 500 "l2" "t" "you" false
    ∷ suspend 501 502 "t" 4 "l1" 1 "late" ResultState.pending
    ∷ suspend 503 504 "t" 4 "l2" 2 "break" ResultState.pending
    ∷ stop 505 506 "t" 5 "done" none none
    ∷ []

abbrev running_task : Task
running_task =
    let t : Task = new_task "t" spec 0 in
    record t {
      control_state = ControlState.running;
      version = 2;
      updated_at = 1;
      lease = some (record {
        lease_id = "l1";
        owner_id = "me";
        fencing_token = 1;
        purpose = cr_agent.Task.Models.review_execution;
        acquired_at = 1;
        heartbeat_at = 1;
        expires_at = 121;
        lease_revision = 1;
        released_at = none;
      });
    }

begun_there : get begun.tasks "t" ≡ some running_task
unfolding service_open
begun_there = refl

run-Later_example :
    (new : Task) × (get (run calls begun).tasks "t" ≡ some new) × Later running_task new
run-Later_example = run-Later calls begun "t" begun_there tt

begun_counter : get begun.fencing_tokens "t" ≡ some 1
unfolding service_open
begun_counter = refl

-- The lease that expired at 121 is taken over at 500, and its holder is shut out: at once, after the
-- task is paused by its new holder, and after it is taken over again.
abbrev later_calls : List Call
later_calls =
    suspend 501 502 "t" 3 "l2" 2 "wait" ResultState.pending
    ∷ take_over 503 "l3" "t" "other" false
    ∷ []

resume-fences_example :
    AfterOk (λ s. IsFenced "t" "l1" 1 (run later_calls s)) (resume 500 "l2" "t" "you" false begun)
resume-fences_example =
    resume-fences 500 "l2" "t" "you" false begun begun_there refl begun_counter later_calls tt "l1"
      1 (omega arith)
