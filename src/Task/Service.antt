-- ===== src/Task/Service.antt =====
-- The other methods of `TaskService` (domain/task/service.py).
use cr_agent.Prelude.{
  ℕ, ◌+◌, String, Bool, true, false, not, ◌&&◌, ◌||◌, Option, none, some, List, [], ◌∷◌, ◌++◌, ◌==◌,
  str_eq, any, ltb, length, last?, if◌then◌else◌,
}
use cr_agent.Prelude.Dict.{put}
use cr_agent.Prelude.Exec.{Result, ok, err, pure, raise, raise_if, modify, ◌>>=◌, ◌>>◌}
use cr_agent.Task.Models.{
  Task, TaskSpec, Checkpoint, InputBinding, ResultSnapshot, ControlState, Phase, ResultState,
  DeliveryState, Error, checkpoint_integrity_error, fixed_condition_mismatch,
  illegal_state_transition, lease_lost, version_conflict, binding_eq, option_eq, recovery_deadline,
  week,
}
use cr_agent.Task.StateMachine.{advance_phase, validate_control_transition}
use cr_agent.Task.State.{Action, lift, task_of, write, item, require_write}
use cr_agent.Task.Leases.{is_running, is_terminal, lease_live}

abbrev pub new_task : String → TaskSpec → ℕ → Task
new_task task_id spec now = record {
  task_id = task_id;
  spec = spec;
  control_state = ControlState.ready;
  phase = Phase.created;
  result_state = ResultState.pending;
  delivery_state = DeliveryState.not_ready;
  version = 1;
  lease = none;
  input_binding = none;
  latest_checkpoint_id = none;
  latest_result_snapshot_id = none;
  latest_delivery_attempt_id = none;
  pause_reason = none;
  terminal_reason = none;
  created_at = now;
  updated_at = now;
  last_checkpoint_at = none;
  recovery_expires_at = some (recovery_deadline now);
  retention_expires_at = none;
}

unfoldable pub create_task : String → ℕ → TaskSpec → Action Task
create_task task_id now spec = do
  write task_id (new_task task_id spec now)
  modify (λ s. record s {
    checkpoints = put s.checkpoints task_id [];
    snapshots = put s.snapshots task_id [];
    fencing_tokens = put s.fencing_tokens task_id 0;
  })
  pure (new_task task_id spec now)

-- The checkpoint does not follow the last one.
abbrev pub breaks_chain : Checkpoint → List Checkpoint → Bool
breaks_chain c old = elim (last? old) [
  | none ↦ false
  | some p ↦ ltb 1 c.sequence && not (option_eq c.predecessor_id (some p.checkpoint_id))
]

unfoldable pub complete_phase : ℕ → ℕ → String → ℕ → String → ℕ → Phase → Checkpoint → Action Task
complete_phase checked_at now task_id expected_version lease_id fencing_token target_phase
      checkpoint =
    do
      task ← task_of task_id
      lift (require_write checked_at task expected_version lease_id fencing_token)
      new_phase ← lift (advance_phase task.phase target_phase)
      old ← item (λ s. s.checkpoints) task_id
      raise_if
          (not (str_eq checkpoint.task_id task_id) || not (checkpoint.sequence == length old + 1))
          checkpoint_integrity_error
      raise_if (breaks_chain checkpoint old) checkpoint_integrity_error
      modify (λ s. record s { checkpoints = put s.checkpoints task_id (old ++ checkpoint ∷ []) })
      let updated = record task {
        phase = new_phase;
        latest_checkpoint_id = some checkpoint.checkpoint_id;
        last_checkpoint_at = some now;
        recovery_expires_at = some (recovery_deadline now);
        version = task.version + 1;
        updated_at = now;
      }
      write task_id updated
      pure updated

abbrev pub is_normalized : Phase → Bool
is_normalized Phase.input_normalized = true
is_normalized _ = false

unfoldable pub bind_input : ℕ → String → InputBinding → Action Task
bind_input now task_id binding = do
  task ← task_of task_id
  raise_if (not (str_eq binding.task_id task_id)) fixed_condition_mismatch
  elim task.input_binding [
    | some b ↦ if binding_eq b binding then pure task else raise fixed_condition_mismatch
    | none ↦ do
      raise_if (not (is_normalized task.phase)) illegal_state_transition
      let updated = record task {
        input_binding = some binding;
        version = task.version + 1;
        updated_at = now;
      }
      write task_id updated
      pure updated
  ]

abbrev pub is_unknown : ResultState → Bool
is_unknown ResultState.unknown = true
is_unknown _ = false

-- `set.add`
abbrev pub add_attempt : String → List String → List String
add_attempt t ts = if any (str_eq t) ts then ts else t ∷ ts

unfoldable pub pause : ℕ → ℕ → String → ℕ → String → ℕ → String → ResultState → Action Task
pause checked_at now task_id expected_version lease_id fencing_token reason result_state = do
  task ← task_of task_id
  lift (require_write checked_at task expected_version lease_id fencing_token)
  lift (validate_control_transition task.control_state ControlState.paused)
  if is_unknown result_state
      then modify (λ s. record s { unknown_attempts = add_attempt task_id s.unknown_attempts })
      else pure tt
  let updated = record task {
    control_state = ControlState.paused;
    result_state = result_state;
    pause_reason = some reason;
    lease = none;
    version = task.version + 1;
    updated_at = now;
  }
  write task_id updated
  pure updated

-- The guard of `terminate`.
abbrev pub may_terminate : ℕ → Task → ℕ → Option String → Option ℕ → Result Error Unit
may_terminate checked_at task expected_version (some l) (some n) =
    if is_running task.control_state
    then require_write checked_at task expected_version l n
    else if not (task.version == expected_version)
    then err version_conflict
    else ok tt
may_terminate checked_at task expected_version _ _ =
    if is_running task.control_state
    then err lease_lost
    else if not (task.version == expected_version)
    then err version_conflict
    else ok tt

unfoldable pub terminate : ℕ → ℕ → String → ℕ → String → Option String → Option ℕ → Action Task
terminate checked_at now task_id expected_version reason lease_id fencing_token = do
  task ← task_of task_id
  if is_terminal task.control_state then pure task else do
    lift (may_terminate checked_at task expected_version lease_id fencing_token)
    let updated = record task {
      control_state = ControlState.terminated;
      terminal_reason = some reason;
      lease = none;
      version = task.version + 1;
      updated_at = now;
      retention_expires_at = some (now + week);
    }
    write task_id updated
    pure updated

unfoldable pub create_result_snapshot :
    String → ℕ → ℕ → String → ResultState → String → String → Action ResultSnapshot
create_result_snapshot snapshot_id created_at updated_at task_id result_state checkpoint_id
      content_digest =
    do
      task ← task_of task_id
      checkpoints ← item (λ s. s.checkpoints) task_id
      raise_if (not (any (λ c. str_eq c.checkpoint_id checkpoint_id) checkpoints))
          checkpoint_integrity_error
      old ← item (λ s. s.snapshots) task_id
      let snapshot : ResultSnapshot = record {
        snapshot_id = snapshot_id;
        task_id = task_id;
        snapshot_version = length old + 1;
        result_state = result_state;
        checkpoint_id = checkpoint_id;
        content_digest = content_digest;
        created_at = created_at;
      }
      modify (λ s. record s { snapshots = put s.snapshots task_id (old ++ snapshot ∷ []) })
      write task_id (record task {
        latest_result_snapshot_id = some snapshot_id;
        result_state = result_state;
        delivery_state = DeliveryState.pending;
        version = task.version + 1;
        updated_at = updated_at;
      })
      pure snapshot

pub data Recoverability : Type 0 where
  retry_pending not_applicable expired running recoverable : Recoverability

abbrev pub is_retryable : DeliveryState → Bool
is_retryable DeliveryState.pending = true
is_retryable DeliveryState.failed = true
is_retryable DeliveryState.unknown = true
is_retryable _ = false

abbrev pub past : ℕ → Option ℕ → Bool
past now none = false
past now (some t) = ltb t now

abbrev pub recoverability_of : Task → ℕ → Recoverability
recoverability_of task now =
    if is_terminal task.control_state
    then (if is_retryable task.delivery_state then retry_pending else not_applicable)
    else if past now task.recovery_expires_at
    then expired
    else if is_running task.control_state && lease_live task.lease now
    then running
    else recoverable

unfoldable pub recoverability : ℕ → String → Action Recoverability
recoverability now task_id = do task ← task_of task_id; pure (recoverability_of task now)
