-- ===== src/Task/Leases.antt =====
-- Getting, renewing, releasing and taking over the right to work on a task
-- (domain/task/service.py).
use cr_agent.Prelude.{
  ℕ, ◌+◌, String, Bool, true, false, not, ◌&&◌, Option, none, some, str_eq, any, keep,
}
use cr_agent.Prelude.Exec.{pure, gets, raise_if, modify, ◌>>=◌, ◌>>◌}
use cr_agent.Task.Models.{
  Task, ExecutionLease, ExecutionPermit, ControlState, ready, running, paused, terminated,
  review_execution, resume_required, task_already_running, lease_lost, bad_lease,
  illegal_state_transition, resume_condition_blocked, unknown_retry_confirmation_required,
  is_valid_at, lease_valid, lease_seconds,
}
use cr_agent.Task.State.{Action, lift, task_of, write, require_lease, new_lease}

abbrev pub is_ready : ControlState → Bool
is_ready ready = true
is_ready _ = false

abbrev pub is_running : ControlState → Bool
is_running running = true
is_running _ = false

-- `task.lease is not None and task.lease.is_valid_at(now)`
abbrev pub lease_live : Option ExecutionLease → ℕ → Bool
lease_live none now = false
lease_live (some l) now = is_valid_at l now

-- `task.lease is not None and not task.lease.is_valid_at(now)`
abbrev pub lease_dead : Option ExecutionLease → ℕ → Bool
lease_dead none now = false
lease_dead (some l) now = not (is_valid_at l now)

-- The task with a new lease, as `acquire_execution` and `resume` write it.
abbrev pub started : Task → ExecutionLease → ℕ → Task
started task lease now = record task {
  control_state = running;
  lease = some lease;
  version = task.version + 1;
  updated_at = now;
}

-- The common end of `acquire_execution` and `resume` up to the write.
unfoldable pub start : String → String → String → Task → ℕ → Action ExecutionPermit
start lease_id task_id owner_id task now = do
  lease ← new_lease lease_id task owner_id review_execution now
  write task_id (started task lease now)
  pure (record {
    task_id = task_id;
    task_version = task.version + 1;
    lease_id = lease.lease_id;
    owner_id = owner_id;
    fencing_token = lease.fencing_token;
  })

unfoldable pub acquire_execution : ℕ → String → String → String → Action ExecutionPermit
acquire_execution now lease_id task_id owner_id = do
  task ← task_of task_id
  raise_if
      (not (is_ready task.control_state)
        && (is_running task.control_state && lease_dead task.lease now))
      resume_required
  raise_if (not (is_ready task.control_state)) task_already_running
  raise_if (lease_live task.lease now) task_already_running
  start lease_id task_id owner_id task now

abbrev pub renewed : ExecutionLease → ℕ → ExecutionLease
renewed lease now = record lease {
  heartbeat_at = now;
  expires_at = now + lease_seconds;
  lease_revision = lease.lease_revision + 1;
}

unfoldable pub renew_lease : ℕ → String → String → ℕ → Action ExecutionLease
renew_lease now task_id lease_id fencing_token = do
  task ← task_of task_id
  lease ← lift (require_lease task lease_id fencing_token)
  raise_if (not (is_valid_at lease now)) lease_lost
  raise_if (not (lease_valid (renewed lease now))) bad_lease
  write task_id (record task { lease = some (renewed lease now) })
  pure (renewed lease now)

unfoldable pub release_execution : ℕ → String → String → ℕ → Action Unit
release_execution now task_id lease_id fencing_token = do
  task ← task_of task_id
  lease ← lift (require_lease task lease_id fencing_token)
  write task_id
      (record task { lease = some (record lease { released_at = some now }); updated_at = now })

abbrev pub is_resumable : ControlState → Bool
is_resumable paused = true
is_resumable running = true
is_resumable _ = false

abbrev pub is_terminal : ControlState → Bool
is_terminal terminated = true
is_terminal _ = false

unfoldable pub resume : ℕ → String → String → String → Bool → Action ExecutionPermit
resume now lease_id task_id owner_id confirm_unknown_retry = do
  task ← task_of task_id
  raise_if (is_terminal task.control_state) illegal_state_transition
  raise_if (is_running task.control_state && lease_live task.lease now) task_already_running
  raise_if (not (is_resumable task.control_state)) resume_condition_blocked
  unknown ← gets (λ s. any (str_eq task_id) s.unknown_attempts)
  raise_if (unknown && not confirm_unknown_retry) unknown_retry_confirmation_required
  permit ← start lease_id task_id owner_id task now
  modify
      (λ s. record s { unknown_attempts = keep (λ x. not (str_eq task_id x)) s.unknown_attempts })
  pure permit
