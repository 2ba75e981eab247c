-- ===== src/Task/State.antt =====
-- The state of `TaskService` (domain/task/service.py) and its private helpers. What `uuid4()` and
-- each `clock.now()` return are arguments, in the order in which the code asks for them.
use cr_agent.Prelude.{ℕ, ◌+◌, String, not, ◌||◌, none, some, List, ◌==◌, str_eq, if◌then◌else◌}
use cr_agent.Prelude.Dict.{Dict, get, put}
use cr_agent.Prelude.Exec.{
  Result, ok, err, Exec, pure, gets, or_raise, raise_if, modify, ◌>>=◌, ◌>>◌,
}
use cr_agent.Task.Models.{
  Task, Checkpoint, ResultSnapshot, ExecutionLease, LeasePurpose, Error, lease_valid, is_valid_at,
  lease_seconds, task_not_found, lease_lost, version_conflict, bad_lease, key_error,
}

pub record Tasks : Type 0 where
  pub tasks : Dict Task
  pub checkpoints : Dict (List Checkpoint)
  pub snapshots : Dict (List ResultSnapshot)
  pub unknown_attempts : List String
  pub fencing_tokens : Dict ℕ

abbrev pub Action : Type 0 → Type 0
Action = Exec Tasks Error

-- A pure check that may raise.
abbrev pub lift : {A : Type 0} → Result Error A → Action A
lift (ok a) s = (ok a, s)
lift (err e) s = (err e, s)

-- `get`
unfoldable pub task_of : String → Action Task
task_of task_id = do or_raise (← gets (λ s. get s.tasks task_id)) task_not_found

-- `self._tasks[task_id] = t`
abbrev pub write : String → Task → Action Unit
write task_id t = modify (λ s. record s { tasks = put s.tasks task_id t })

-- `self._checkpoints[task_id]` and its like.
abbrev pub item : {V : Type 0} → (Tasks → Dict V) → String → Action V
item d task_id = do or_raise (← gets (λ s. get (d s) task_id)) key_error

-- `_require_lease`
unfoldable pub require_lease : Task → String → ℕ → Result Error ExecutionLease
require_lease task lease_id fencing_token = elim task.lease [
  | none ↦ err lease_lost
  | some l ↦
      if not (str_eq l.lease_id lease_id) || not (l.fencing_token == fencing_token)
      then err lease_lost
      else ok l
]

-- `_require_write`, at the time that it reads.
unfoldable pub require_write : ℕ → Task → ℕ → String → ℕ → Result Error Unit
require_write now task expected_version lease_id fencing_token =
    if not (task.version == expected_version)
    then err version_conflict
    else elim (require_lease task lease_id fencing_token) [
      | err e ↦ err e
      | ok l ↦ if not (is_valid_at l now) then err lease_lost else ok tt
    ]

abbrev pub made_lease : String → String → ℕ → LeasePurpose → ℕ → ExecutionLease
made_lease lease_id owner_id token purpose now = record {
  lease_id = lease_id;
  owner_id = owner_id;
  fencing_token = token;
  purpose = purpose;
  acquired_at = now;
  heartbeat_at = now;
  expires_at = now + lease_seconds;
  lease_revision = 1;
  released_at = none;
}

-- `_new_lease`: the token is taken before the lease is checked.
unfoldable pub new_lease : String → Task → String → LeasePurpose → ℕ → Action ExecutionLease
new_lease lease_id task owner_id purpose now = do
  old ← item (λ s. s.fencing_tokens) task.task_id
  modify (λ s. record s { fencing_tokens = put s.fencing_tokens task.task_id (old + 1) })
  raise_if (not (lease_valid (made_lease lease_id owner_id (old + 1) purpose now))) bad_lease
  pure (made_lease lease_id owner_id (old + 1) purpose now)
