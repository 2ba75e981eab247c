-- ===== src/Task/History.antt =====
-- How one task changes under the calls of `TaskService`.
use cr_agent.Prelude.{
  ℕ, ◌+◌, ◌≤◌, ◌<◌, String, ◌≡◌, refl, Bool, true, inl, inr, Option, none, some, arith, str_eq,
  eq_iff, ◌∙◌, Option-cases, Bool-cases, leb,
}
use cr_agent.Prelude.Dict.{Dict, get, put, get-put}
use cr_agent.Prelude.Exec.{ok, err, Result-cases}
use cr_agent.Task.Models.{
  illegal_state_transition, LeasePurpose, review_execution, Task, InputBinding, ControlState, Phase,
  ResultState, ready, running, paused, terminated,
}
use cr_agent.Task.StateMachine.{allowed, phase_order, advance_phase, validate_control_transition}
use cr_agent.Task.State.{Tasks, task_of, require_write, new_lease}
use cr_agent.Task.Leases.{start}
use cr_agent.Task.Service.{pause, is_unknown}

-- The step from one control state to another: none, one of the table, or the takeover of a running
-- task.
abbrev pub may_step : ControlState → ControlState → Bool
may_step ready ready = true
may_step paused paused = true
may_step running running = true
may_step a b = allowed a b

pub record Follows (old new : Task) : Type 0 where
  pub version : old.version ≤ new.version
  pub phase : phase_order old.phase ≤ phase_order new.phase
  pub control : may_step old.control_state new.control_state ≡ true
  pub spec : old.spec ≡ new.spec
  pub task_id : old.task_id ≡ new.task_id
  pub binding : (b : InputBinding) → old.input_binding ≡ some b → new.input_binding ≡ some b

abbrev pub Follows? : Option Task → Option Task → Type 0
Follows? none new = Unit
Follows? (some old) none = ⊥
Follows? (some old) (some new) = Follows old new

pub Follows-refl : (task : Task) → Follows task task
Follows-refl task = record {
  version = omega arith;
  phase = omega arith;
  control = may_stay task.control_state;
  spec = refl;
  task_id = refl;
  binding = λ b h. h;
}
  where
    may_stay : (c : ControlState) → may_step c c ≡ true
    may_stay ready = refl
    may_stay running = refl
    may_stay paused = refl
    may_stay terminated = refl

pub same : (o : Option Task) → Follows? o o
same none = tt
same (some task) = Follows-refl task

-- How the task under `j` has changed between two states.
abbrev pub Kept : String → Tasks → Tasks → Type 0
Kept j s s' = Follows? (get s.tasks j) (get s'.tasks j)

pub written :
    (d : Dict Task) (t j : String) {task : Task} (new : Task)
    → get d t ≡ some task
    → Follows task new
    → Follows? (get d j) (get (put d t new) j)
written d t j {task = task} new found f = elim (Bool-cases (str_eq t j)) [
  | inl e ↦
      let same_key : t ≡ j = (eq_iff t j).0 e in
      rw (get-put d t j new) (rw e (rw (← same_key) (rw found f)))
  | inr e ↦ rw (get-put d t j new) (rw e (same (get d j)))
]

pub advanced : (a b : Phase) {p : Phase} → advance_phase a b ≡ ok p → phase_order a < phase_order p
unfolding advance_phase
advanced a b {p = p} h = elim (Bool-cases (leb (phase_order b) (phase_order a))) [
  | inl back ↦ let broken : err illegal_state_transition ≡ ok p = (rw back at h) in cc broken
  | inr on ↦
      let reached : ok b ≡ ok p = (rw on at h) in
      let same_phase : b ≡ p = cc reached in rw (← same_phase) (ground arith)
]

pub paused_step :
    (c : ControlState) → validate_control_transition c paused ≡ ok tt → may_step c paused ≡ true
unfolding validate_control_transition
paused_step ready h = refl
paused_step running h = refl
paused_step paused h = cc
paused_step terminated h = cc

-- A change of the control state, with one more version.
abbrev pub Only : ControlState → Task → Task → Type 0
Only c old new =
    (new.version ≡ old.version + 1)
    × (new.phase ≡ old.phase)
    × (new.control_state ≡ c)
    × (old.spec ≡ new.spec)
    × (old.task_id ≡ new.task_id)
    × (new.input_binding ≡ old.input_binding)

pub Only-Follows :
    {old new : Task} (c : ControlState)
    → Only c old new
    → may_step old.control_state c ≡ true
    → Follows old new
Only-Follows c (v, p, k, sp, i, b) step = record {
  version = omega (arith, v);
  phase = rw p (omega arith);
  control = rw k step;
  spec = sp;
  task_id = i;
  binding = λ x h. b ∙ h;
}

pub pause-Follows :
    (c n : ℕ) (t : String) (v : ℕ) (l : String) (k : ℕ) (why : String) (r : ResultState) (s : Tasks)
    (j : String)
    → Kept j s (pause c n t v l k why r s).1
unfolding pause task_of
pause-Follows c n t v l k why r s j = elim (Option-cases (get s.tasks t)) [
  | inl missing ↦ rw missing (same (get s.tasks j))
  | inr (task, found) ↦ rw found (elim (Result-cases (require_write c task v l k)) [
    | inr (e, bad) ↦ rw bad (same (get s.tasks j))
    | inl (u, good) ↦
        rw good (elim (Result-cases (validate_control_transition task.control_state paused)) [
          | inr (e, bad) ↦ rw bad (same (get s.tasks j))
          | inl (w, legal) ↦ rw legal (elim (Bool-cases (is_unknown r)) [
            | inl x ↦ rw x (
                written s.tasks t j _ found (
                  Only-Follows paused (refl, refl, refl, refl, refl, refl)
                    (paused_step task.control_state legal)))
            | inr x ↦ rw x (
                written s.tasks t j _ found (
                  Only-Follows paused (refl, refl, refl, refl, refl, refl)
                    (paused_step task.control_state legal)))
          ])
        ])
  ])
]

new_lease-Kept :
    (id owner : String) (task : Task) (p : LeasePurpose) (now : ℕ) (s : Tasks)
    → (new_lease id task owner p now s).1.tasks ≡ s.tasks
unfolding new_lease
new_lease-Kept id owner task p now s = ground arith

pub start-Follows :
    (id t owner : String) (task : Task) (now : ℕ) (s : Tasks) (j : String)
    → get s.tasks t ≡ some task
    → may_step task.control_state running ≡ true
    → Kept j s (start id t owner task now s).1
unfolding start
start-Follows id t owner task now s j found step =
    let frame = new_lease-Kept id owner task review_execution now s in
    elim (Result-cases (new_lease id task owner review_execution now s).0) [
      | inr (e, bad) ↦ rw bad (rw frame (same (get s.tasks j)))
      | inl (l, good) ↦ rw good (
          rw frame (
            written s.tasks t j _ found
              (Only-Follows running (refl, refl, refl, refl, refl, refl) step)))
    ]
