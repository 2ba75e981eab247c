-- ===== src/Task/Forward.antt =====
-- Each method of `TaskService`, raising or not, changes a task only forwards.
use cr_agent.Prelude.{
  ℕ, ◌+◌, String, ◌≡◌, refl, Bool, true, false, not, ◌&&◌, ◌||◌, inl, inr, Option, none, some, ◌==◌,
  arith, str_eq, ◌∙◌, sym, Option-cases, Bool-cases, any, length,
}
use cr_agent.Prelude.Dict.{get}
use cr_agent.Prelude.Exec.{Result-cases}
use cr_agent.Task.Models.{
  Checkpoint, InputBinding, ControlState, Phase, ResultState, ready, running, paused, terminated,
  is_valid_at, lease_valid, binding_eq,
}
use cr_agent.Task.StateMachine.{advance_phase}
use cr_agent.Task.State.{Tasks, task_of, require_lease, require_write}
use cr_agent.Task.Leases.{
  start, acquire_execution, renew_lease, release_execution, resume, is_running, is_ready,
  is_terminal, is_resumable, lease_dead, lease_live, renewed,
}
use cr_agent.Task.Service.{
  complete_phase, bind_input, terminate, create_result_snapshot, breaks_chain, is_normalized,
  may_terminate,
}
use cr_agent.Task.History.{Kept, same, written, advanced, Only-Follows, start-Follows, may_step}

none_not_some : {A : Type 0} {a : A} → ¬ (none ≡ some a)
none_not_some h = cc h

from_ready : (c : ControlState) → not (is_ready c) ≡ false → may_step c running ≡ true
from_ready ready h = refl
from_ready running h = cc
from_ready paused h = cc
from_ready terminated h = cc

from_resumable : (c : ControlState) → not (is_resumable c) ≡ false → may_step c running ≡ true
from_resumable ready h = cc
from_resumable running h = refl
from_resumable paused h = refl
from_resumable terminated h = cc

to_terminated : (c : ControlState) → may_step c terminated ≡ true
to_terminated ready = refl
to_terminated running = refl
to_terminated paused = refl
to_terminated terminated = refl

to_self : (c : ControlState) → may_step c c ≡ true
to_self ready = refl
to_self running = refl
to_self paused = refl
to_self terminated = refl

pub acquire-Follows :
    (now : ℕ) (id t owner : String) (s : Tasks) (j : String)
    → Kept j s (acquire_execution now id t owner s).1
unfolding acquire_execution task_of
acquire-Follows now id t owner s j = elim (Option-cases (get s.tasks t)) [
  | inl missing ↦ rw missing (same (get s.tasks j))
  | inr (task, found) ↦
      rw found
        (elim (Bool-cases (
          not (is_ready task.control_state)
          && (is_running task.control_state && lease_dead task.lease now))) [
            | inl bad ↦ rw bad (same (get s.tasks j))
            | inr past ↦ rw past (elim (Bool-cases (not (is_ready task.control_state))) [
              | inl bad ↦ rw bad (same (get s.tasks j))
              | inr is_ready' ↦ rw is_ready' (elim (Bool-cases (lease_live task.lease now)) [
                | inl bad ↦ rw bad (same (get s.tasks j))
                | inr free ↦ rw free (
                    start-Follows id t owner task now s j found
                      (from_ready task.control_state is_ready'))
              ])
            ])
          ])
]

pub renew-Follows :
    (now : ℕ) (t id : String) (k : ℕ) (s : Tasks) (j : String)
    → Kept j s (renew_lease now t id k s).1
unfolding renew_lease task_of
renew-Follows now t id k s j = elim (Option-cases (get s.tasks t)) [
  | inl missing ↦ rw missing (same (get s.tasks j))
  | inr (task, found) ↦ rw found (elim (Result-cases (require_lease task id k)) [
    | inr (e, bad) ↦ rw bad (same (get s.tasks j))
    | inl (l, good) ↦ rw good (elim (Bool-cases (not (is_valid_at l now))) [
      | inl bad ↦ rw bad (same (get s.tasks j))
      | inr live ↦ rw live (elim (Bool-cases (not (lease_valid (renewed l now)))) [
        | inl bad ↦ rw bad (same (get s.tasks j))
        | inr fine ↦ rw fine (
            written s.tasks t j _ found (record {
              version = omega arith;
              phase = omega arith;
              control = to_self task.control_state;
              spec = refl;
              task_id = refl;
              binding = λ b h. h;
            }))
      ])
    ])
  ])
]

pub release-Follows :
    (now : ℕ) (t id : String) (k : ℕ) (s : Tasks) (j : String)
    → Kept j s (release_execution now t id k s).1
unfolding release_execution task_of
release-Follows now t id k s j = elim (Option-cases (get s.tasks t)) [
  | inl missing ↦ rw missing (same (get s.tasks j))
  | inr (task, found) ↦ rw found (elim (Result-cases (require_lease task id k)) [
    | inr (e, bad) ↦ rw bad (same (get s.tasks j))
    | inl (l, good) ↦ rw good (
        written s.tasks t j _ found (record {
          version = omega arith;
          phase = omega arith;
          control = to_self task.control_state;
          spec = refl;
          task_id = refl;
          binding = λ b h. h;
        }))
  ])
]

-- The writes of `resume` after its guards: the mark of an unknown attempt is no part of a task.
pub resume-Follows :
    (now : ℕ) (id t owner : String) (confirm : Bool) (s : Tasks) (j : String)
    → Kept j s (resume now id t owner confirm s).1
unfolding resume task_of
resume-Follows now id t owner confirm s j = elim (Option-cases (get s.tasks t)) [
  | inl missing ↦ rw missing (same (get s.tasks j))
  | inr (task, found) ↦ rw found (elim (Bool-cases (is_terminal task.control_state)) [
    | inl bad ↦ rw bad (same (get s.tasks j))
    | inr open_task ↦
        rw open_task
          (elim (Bool-cases (is_running task.control_state && lease_live task.lease now)) [
            | inl bad ↦ rw bad (same (get s.tasks j))
            | inr free ↦ rw free (elim (Bool-cases (not (is_resumable task.control_state))) [
              | inl bad ↦ rw bad (same (get s.tasks j))
              | inr able ↦
                  rw able (elim (Bool-cases (any (str_eq t) s.unknown_attempts && not confirm)) [
                    | inl bad ↦ rw bad (same (get s.tasks j))
                    | inr told ↦ rw told (elim (Result-cases (start id t owner task now s).0) [
                      | inr (e, bad) ↦ rw bad (
                          start-Follows id t owner task now s j found
                            (from_resumable task.control_state able))
                      | inl (p, good) ↦ rw good (
                          start-Follows id t owner task now s j found
                            (from_resumable task.control_state able))
                    ])
                  ])
            ])
          ])
  ])
]

pub complete-Follows :
    (c n : ℕ) (t : String) (v : ℕ) (l : String) (k : ℕ) (p : Phase) (cp : Checkpoint) (s : Tasks)
    (j : String)
    → Kept j s (complete_phase c n t v l k p cp s).1
unfolding complete_phase task_of
complete-Follows c n t v l k p cp s j = elim (Option-cases (get s.tasks t)) [
  | inl missing ↦ rw missing (same (get s.tasks j))
  | inr (task, found) ↦ rw found (elim (Result-cases (require_write c task v l k)) [
    | inr (e, bad) ↦ rw bad (same (get s.tasks j))
    | inl (u, good) ↦ rw good (elim (Result-cases (advance_phase task.phase p)) [
      | inr (e, bad) ↦ rw bad (same (get s.tasks j))
      | inl (q, forward) ↦ rw forward (elim (Option-cases (get s.checkpoints t)) [
        | inl bad ↦ rw bad (same (get s.tasks j))
        | inr (old, listed) ↦
            rw listed
              (elim (Bool-cases
                (not (str_eq cp.task_id t) || not (cp.sequence == length old + 1))) [
                  | inl bad ↦ rw bad (same (get s.tasks j))
                  | inr mine ↦ rw mine (elim (Bool-cases (breaks_chain cp old)) [
                    | inl bad ↦ rw bad (same (get s.tasks j))
                    | inr linked ↦ rw linked (
                        written s.tasks t j _ found (record {
                          version = omega arith;
                          phase = omega (arith, advanced task.phase p forward);
                          control = to_self task.control_state;
                          spec = refl;
                          task_id = refl;
                          binding = λ b h. h;
                        }))
                  ])
                ])
      ])
    ])
  ])
]

pub bind-Follows :
    (now : ℕ) (t : String) (b : InputBinding) (s : Tasks) (j : String)
    → Kept j s (bind_input now t b s).1
unfolding bind_input task_of
bind-Follows now t b s j = elim (Option-cases (get s.tasks t)) [
  | inl missing ↦ rw missing (same (get s.tasks j))
  | inr (task, found) ↦ rw found (elim (Bool-cases (not (str_eq b.task_id t))) [
    | inl bad ↦ rw bad (same (get s.tasks j))
    | inr mine ↦ rw mine (elim (Option-cases task.input_binding) [
      | inr (old, bound) ↦
          rw (bound, bind_input)
            (elim (Bool-cases (binding_eq old b)) [
              | inl again ↦ rw again (same (get s.tasks j))
              | inr other ↦ rw other (same (get s.tasks j))
            ])
      | inl unbound ↦
          rw (unbound, bind_input)
            (elim (Bool-cases (not (is_normalized task.phase))) [
              | inl bad ↦ rw bad (same (get s.tasks j))
              | inr ripe ↦ rw ripe (
                  written s.tasks t j _ found (record {
                    version = omega arith;
                    phase = omega arith;
                    control = to_self task.control_state;
                    spec = refl;
                    task_id = refl;
                    binding = λ x h. absurd (none_not_some (sym unbound ∙ h));
                  }))
            ])
    ])
  ])
]

pub terminate-Follows :
    (c n : ℕ) (t : String) (v : ℕ) (why : String) (l : Option String) (k : Option ℕ) (s : Tasks)
    (j : String)
    → Kept j s (terminate c n t v why l k s).1
unfolding terminate task_of
terminate-Follows c n t v why l k s j = elim (Option-cases (get s.tasks t)) [
  | inl missing ↦ rw missing (same (get s.tasks j))
  | inr (task, found) ↦ rw found (elim (Bool-cases (is_terminal task.control_state)) [
    | inl over ↦ rw over (same (get s.tasks j))
    | inr open_task ↦ rw open_task (elim (Result-cases (may_terminate c task v l k)) [
      | inr (e, bad) ↦ rw bad (same (get s.tasks j))
      | inl (u, good) ↦ rw good (
          written s.tasks t j _ found (
            Only-Follows terminated (refl, refl, refl, refl, refl, refl)
              (to_terminated task.control_state)))
    ])
  ])
]

pub snapshot-Follows :
    (id : String) (c n : ℕ) (t : String) (r : ResultState) (cp digest : String) (s : Tasks)
    (j : String)
    → Kept j s (create_result_snapshot id c n t r cp digest s).1
unfolding create_result_snapshot task_of
snapshot-Follows id c n t r cp digest s j = elim (Option-cases (get s.tasks t)) [
  | inl missing ↦ rw missing (same (get s.tasks j))
  | inr (task, found) ↦ rw found (elim (Option-cases (get s.checkpoints t)) [
    | inl bad ↦ rw bad (same (get s.tasks j))
    | inr (cps, listed) ↦
        rw listed (elim (Bool-cases (not (any (λ x. str_eq x.checkpoint_id cp) cps))) [
          | inl bad ↦ rw bad (same (get s.tasks j))
          | inr known ↦ rw known (elim (Option-cases (get s.snapshots t)) [
            | inl bad ↦ rw bad (same (get s.tasks j))
            | inr (old, kept) ↦ rw kept (
                written s.tasks t j _ found (record {
                  version = omega arith;
                  phase = omega arith;
                  control = to_self task.control_state;
                  spec = refl;
                  task_id = refl;
                  binding = λ b h. h;
                }))
          ])
        ])
  ])
]
