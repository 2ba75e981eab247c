-- ===== src/Task/StateMachine.antt =====
-- The transition rules (domain/task/state_machine.py).
use cr_agent.Prelude.{ℕ, Bool, true, false, leb, if◌then◌else◌}
use cr_agent.Prelude.Exec.{Result, ok, err}
use cr_agent.Task.Models.{
  ControlState, Phase, Error, illegal_state_transition, ready, running, paused, terminated,
}

abbrev pub phase_order : Phase → ℕ
phase_order Phase.created = 0
phase_order Phase.input_acquired = 1
phase_order Phase.input_normalized = 2
phase_order Phase.planned = 3
phase_order Phase.reviewing = 4
phase_order Phase.consolidating = 5
phase_order Phase.result_finalized = 6

unfoldable pub advance_phase : Phase → Phase → Result Error Phase
advance_phase current target =
    if leb (phase_order target) (phase_order current)
    then err illegal_state_transition
    else ok target

-- The table `allowed`.
abbrev pub allowed : ControlState → ControlState → Bool
allowed ready running = true
allowed ready paused = true
allowed ready terminated = true
allowed running paused = true
allowed running terminated = true
allowed paused running = true
allowed paused terminated = true
allowed terminated terminated = true
allowed _ _ = false

abbrev pub is_terminated : ControlState → Bool
is_terminated terminated = true
is_terminated _ = false

unfoldable pub validate_control_transition : ControlState → ControlState → Result Error Unit
validate_control_transition current target =
    if is_terminated current
    then (if is_terminated target then ok tt else err illegal_state_transition)
    else if allowed current target
    then ok tt
    else err illegal_state_transition
