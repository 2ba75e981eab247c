-- ===== src/Task/Calls.antt =====
-- Every call of `TaskService`, and any sequence of calls.
use cr_agent.Prelude.{
  ℕ, ◌≤◌, String, ◌≡◌, refl, Bool, true, false, Option, none, some, List, [], ◌∷◌, arith, str_eq,
  ◌∙◌,
}
use cr_agent.Prelude.Dict.{get, get-put}
use cr_agent.Task.Models.{
  Task, TaskSpec, Checkpoint, InputBinding, ControlState, Phase, ResultState, ready, running,
  paused, terminated,
}
use cr_agent.Task.StateMachine.{phase_order}
use cr_agent.Task.State.{Tasks}
use cr_agent.Task.Leases.{acquire_execution, renew_lease, release_execution, resume}
use cr_agent.Task.Service.{
  new_task, create_task, complete_phase, bind_input, pause, terminate, create_result_snapshot,
}
use cr_agent.Task.History.{Follows, Follows?, Kept, same, pause-Follows, may_step}
use cr_agent.Task.Forward.{
  acquire-Follows, renew-Follows, release-Follows, resume-Follows, complete-Follows, bind-Follows,
  terminate-Follows, snapshot-Follows,
}

-- A call with its arguments: the readings of the clock and the drawn ids come first.
pub data Call : Type 0 where
  create : String → ℕ → TaskSpec → Call
  acquire : ℕ → String → String → String → Call
  renew : ℕ → String → String → ℕ → Call
  release : ℕ → String → String → ℕ → Call
  take_over : ℕ → String → String → String → Bool → Call
  complete : ℕ → ℕ → String → ℕ → String → ℕ → Phase → Checkpoint → Call
  bind : ℕ → String → InputBinding → Call
  suspend : ℕ → ℕ → String → ℕ → String → ℕ → String → ResultState → Call
  stop : ℕ → ℕ → String → ℕ → String → Option String → Option ℕ → Call
  snapshot : String → ℕ → ℕ → String → ResultState → String → String → Call

-- The state after a call, whether it returned or raised.
unfoldable pub after : Call → Tasks → Tasks
after (create t n spec) s = (create_task t n spec s).1
after (acquire n id t o) s = (acquire_execution n id t o s).1
after (renew n t id k) s = (renew_lease n t id k s).1
after (release n t id k) s = (release_execution n t id k s).1
after (take_over n id t o b) s = (resume n id t o b s).1
after (complete c n t v l k p cp) s = (complete_phase c n t v l k p cp s).1
after (bind n t b) s = (bind_input n t b s).1
after (suspend c n t v l k w r) s = (pause c n t v l k w r s).1
after (stop c n t v w l k) s = (terminate c n t v w l k s).1
after (snapshot id c n t r cp d) s = (create_result_snapshot id c n t r cp d s).1

unfoldable pub run : List Call → Tasks → Tasks
run [] s = s
run (c ∷ cs) s = run cs (after c s)

-- No call of the list creates the task again: `uuid4()` gives new ids.
abbrev pub Spares : String → List Call → Type 0
Spares j [] = Unit
Spares j (create t n spec ∷ cs) = (str_eq t j ≡ false) × Spares j cs
Spares j (_ ∷ cs) = Spares j cs

after-Follows : (c : Call) (s : Tasks) (j : String) → Spares j (c ∷ []) → Kept j s (after c s)
unfolding after create_task
after-Follows (create t n spec) s j h =
    rw (get-put s.tasks t j (new_task t spec n)) (rw h.0 (same (get s.tasks j)))
after-Follows (acquire n id t o) s j h = acquire-Follows n id t o s j
after-Follows (renew n t id k) s j h = renew-Follows n t id k s j
after-Follows (release n t id k) s j h = release-Follows n t id k s j
after-Follows (take_over n id t o b) s j h = resume-Follows n id t o b s j
after-Follows (complete c n t v l k p cp) s j h = complete-Follows c n t v l k p cp s j
after-Follows (bind n t b) s j h = bind-Follows n t b s j
after-Follows (suspend c n t v l k w r) s j h = pause-Follows c n t v l k w r s j
after-Follows (stop c n t v w l k) s j h = terminate-Follows c n t v w l k s j
after-Follows (snapshot id c n t r cp d) s j h = snapshot-Follows id c n t r cp d s j

pub first : (j : String) (c : Call) (cs : List Call) → Spares j (c ∷ cs) → Spares j (c ∷ [])
first j (create t n spec) cs h = (h.0, tt)
first j _ cs h = tt

pub rest : (j : String) (c : Call) (cs : List Call) → Spares j (c ∷ cs) → Spares j cs
rest j (create t n spec) cs h = h.1
rest j _ cs h = h

-- What any number of calls leaves of a task.
pub record Later (old new : Task) : Type 0 where
  pub version : old.version ≤ new.version
  pub phase : phase_order old.phase ≤ phase_order new.phase
  pub stopped : old.control_state ≡ terminated → new.control_state ≡ terminated
  pub begun : new.control_state ≡ ready → old.control_state ≡ ready
  pub spec : old.spec ≡ new.spec
  pub task_id : old.task_id ≡ new.task_id
  pub binding : (b : InputBinding) → old.input_binding ≡ some b → new.input_binding ≡ some b

stays_terminated : (a b : ControlState) → may_step a b ≡ true → a ≡ terminated → b ≡ terminated
stays_terminated ready b h e = cc e
stays_terminated running b h e = cc e
stays_terminated paused b h e = cc e
stays_terminated terminated terminated h e = refl
stays_terminated terminated ready h e = cc h
stays_terminated terminated running h e = cc h
stays_terminated terminated paused h e = cc h

was_ready : (a b : ControlState) → may_step a b ≡ true → b ≡ ready → a ≡ ready
was_ready ready b h e = refl
was_ready running ready h e = cc h
was_ready paused ready h e = cc h
was_ready terminated ready h e = cc h
was_ready a running h e = cc e
was_ready a paused h e = cc e
was_ready a terminated h e = cc e

extend : {a b c : Task} → Follows a b → Later b c → Later a c
extend {a} {b} {c} f l = record {
  version = omega (arith, f.version, l.version);
  phase = omega (arith, f.phase, l.phase);
  stopped = λ e. l.stopped (stays_terminated a.control_state b.control_state f.control e);
  begun = λ e. was_ready a.control_state b.control_state f.control (l.begun e);
  spec = f.spec ∙ l.spec;
  task_id = f.task_id ∙ l.task_id;
  binding = λ x h. l.binding x (f.binding x h);
}

Later-refl : (a : Task) → Later a a
Later-refl a = record {
  version = omega arith;
  phase = omega arith;
  stopped = λ e. e;
  begun = λ e. e;
  spec = refl;
  task_id = refl;
  binding = λ b h. h;
}

next_task :
    (o : Option Task) {old : Task}
    → Follows? (some old) o
    → (new : Task) × (o ≡ some new) × Follows old new
next_task none h = absurd h
next_task (some new) h = (new, refl, h)

-- Whatever calls follow, each returning or raising, with any readings of the clock, a task that is
-- there stays there: its version and its phase never go back, once it is terminated it stays so,
-- it is never ready again once it was not, and its specification and its input binding stay.
pub run-Later :
    (cs : List Call) (s : Tasks) (j : String) {task : Task}
    → get s.tasks j ≡ some task
    → Spares j cs
    → (new : Task) × (get (run cs s).tasks j ≡ some new) × Later task new
unfolding run
run-Later [] s j {task = task} found h = (task, found, Later-refl task)
run-Later (c ∷ cs) s j {task = task} found h =
    let moved : Kept j s (after c s) = after-Follows c s j (first j c cs h) in
    let step : Follows? (some task) (get (after c s).tasks j) = (rw found at moved) in
    let (mid, there, follows) = next_task (get (after c s).tasks j) step in
    let (new, found', later) = run-Later cs (after c s) j there (rest j c cs h) in
    (new, found', extend follows later)
