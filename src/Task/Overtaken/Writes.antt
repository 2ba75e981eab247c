-- ===== src/Task/Overtaken/Writes.antt =====
-- Every call leaves a task above the tokens that were given out before it was taken over.
use cr_agent.Prelude.{
  ℕ, ◌+◌, String, ◌≡◌, refl, false, not, ◌||◌, Option, none, some, List, [], ◌∷◌, ◌==◌, str_eq, any,
  length, Bool-cases, inl, inr, if◌then◌else◌,
}
use cr_agent.Prelude.Hoare.{When, Either, Either-state, raise_if-When, or_raise-When, if-When}
use cr_agent.Prelude.Dict.{get, get-put}
use cr_agent.Prelude.Exec.{err, pure, raise, raise_if, ◌>>◌}
use cr_agent.Task.Models.{
  Task, TaskSpec, Checkpoint, InputBinding, Error, Phase, ResultState, binding_eq,
  fixed_condition_mismatch, illegal_state_transition,
}
use cr_agent.Task.StateMachine.{advance_phase, validate_control_transition}
use cr_agent.Task.State.{Tasks, Action, write, task_of, require_write}
use cr_agent.Task.Leases.{is_terminal}
use cr_agent.Task.Service.{
  create_task, complete_phase, bind_input, pause as pause_task, terminate, create_result_snapshot,
  new_task, breaks_chain, is_normalized, is_unknown, may_terminate,
}
use cr_agent.Task.Models.ControlState.{paused}
use cr_agent.Task.Overtaken.Leases.{acquire-Over, resume-Over, renew-Over, release-Over}
use cr_agent.Task.Calls.{
  Call, create, acquire, renew, release, take_over, complete, bind, suspend, stop, snapshot, after,
  run, Spares, first, rest,
}
use cr_agent.Task.Overtaken.{Over, Same, done, written, without_lease, same_lease, lift-When}

module _ (t : String) (n : ℕ) where
  create-Over :
      (j : String) (now : ℕ) (spec : TaskSpec) (s : Tasks)
      → str_eq j t ≡ false
      → Over t n s
      → Over t n (create_task j now spec s).1
  unfolding create_task
  create-Over j now spec s other h = record {
    task = h.task;
    found = rw (get-put s.tasks j t (new_task j spec now)) (rw other h.found);
    new = h.new;
    last = h.last;
    counter = rw (get-put s.fencing_tokens j t 0) (rw other h.counter);
    ahead = h.ahead;
  }

  complete-Over :
      (c now : ℕ) (j : String) (v : ℕ) (id : String) (k : ℕ) (p : Phase) (cp : Checkpoint)
      (s : Tasks)
      → Over t n s
      → Either (Over t n) (complete_phase c now j v id k p cp s)
  unfolding complete_phase task_of
  complete-Over c now j v id k p cp s h =
      or_raise-When (Over t n) (Same t n) (get s.tasks j) _ s _ h (λ task found.
        lift-When t n (Same t n) (require_write c task v id k) s _ h (λ u e.
          lift-When t n (Same t n) (advance_phase task.phase p) s _ h (λ q f.
            or_raise-When (Over t n) (Same t n) (get s.checkpoints j) _ s _ h (λ old g.
              raise_if-When (Over t n) (Same t n)
                (not (str_eq cp.task_id j) || not (cp.sequence == length old + 1)) _ s _ h
                (λ a. raise_if-When (Over t n) (Same t n) (breaks_chain cp old) _ s _ h (λ b.
                  done t n _ _ (
                    written t n j _ s.tasks s.fencing_tokens found (same_lease t n refl refl)
                      h)))))))

  -- The match of `bind_input`.
  abbrev bind_by : Option InputBinding → ℕ → String → InputBinding → Task → Action Task
  bind_by o now j binding task = elim o [
    | some b ↦ if binding_eq b binding then pure task else raise fixed_condition_mismatch
    | none ↦ do
      raise_if (not (is_normalized task.phase)) illegal_state_transition
      let updated = record task {
        input_binding = some binding;
        version = task.version + 1;
        updated_at = now;
      }
      write j updated
      pure updated
  ]

  raised : (A : Type 0) (e : Error) (s : Tasks) → Over t n s → Either (Over t n) {A = A} (err e, s)
  unfolding When
  raised A e s h = h

  bind_by-Over :
      (o : Option InputBinding) (now : ℕ) (j : String) (b : InputBinding) (task : Task) (s : Tasks)
      → get s.tasks j ≡ some task
      → Over t n s
      → Either (Over t n) (bind_by o now j b task s)
  bind_by-Over (some x) now j b task s found h =
      if-When (Over t n) (Same t n) (binding_eq x b) _ _ s (λ a. done t n _ s h)
        (λ a. raised _ _ s h)
  bind_by-Over none now j b task s found h =
      raise_if-When (Over t n) (Same t n) (not (is_normalized task.phase)) _ s _ h (λ a.
        done t n _ _ (written t n j _ s.tasks s.fencing_tokens found (same_lease t n refl refl) h))

  bind-Over :
      (now : ℕ) (j : String) (b : InputBinding) (s : Tasks)
      → Over t n s
      → Either (Over t n) (bind_input now j b s)
  unfolding bind_input task_of
  bind-Over now j b s h = or_raise-When (Over t n) (Same t n) (get s.tasks j) _ s _ h (λ task found.
      raise_if-When (Over t n) (Same t n) (not (str_eq b.task_id j)) _ s _ h
        (λ a. bind_by-Over task.input_binding now j b task s found h))

  pause-Over :
      (c now : ℕ) (j : String) (v : ℕ) (id : String) (k : ℕ) (why : String) (r : ResultState)
      (s : Tasks)
      → Over t n s
      → Either (Over t n) (pause_task c now j v id k why r s)
  unfolding pause_task task_of
  pause-Over c now j v id k why r s h =
      or_raise-When (Over t n) (Same t n) (get s.tasks j) _ s _ h (λ task found.
        lift-When t n (Same t n) (require_write c task v id k) s _ h (λ u e.
          lift-When t n (Same t n) (validate_control_transition task.control_state paused) s _ h
            (λ w f. elim (Bool-cases (is_unknown r)) [
              | inl a ↦ rw a (
                  done t n _ _ (
                    written t n j _ s.tasks s.fencing_tokens found (without_lease t n refl refl) h))
              | inr a ↦ rw a (
                  done t n _ _ (
                    written t n j _ s.tasks s.fencing_tokens found (without_lease t n refl refl) h))
            ])))

  terminate-Over :
      (c now : ℕ) (j : String) (v : ℕ) (why : String) (id : Option String) (k : Option ℕ)
      (s : Tasks)
      → Over t n s
      → Either (Over t n) (terminate c now j v why id k s)
  unfolding terminate task_of
  terminate-Over c now j v why id k s h =
      or_raise-When (Over t n) (Same t n) (get s.tasks j) _ s _ h (λ task found.
        if-When (Over t n) (Same t n) (is_terminal task.control_state) _ _ s (λ a. done t n _ s h)
          (λ a. lift-When t n (Same t n) (may_terminate c task v id k) s _ h (λ u e.
            done t n _ _
              (written t n j _ s.tasks s.fencing_tokens found (without_lease t n refl refl) h))))

  snapshot-Over :
      (id : String) (c now : ℕ) (j : String) (r : ResultState) (cp d : String) (s : Tasks)
      → Over t n s
      → Either (Over t n) (create_result_snapshot id c now j r cp d s)
  unfolding create_result_snapshot task_of
  snapshot-Over id c now j r cp d s h =
      or_raise-When (Over t n) (Same t n) (get s.tasks j) _ s _ h (λ task found.
        or_raise-When (Over t n) (Same t n) (get s.checkpoints j) _ s _ h (λ cps f.
          raise_if-When (Over t n) (Same t n) (not (any (λ x. str_eq x.checkpoint_id cp) cps)) _ s _
            h
            (λ a. or_raise-When (Over t n) (Same t n) (get s.snapshots j) _ s _ h (λ old g.
              done t n _ _
                (written t n j _ s.tasks s.fencing_tokens found (same_lease t n refl refl) h)))))

  after-Over : (c : Call) (s : Tasks) → Spares t (c ∷ []) → Over t n s → Over t n (after c s)
  unfolding after
  after-Over (create j now spec) s f h = create-Over j now spec s f.0 h
  after-Over (acquire now id j o) s f h =
      Either-state (Over t n) _ (acquire-Over t n now id j o s h)
  after-Over (renew now j id k) s f h = Either-state (Over t n) _ (renew-Over t n now j id k s h)
  after-Over (release now j id k) s f h =
      Either-state (Over t n) _ (release-Over t n now j id k s h)
  after-Over (take_over now id j o b) s f h =
      Either-state (Over t n) _ (resume-Over t n now id j o b s h)
  after-Over (complete c now j v l k p cp) s f h =
      Either-state (Over t n) _ (complete-Over c now j v l k p cp s h)
  after-Over (bind now j b) s f h = Either-state (Over t n) _ (bind-Over now j b s h)
  after-Over (suspend c now j v l k w r) s f h =
      Either-state (Over t n) _ (pause-Over c now j v l k w r s h)
  after-Over (stop c now j v w l k) s f h =
      Either-state (Over t n) _ (terminate-Over c now j v w l k s h)
  after-Over (snapshot id c now j r cp d) s f h =
      Either-state (Over t n) _ (snapshot-Over id c now j r cp d s h)

  pub run-Over : (cs : List Call) (s : Tasks) → Spares t cs → Over t n s → Over t n (run cs s)
  unfolding run
  run-Over [] s f h = h
  run-Over (c ∷ cs) s f h =
      run-Over cs (after c s) (rest t c cs f) (after-Over c s (first t c cs f) h)
