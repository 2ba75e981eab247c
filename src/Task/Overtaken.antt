-- ===== src/Task/Overtaken.antt =====
-- A task that was taken over: from then on its lease, if it has one, and its token counter are above
-- the tokens given out before, whatever calls follow.
pub mod Leases
pub mod Writes
use cr_agent.Prelude.{
  ℕ, ◌+◌, ◌<◌, ◌≤◌, String, ◌≡◌, refl, sym, ◌∙◌, ap, Bool, true, false, not, ◌&&◌, ◌||◌, Option,
  none, some, List, [], ◌∷◌, ◌++◌, ◌==◌, arith, str_eq, eq_iff, any, length, Bool-cases,
  Option-cases, inl, inr, if◌then◌else◌,
}
use mathlib.Core.Path.{subst}
use cr_agent.Prelude.Hoare.{
  When, Either, Either-state, returned, bind-When, raise_if-When, or_raise-When, if-When,
}
use cr_agent.Prelude.Dict.{Dict, get, put, get-put, get-put_self, get-put_ne}
use cr_agent.Prelude.Exec.{Result, ok, err, continue, pure, raise, raise_if, ◌>>=◌, ◌>>◌}
use cr_agent.Task.Models.{
  Task, TaskSpec, Checkpoint, ExecutionLease, InputBinding, Error, Phase, ResultState, lease_valid,
  is_valid_at, review_execution, binding_eq, fixed_condition_mismatch, illegal_state_transition,
}
use cr_agent.Task.StateMachine.{advance_phase, validate_control_transition}
use cr_agent.Task.State.{
  Tasks, Action, lift, write, task_of, require_lease, require_write, new_lease, made_lease,
}
use cr_agent.Task.Leases.{
  start, started, acquire_execution, renew_lease, release_execution, resume, is_ready, is_running,
  is_terminal, is_resumable, lease_live, lease_dead, renewed,
}
use cr_agent.Task.Service.{
  create_task, complete_phase, bind_input, pause as pause_task, terminate, create_result_snapshot,
  new_task, breaks_chain, is_normalized, is_unknown, may_terminate,
}

-- The task has its id, and no lease with a token of at most `n`.
pub record IsNew (t : String) (n : ℕ) (task : Task) : Type 0 where
  pub named : task.task_id ≡ t
  pub above : (l : ExecutionLease) → task.lease ≡ some l → n < l.fencing_token

pub record Overtaken (t : String) (n : ℕ) (tasks : Dict Task) (tokens : Dict ℕ) : Type 0 where
  pub task : Task
  pub found : get tasks t ≡ some task
  pub new : IsNew t n task
  pub last : ℕ
  pub counter : get tokens t ≡ some last
  pub ahead : n < last

module _ (t : String) (n : ℕ) where
  abbrev pub Over : Tasks → Type 0
  Over s = Overtaken t n s.tasks s.fencing_tokens

  abbrev Same : {A : Type 0} → A → Tasks → Type 0
  Same a s = Over s

  done : {A : Type 0} (a : A) (s : Tasks) → Over s → Either {E = Error} Over (ok a, s)
  done a s h = returned Error Over Same a s h

  -- A task is written back.
  written :
      (j : String) {old : Task} (new : Task) (tasks : Dict Task) (tokens : Dict ℕ)
      → get tasks j ≡ some old
      → (IsNew t n old → IsNew t n new)
      → Overtaken t n tasks tokens
      → Overtaken t n (put tasks j new) tokens
  written j {old} new tasks tokens at_j keeps h = elim (Bool-cases (str_eq j t)) [
    | inl e ↦
        let same : j ≡ t = ground (arith, eq_iff j t) in
        let both : some h.task ≡ some old =
          sym h.found ∙ (ap (λ k. get tasks k) (sym same) ∙ at_j) in
        let this : h.task ≡ old = cc both in
        record {
          task = new;
          found = rw (get-put tasks j t new) (rw e refl);
          new = keeps (subst (IsNew t n) this h.new);
          last = h.last;
          counter = h.counter;
          ahead = h.ahead;
        }
    | inr e ↦ record {
      task = h.task;
      found = rw (get-put tasks j t new) (rw e h.found);
      new = h.new;
      last = h.last;
      counter = h.counter;
      ahead = h.ahead;
    }
  ]

  -- A counter goes up by one.
  counted :
      (k : String) (old : ℕ) (tasks : Dict Task) (tokens : Dict ℕ)
      → get tokens k ≡ some old
      → Overtaken t n tasks tokens
      → Overtaken t n tasks (put tokens k (old + 1))
  counted k old tasks tokens at_k h = elim (Bool-cases (str_eq k t)) [
    | inl e ↦
        let same : k ≡ t = ground (arith, eq_iff k t) in
        let both : some h.last ≡ some old =
          sym h.counter ∙ (ap (λ i. get tokens i) (sym same) ∙ at_k) in
        let this : h.last ≡ old = cc both in
        record {
          task = h.task;
          found = h.found;
          new = h.new;
          last = old + 1;
          counter = rw (get-put tokens k t (old + 1)) (rw e refl);
          ahead = omega (arith, h.ahead, this);
        }
    | inr e ↦ record {
      task = h.task;
      found = h.found;
      new = h.new;
      last = h.last;
      counter = rw (get-put tokens k t (old + 1)) (rw e h.counter);
      ahead = h.ahead;
    }
  ]

  -- The counter of the task that has just been read is above `n`.
  next_token :
      (task : Task) (old : ℕ) (tasks : Dict Task) (tokens : Dict ℕ)
      → get tokens task.task_id ≡ some old
      → Overtaken t n tasks tokens
      → IsNew t n task
      → n < old
  next_token task old tasks tokens at_k h i =
      let both : some h.last ≡ some old =
        sym h.counter ∙ (ap (λ k. get tokens k) (sym i.named) ∙ at_k) in
      let this : h.last ≡ old = cc both in omega (arith, h.ahead, this)

  -- What a new lease for the task `task`, stored at `j`, is.
  abbrev Issued : String → Task → ExecutionLease → Tasks → Type 0
  Issued j task l s = (get s.tasks j ≡ some task) × Over s × (IsNew t n task → n < l.fencing_token)

  new_lease-Issued :
      (id j owner : String) (task : Task) (now : ℕ) (s : Tasks)
      → get s.tasks j ≡ some task
      → Over s
      → When Over (Issued j task) (new_lease id task owner review_execution now s)
  unfolding new_lease
  new_lease-Issued id j owner task now s found h =
      or_raise-When Over (Issued j task) (get s.fencing_tokens task.task_id) _ s _ h (λ old e.
        raise_if-When Over (Issued j task)
          (not (lease_valid (made_lease id owner (old + 1) review_execution now))) _ _ _
          (counted task.task_id old s.tasks s.fencing_tokens e h)
          (λ f. returned Error Over (Issued j task) _ _ (
            found,
            counted task.task_id old s.tasks s.fencing_tokens e h,
            λ i.
                let less = next_token task old s.tasks s.fencing_tokens e h i in
                omega (arith, less),
          )))

  -- A task with another lease.
  with_lease :
      {old new : Task} (l : ExecutionLease)
      → new.task_id ≡ old.task_id
      → new.lease ≡ some l
      → (IsNew t n old → n < l.fencing_token)
      → IsNew t n old
      → IsNew t n new
  with_lease {new = new} l named e less i = record {
    named = named ∙ i.named;
    above = λ x g.
        let both : some l ≡ some x = sym e ∙ g in
        let this : l ≡ x = cc both in subst (λ y. n < y.fencing_token) this (less i);
  }

  without_lease :
      {old new : Task}
      → new.task_id ≡ old.task_id
      → new.lease ≡ none
      → IsNew t n old
      → IsNew t n new
  without_lease named e i = record { named = named ∙ i.named; above = λ x g. cc (e, g) }

  same_lease :
      {old new : Task}
      → new.task_id ≡ old.task_id
      → new.lease ≡ old.lease
      → IsNew t n old
      → IsNew t n new
  same_lease named e i = record { named = named ∙ i.named; above = λ x g. i.above x (sym e ∙ g) }

  start-Over :
      (id j owner : String) (task : Task) (now : ℕ) (s : Tasks)
      → get s.tasks j ≡ some task
      → Over s
      → Either Over (start id j owner task now s)
  unfolding start
  start-Over id j owner task now s found h =
      bind-When Over (Issued j task) Same (new_lease id task owner review_execution now s) _
        (new_lease-Issued id j owner task now s found h)
        (λ l s' q. done _ _ (
          written j (started task l now) s'.tasks s'.fencing_tokens q.0 (with_lease l refl refl q.2)
            q.1))

  lift-When :
      {A B : Type 0} (Q : B → Tasks → Type 0) (r : Result Error A) (s : Tasks)
      (k : A → Tasks → Result Error B × Tasks)
      → Over s
      → ((a : A) → r ≡ ok a → When Over Q (k a s))
      → When Over Q (continue (lift r s).0 k (lift r s).1)
  unfolding When
  lift-When Q (ok a) s k h g = g a refl
  lift-When Q (err e) s k h g = h
