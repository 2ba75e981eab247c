-- ===== src/Task/Overtaken/Leases.antt =====
-- Getting, renewing, releasing and taking over the right to work on a task keep it above the tokens
-- that were given out before.
use cr_agent.Prelude.{ℕ, ◌<◌, String, ◌≡◌, refl, Bool, not, ◌&&◌, some, arith, str_eq, any}
use cr_agent.Prelude.Hoare.{Either, bind-When, raise_if-When, or_raise-When}
use cr_agent.Prelude.Dict.{get}
use cr_agent.Prelude.Exec.{ok}
use cr_agent.Task.Models.{Task, ExecutionLease, lease_valid, is_valid_at}
use cr_agent.Task.State.{Tasks, task_of, require_lease}
use cr_agent.Task.Leases.{
  start, acquire_execution, renew_lease, release_execution, resume, is_ready, is_running,
  is_terminal, is_resumable, lease_live, lease_dead, renewed,
}
use cr_agent.Task.Overtaken.{IsNew, Over, Same, done, written, start-Over, with_lease, lift-When}

module _ (t : String) (n : ℕ) where
  pub acquire-Over :
      (now : ℕ) (id j owner : String) (s : Tasks)
      → Over t n s
      → Either (Over t n) (acquire_execution now id j owner s)
  unfolding acquire_execution task_of
  acquire-Over now id j owner s h =
      or_raise-When (Over t n) (Same t n) (get s.tasks j) _ s _ h (λ task found.
        raise_if-When (Over t n) (Same t n)
          (not (is_ready task.control_state)
            && (is_running task.control_state && lease_dead task.lease now))
          _ s _ h
          (λ a.
            raise_if-When (Over t n) (Same t n) (not (is_ready task.control_state)) _ s _ h (λ b.
              raise_if-When (Over t n) (Same t n) (lease_live task.lease now) _ s _ h
                (λ c. start-Over t n id j owner task now s found h))))

  pub resume-Over :
      (now : ℕ) (id j owner : String) (confirm : Bool) (s : Tasks)
      → Over t n s
      → Either (Over t n) (resume now id j owner confirm s)
  unfolding resume task_of
  resume-Over now id j owner confirm s h =
      or_raise-When (Over t n) (Same t n) (get s.tasks j) _ s _ h (λ task found.
        raise_if-When (Over t n) (Same t n) (is_terminal task.control_state) _ s _ h (λ a.
          raise_if-When (Over t n) (Same t n)
            (is_running task.control_state && lease_live task.lease now) _ s _ h
            (λ b.
              raise_if-When (Over t n) (Same t n) (not (is_resumable task.control_state)) _ s _ h
                (λ c.
                  raise_if-When (Over t n) (Same t n)
                    (any (str_eq j) s.unknown_attempts && not confirm) _ s _ h
                    (λ d.
                      bind-When (Over t n) (Same t n) (Same t n) (start id j owner task now s) _
                        (start-Over t n id j owner task now s found h)
                        (λ p s' g. done t n _ _ g))))))

  -- The lease that is required is that of the task.
  require_lease_own :
      (task : Task) (id : String) (k : ℕ) (l : ExecutionLease)
      → require_lease task id k ≡ ok l
      → task.lease ≡ some l
  unfolding require_lease
  require_lease_own task id k l e = ground arith

  -- A lease that goes on keeps its token.
  own_token :
      (task : Task) (id : String) (k : ℕ) (l : ExecutionLease)
      → require_lease task id k ≡ ok l
      → IsNew t n task
      → n < l.fencing_token
  own_token task id k l e i = i.above l (require_lease_own task id k l e)

  pub renew-Over :
      (now : ℕ) (j id : String) (k : ℕ) (s : Tasks)
      → Over t n s
      → Either (Over t n) (renew_lease now j id k s)
  unfolding renew_lease task_of
  renew-Over now j id k s h =
      or_raise-When (Over t n) (Same t n) (get s.tasks j) _ s _ h (λ task found.
        lift-When t n (Same t n) (require_lease task id k) s _ h (λ l e.
          raise_if-When (Over t n) (Same t n) (not (is_valid_at l now)) _ s _ h (λ a.
            raise_if-When (Over t n) (Same t n) (not (lease_valid (renewed l now))) _ s _ h (λ b.
              done t n _ _ (
                written t n j (record task { lease = some (renewed l now) }) s.tasks
                  s.fencing_tokens found
                  (with_lease t n (renewed l now) refl refl (own_token task id k l e)) h)))))

  pub release-Over :
      (now : ℕ) (j id : String) (k : ℕ) (s : Tasks)
      → Over t n s
      → Either (Over t n) (release_execution now j id k s)
  unfolding release_execution task_of
  release-Over now j id k s h =
      or_raise-When (Over t n) (Same t n) (get s.tasks j) _ s _ h (λ task found.
        lift-When t n (Same t n) (require_lease task id k) s _ h (λ l e. done t n _ _ (
          written t n j
            (record task { lease = some (record l { released_at = some now }); updated_at = now })
            s.tasks s.fencing_tokens found
            (with_lease t n (record l { released_at = some now }) refl refl
              (own_token task id k l e))
            h)))
