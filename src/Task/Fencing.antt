-- ===== src/Task/Fencing.antt =====
-- Fencing: once a task has been taken over, no earlier lease is renewed or released, completes a
-- phase or pauses the task, whatever calls follow, nor stops the task while it is running. A task
-- that is not running is terminated without a look at any lease.
use mathlib.Core.Path.{subst}
use cr_agent.Prelude.{
  ◌<◌, sym, ap, ◌∙◌, none, Option-cases, ℕ, ◌+◌, ◌≤◌, String, ◌≡◌, refl, ◌≢◌, Bool, true, false,
  not, ◌&&◌, ◌⊎◌, inl, inr, some, List, ◌==◌, arith, str_eq, Bool-cases, if◌then◌else◌, any,
}
use cr_agent.Prelude.Dict.{get, get-put_self}
use cr_agent.Prelude.Exec.{Result, ok, err, Result-cases}
use cr_agent.Task.Models.{
  Task, Checkpoint, ExecutionLease, Error, Phase, ResultState, ControlState, lease_lost,
  lease_valid, version_conflict, review_execution,
}
use cr_agent.Task.State.{Tasks, task_of, require_lease, require_write, new_lease, made_lease}
use cr_agent.Task.Leases.{
  start, started, renew_lease, release_execution, resume, is_running, is_terminal, is_resumable,
  lease_live,
}
use cr_agent.Task.Overtaken.{Over}
use cr_agent.Task.Overtaken.Writes.{run-Over}
use cr_agent.Task.Calls.{Call, run, Spares}
use cr_agent.Task.Service.{complete_phase, pause, terminate}

-- The call raises that the lease is lost or the version stale, and changes nothing.
abbrev pub Turned : {A : Type 0} → Tasks → Result Error A × Tasks → Type 0
Turned s (ok a, s') = ⊥
Turned s (err lease_lost, s') = s' ≡ s
Turned s (err version_conflict, s') = s' ≡ s
Turned s (err e, s') = ⊥

abbrev pub running_at : String → Tasks → Bool
running_at t s = elim (get s.tasks t) [ none ↦ false | some task ↦ is_running task.control_state ]

-- A holder of the lease `l` with the token `k` gets nothing done on the task `t`; it may terminate it
-- where the task is not running, as anybody may.
pub record IsFenced (t l : String) (k : ℕ) (s : Tasks) : Type 0 where
  pub renew : (now : ℕ) → Turned s (renew_lease now t l k s)
  pub release : (now : ℕ) → Turned s (release_execution now t l k s)
  pub complete :
      (c n v : ℕ) (p : Phase) (cp : Checkpoint) → Turned s (complete_phase c n t v l k p cp s)
  pub pause : (c n v : ℕ) (why : String) (r : ResultState) → Turned s (pause c n t v l k why r s)
  pub stop :
      (c n v : ℕ) (why : String)
      → if running_at t s then Turned s (terminate c n t v why (some l) (some k) s) else Unit

runs_on : (c : ControlState) → is_running c ≡ true → is_terminal c ≡ false
runs_on ControlState.running h = refl
runs_on ControlState.ready h = cc h
runs_on ControlState.paused h = cc h
runs_on ControlState.terminated h = cc h

module _ (t l : String) (k : ℕ) (s : Tasks) {task : Task} (found : get s.tasks t ≡ some task)
    (other : (lease : ExecutionLease) → task.lease ≡ some lease → lease.fencing_token ≢ k) where
  no_lease : require_lease task l k ≡ err lease_lost
  unfolding require_lease
  no_lease = elim (Option-cases task.lease) [
    | inl e ↦ ground arith
    | inr (x, e) ↦ let differ = other x e in ground arith
  ]

  no_write :
      (c v : ℕ)
      → require_write c task v l k
        ≡ (if task.version == v then err lease_lost else err version_conflict)
  unfolding require_write
  no_write c v = elim (Bool-cases (task.version == v)) [ inl e ↦ rw e (rw no_lease) | inr e ↦ rw e ]

  -- The error of `require_write`, whichever it is.
  refusal :
      (c v : ℕ)
      → (require_write c task v l k ≡ err lease_lost)
        ⊎ (require_write c task v l k ≡ err version_conflict)
  refusal c v = elim (Bool-cases (task.version == v)) [
    | inl e ↦ inl (rw (no_write c v) (rw e))
    | inr e ↦ inr (rw (no_write c v) (rw e))
  ]

  no_complete :
      (c n v : ℕ) (p : Phase) (cp : Checkpoint) → Turned s (complete_phase c n t v l k p cp s)
  unfolding complete_phase task_of
  no_complete c n v p cp = elim (refusal c v) [
    | inl e ↦ rw found (rw e refl)
    | inr e ↦ rw found (rw e refl)
  ]

  no_pause : (c n v : ℕ) (why : String) (r : ResultState) → Turned s (pause c n t v l k why r s)
  unfolding pause task_of
  no_pause c n v why r = elim (refusal c v) [
    | inl e ↦ rw found (rw e refl)
    | inr e ↦ rw found (rw e refl)
  ]

  no_stop :
      (c n v : ℕ) (why : String)
      → is_running task.control_state ≡ true
      → is_terminal task.control_state ≡ false
      → Turned s (terminate c n t v why (some l) (some k) s)
  unfolding terminate task_of
  no_stop c n v why runs open_task = elim (refusal c v) [
    | inl e ↦ rw found (rw open_task (rw runs (rw e refl)))
    | inr e ↦ rw found (rw open_task (rw runs (rw e refl)))
  ]

  no_stop_cases :
      (c n v : ℕ) (why : String)
      → if running_at t s then Turned s (terminate c n t v why (some l) (some k) s) else Unit
  no_stop_cases c n v why = elim (Bool-cases (is_running task.control_state)) [
    | inr idle ↦ let off : running_at t s ≡ false = rw (found, running_at) idle in rw off tt
    | inl runs ↦
        let on : running_at t s ≡ true = rw (found, running_at) runs in
        rw on (no_stop c n v why runs (runs_on task.control_state runs))
  ]

  pub fenced : IsFenced t l k s
  unfolding renew_lease release_execution task_of
  fenced = record {
    renew = λ now. rw found (rw no_lease refl);
    release = λ now. rw found (rw no_lease refl);
    complete = no_complete;
    pause = no_pause;
    stop = no_stop_cases;
  }

pub Over-IsFenced :
    (t : String) (n : ℕ) (s : Tasks) → Over t n s → (l : String) (k : ℕ) → k ≤ n → IsFenced t l k s
Over-IsFenced t n s h l k old =
    fenced t l k s h.found
      (λ x e same. let above = h.new.above x e in absurd (omega (arith, above, same)))

-- What `_new_lease` gives out: the token after the last one.
new_lease_token :
    (id owner : String) (task : Task) (now n : ℕ) (s : Tasks)
    → get s.fencing_tokens task.task_id ≡ some n
    → {lease : ExecutionLease} → (new_lease id task owner review_execution now s).0 ≡ ok lease
    → lease.fencing_token ≡ n + 1
unfolding new_lease
new_lease_token id owner task now n s counter h = ground arith

new_lease_counter :
    (id owner : String) (task : Task) (now n : ℕ) (s : Tasks)
    → get s.fencing_tokens task.task_id ≡ some n
    → get (new_lease id task owner review_execution now s).1.fencing_tokens task.task_id
      ≡ some (n + 1)
unfolding new_lease
new_lease_counter id owner task now n s counter =
    rw counter (elim (Bool-cases (lease_valid (made_lease id owner (n + 1) review_execution now))) [
      | inl e ↦ rw e (get-put_self s.fencing_tokens task.task_id (n + 1))
      | inr e ↦ rw e (get-put_self s.fencing_tokens task.task_id (n + 1))
    ])

abbrev pub AfterOk : {A : Type 0} → (Tasks → Type 0) → Result Error A × Tasks → Type 0
AfterOk P (ok a, s) = P s
AfterOk P (err e, s) = Unit

start-Over_new :
    (id t owner : String) (task : Task) (now n : ℕ) (s : Tasks)
    → task.task_id ≡ t
    → get s.fencing_tokens task.task_id ≡ some n
    → AfterOk (Over t n) (start id t owner task now s)
unfolding start
start-Over_new id t owner task now n s named counter =
    elim (Result-cases (new_lease id task owner review_execution now s).0) [
      | inr (e, bad) ↦ rw bad tt
      | inl (lease, good) ↦
          let s' : Tasks = (new_lease id task owner review_execution now s).1 in
          rw good (record {
            task = started task lease now;
            found = get-put_self s'.tasks t (started task lease now);
            new = record {
              named = named;
              above = λ l e.
                  let this : lease ≡ l = cc e in
                  let token = new_lease_token id owner task now n s counter good in
                  subst (λ x. n < x.fencing_token) this (omega (arith, token));
            };
            last = n + 1;
            counter =
                ap (λ i. get s'.fencing_tokens i) (sym named)
                ∙ new_lease_counter id owner task now n s counter;
            ahead = omega arith;
          })
    ]

started_of :
    {A : Type 0} (P : Tasks → Type 0) (p : Result Error A × Tasks) {a : A}
    → p.0 ≡ ok a
    → AfterOk P p
    → P p.1
started_of P (ok b, s) e h = h
started_of P (err x, s) e h = cc e

-- Whenever `resume` succeeds on a task whose token counter stands at `n`, then, whatever calls follow,
-- but for one that creates a task with the same id again, the holder of any lease with a token of at
-- most `n` can no longer renew or release the lease, complete a phase or pause the task, nor stop it
-- where it is running: each call raises `lease_lost` or `version_conflict` and changes nothing. Of a
-- task that is not running nothing is said about stopping it: no lease is checked there.
pub resume-fences :
    (now : ℕ) (id t owner : String) (confirm : Bool) (s : Tasks) {task : Task} {n : ℕ}
    → get s.tasks t ≡ some task
    → task.task_id ≡ t
    → get s.fencing_tokens task.task_id ≡ some n
    → (cs : List Call) → Spares t cs
    → (l : String) (k : ℕ) → k ≤ n
    → AfterOk (λ s'. IsFenced t l k (run cs s')) (resume now id t owner confirm s)
unfolding resume task_of
resume-fences now id t owner confirm s {task = task} {n = n} found named counter cs new_ids l k
      old =
    rw found (elim (Bool-cases (is_terminal task.control_state)) [
      | inl bad ↦ rw bad tt
      | inr open_task ↦
          rw open_task
            (elim (Bool-cases (is_running task.control_state && lease_live task.lease now)) [
              | inl bad ↦ rw bad tt
              | inr free ↦ rw free (elim (Bool-cases (not (is_resumable task.control_state))) [
                | inl bad ↦ rw bad tt
                | inr able ↦
                    rw able (elim (Bool-cases (any (str_eq t) s.unknown_attempts && not confirm)) [
                      | inl bad ↦ rw bad tt
                      | inr told ↦ rw told (elim (Result-cases (start id t owner task now s).0) [
                        | inr (e, bad) ↦ rw bad tt
                        | inl (p, good) ↦ rw good (
                            let from : Over t n (start id t owner task now s).1 =
                              started_of (Over t n) (start id t owner task now s) good
                                (start-Over_new id t owner task now n s named counter) in
                            Over-IsFenced t n _ (run-Over t n cs _ new_ids from) l k old)
                      ])
                    ])
              ])
            ])
    ])
