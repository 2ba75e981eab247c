-- ===== src/Publication/Fencing.antt =====
-- The tokens of the publication leases (`ReviewStateStore`, application/persistence.py).
use cr_agent.Prelude.{
  ℕ, ◌+◌, String, Bool, false, ◌&&◌, ◌≡◌, ◌≢◌, refl, sym, ap, ◌∙◌, Option, none, some, List, ltb,
  ◌==◌, str_eq, if◌then◌else◌, arith,
}
use cr_agent.Prelude.Exec.{ok, err}
use cr_agent.Publication.Models.{PublicationPlan, PublicationItem}
use cr_agent.Publication.State.{Publication, PublicationLease, World, ItemRow, value_error}
use cr_agent.Publication.Store.{
  Outcome, granted, unexpired, holds_lease, without, acquire_publication_lease,
  update_publication_item, renew_publication_lease, release_publication_lease,
}

-- The call raises or says no, and writes neither the rows nor the lease.
abbrev pub Unwritten : Publication → Publication → Type 0
Unwritten s s' = (s'.rows ≡ s.rows) × (s'.lease ≡ s.lease)

-- No call with the stale token gets through in this state.
abbrev pub IsShut : World → String → ℕ → Publication → Type 0
IsShut w other stale s =
    ((key : String) (o : Outcome) (version : ℕ)
      → let r = update_publication_item w key o other stale version s in
        (r.0 ≡ err (value_error "publication_fence_lost")) × Unwritten s r.1)
    × ((extra : ℕ)
        → let r = renew_publication_lease w other stale extra s in
          (r.0 ≡ ok false) × Unwritten s r.1)
    × Unwritten s (release_publication_lease other (some stale) s)

ne→eqb : (a b : ℕ) → a ≢ b → (a == b) ≡ false
ne→eqb a b h = ground arith

and_false : (a b : Bool) → b ≡ false → (a && b) ≡ false
and_false a b h = ground arith

module _ (other : String) (stale : ℕ) (l : PublicationLease) (ne : l.fencing_token ≢ stale) where
  not_held : (now : ℕ) → holds_lease now other stale (some l) ≡ false
  not_held now =
      ap (λ b. b && ltb now l.expires_at)
        (and_false (str_eq l.owner_id other) (l.fencing_token == stale)
          (ne→eqb l.fencing_token stale ne))

  not_released : without other (some stale) (some l) ≡ some l
  not_released =
      ap (λ b. if b then none else some l)
        (and_false (str_eq l.owner_id other) (l.fencing_token == stale)
          (ne→eqb l.fencing_token stale ne))

  -- A state with this lease.
  lease-IsShut :
      (w : World) (plan : Option PublicationPlan) (rows : List ItemRow) (last_token calls : ℕ)
      (sent : List PublicationItem)
      → IsShut w other stale (record {
        plan = plan;
        rows = rows;
        lease = some l;
        last_token = last_token;
        calls = calls;
        sent = sent;
      })
  unfolding update_publication_item renew_publication_lease release_publication_lease
  lease-IsShut w plan rows last_token calls sent = (
    (λ key o version. rw (not_held (w.now calls)) (refl, (refl, refl))),
    (λ extra. rw (not_held (w.now calls)) (refl, (refl, refl))),
    (refl, not_released),
  )

granted-fences :
    (w : World) (owner_id other : String) (now seconds token stale : ℕ)
    (lease : Option PublicationLease) (s : Publication)
    → (granted now owner_id seconds lease s).0 ≡ ok (some token)
    → token ≢ stale
    → let s' = (granted now owner_id seconds lease s).1 in
      (token ≡ s.last_token + 1) × (s'.last_token ≡ token) × IsShut w other stale s'
granted-fences w owner_id other now seconds token stale (some l) s h ne = cc h
granted-fences w owner_id other now seconds token stale none s h ne =
    let e : s.last_token + 1 ≡ token = cc h in
    let new : PublicationLease = record {
      owner_id = owner_id;
      fencing_token = s.last_token + 1;
      expires_at = now + seconds;
    } in
    (
      sym e,
      e,
      lease-IsShut other stale new (λ x. ne (sym e ∙ x)) w s.plan s.rows (s.last_token + 1) s.calls
          s.sent,
    )

-- When `acquire_publication_lease` grants a token, it is the next one of the task's fence, and from
-- there no call with another token gets through, whoever makes it: an update of an item raises
-- `publication_fence_lost`, a renewal answers false, and neither these nor a release write the rows
-- or the lease.
pub acquire-fences :
    (w : World) (owner_id other : String) (seconds token stale : ℕ) (s : Publication)
    → (acquire_publication_lease w owner_id seconds s).0 ≡ ok (some token)
    → token ≢ stale
    → let s' = (acquire_publication_lease w owner_id seconds s).1 in
      (token ≡ s.last_token + 1) × (s'.last_token ≡ token) × IsShut w other stale s'
unfolding acquire_publication_lease
acquire-fences w owner_id other seconds token stale s h ne =
    granted-fences w owner_id other (w.now s.calls) seconds token stale
      (unexpired (w.now s.calls) s.lease)
      (record s { lease = unexpired (w.now s.calls) s.lease; calls = s.calls + 1 }) h ne
