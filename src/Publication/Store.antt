-- ===== src/Publication/Store.antt =====
-- The publication tables of `ReviewStateStore` (application/persistence.py), for one task. A plan is
-- read back as it was saved: its JSON and the checks of that are left out.
use cr_agent.Prelude.{
  ℕ, ◌+◌, String, Bool, true, false, not, ◌&&◌, none, some, Option, List, [], ◌∷◌, any, length,
  keep, map, leb, ltb, ◌==◌, str_eq, if◌then◌else◌,
}
use cr_agent.Prelude.Exec.{ok, pure, gets, raise_if, modify, or_raise, ◌>>=◌, ◌>>◌}
use cr_agent.Publication.Models.{
  ItemKind, ItemState, PublicationItem, PublicationPlan, PublicationResult, ItemResult, is_line,
  is_succeeded, is_failed, is_unknown, aggregate_state,
}
use cr_agent.Publication.State.{
  ItemRow, PublicationLease, Publication, World, Action, ask, value_error,
}

unfoldable pub publication_plan : Action PublicationPlan
publication_plan = do or_raise (← gets (λ s. s.plan)) (value_error "publication_not_found")

abbrev pub same_kind : ItemKind → ItemKind → Bool
same_kind a b = if is_line a then is_line b else not (is_line b)

-- The rows are those of the plan, in its order.
abbrev pub rows_match : List ItemRow → List PublicationItem → Bool
rows_match [] [] = true
rows_match (r ∷ rs) (i ∷ is) =
    str_eq r.publication_key i.publication_key && same_kind r.kind i.kind && rows_match rs is
rows_match _ _ = false

abbrev pub item_result : ItemRow → ItemResult
item_result r = record {
  publication_key = r.publication_key;
  kind = r.kind;
  state = r.state;
  remote_id = r.remote_id;
  remote_url = r.remote_url;
  error_code = r.error_code;
  version = r.version;
}

abbrev pub result_of : PublicationPlan → List ItemResult → PublicationResult
result_of plan items = record {
  task_id = plan.task_id;
  publication_id = plan.publication_id;
  state = aggregate_state items;
  published = length (keep (λ i. is_succeeded i.state) items);
  skipped = 0;
  failed = length (keep (λ i. is_failed i.state) items);
  unknown = length (keep (λ i. is_unknown i.state) items);
  items = items;
}

unfoldable pub publication_result : Action PublicationResult
publication_result = do
  plan ← publication_plan
  rows ← gets (λ s. s.rows)
  raise_if (not (rows_match rows plan.items)) (value_error "persistence_integrity_failed")
  pure (result_of plan (map item_result rows))

-- The lease is held by this owner with this token, at the time `now`.
abbrev pub holds_lease : ℕ → String → ℕ → Option PublicationLease → Bool
holds_lease now owner_id fencing_token none = false
holds_lease now owner_id fencing_token (some l) =
    str_eq l.owner_id owner_id && l.fencing_token == fencing_token && ltb now l.expires_at

-- What `update_publication_item` writes.
pub record Outcome : Type 0 where
  pub state : ItemState
  pub remote_id : Option String
  pub remote_url : Option String
  pub error_code : Option String

abbrev pub is_row : String → ℕ → ItemRow → Bool
is_row key version r = str_eq r.publication_key key && r.version == version

abbrev pub written : Outcome → ℕ → ItemRow → ItemRow
written o fencing_token r = record r {
  state = o.state;
  remote_id = o.remote_id;
  remote_url = o.remote_url;
  error_code = o.error_code;
  version = r.version + 1;
  fencing_token = fencing_token;
}

-- The guarded `UPDATE`: no row is updated unless its version is the expected one and the lease is
-- held, and then the error is raised.
unfoldable pub update_publication_item : World → String → Outcome → String → ℕ → ℕ → Action Unit
update_publication_item world key o owner_id fencing_token expected_version = do
  now ← ask world.now
  s ← gets (λ s. s)
  raise_if
      (not (
        holds_lease now owner_id fencing_token s.lease && any (is_row key expected_version) s.rows))
      (value_error "publication_fence_lost")
  modify (λ s. record s {
    rows = map (λ r. if is_row key expected_version r then written o fencing_token r else r) s.rows;
  })

-- `DELETE ... WHERE expires_at <= now`
abbrev pub unexpired : ℕ → Option PublicationLease → Option PublicationLease
unexpired now none = none
unexpired now (some l) = if leb l.expires_at now then none else some l

-- `SELECT 1`, then the next token and the new lease.
abbrev pub granted : ℕ → String → ℕ → Option PublicationLease → Action (Option ℕ)
granted now owner_id seconds (some l) s = (ok none, s)
granted now owner_id seconds none s =
    let token = s.last_token + 1 in
    (
      ok (some token),
      record s {
        last_token = token;
        lease =
            some
              (record { owner_id = owner_id; fencing_token = token; expires_at = now + seconds });
      },
    )

unfoldable pub acquire_publication_lease : World → String → ℕ → Action (Option ℕ)
acquire_publication_lease world owner_id seconds = do
  now ← ask world.now
  modify (λ s. record s { lease = unexpired now s.lease })
  lease ← gets (λ s. s.lease)
  granted now owner_id seconds lease

abbrev pub without : String → Option ℕ → Option PublicationLease → Option PublicationLease
without owner_id token none = none
without owner_id none (some l) = if str_eq l.owner_id owner_id then none else some l
without owner_id (some t) (some l) =
    if str_eq l.owner_id owner_id && l.fencing_token == t then none else some l

unfoldable pub release_publication_lease : String → Option ℕ → Publication → Publication
release_publication_lease owner_id token s = record s { lease = without owner_id token s.lease }

abbrev pub extended : ℕ → Option PublicationLease → Option PublicationLease
extended t none = none
extended t (some l) = some (record l { expires_at = t })

unfoldable pub renew_publication_lease : World → String → ℕ → ℕ → Action Bool
renew_publication_lease world owner_id fencing_token seconds = do
  now ← ask world.now
  lease ← gets (λ s. s.lease)
  let held = holds_lease now owner_id fencing_token lease
  modify (λ s. record s { lease = if held then extended (now + seconds) s.lease else s.lease })
  pure held
