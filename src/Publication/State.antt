-- ===== src/Publication/State.antt =====
-- The rows that application/persistence.py keeps for the publication of one task (every statement
-- of the publication selects one `task_id`), and the outside world that the service asks.
use cr_agent.Prelude.{ℕ, ◌+◌, String, none, some, Option, List, [], ◌∷◌, ◌++◌}
use cr_agent.Prelude.Dict.{Dict}
use cr_agent.Prelude.Exec.{Result, ok, err, Exec}
use cr_agent.Publication.Models.{
  ItemKind, ItemState, PublicationTarget, PublicationItem, PublicationPlan, RemoteTargetState,
  RemoteComment, PublicationError,
}

-- `PublicationError`, which the service catches around the remote calls, and every other exception,
-- by its message.
pub data Error : Type 0 where
  publication : PublicationError → Error
  value_error : String → Error

-- A row of `review_publication_items`; the rows are in the order of `ordinal`.
pub record ItemRow : Type 0 where
  pub publication_key : String
  pub kind : ItemKind
  pub state : ItemState
  pub remote_id : Option String
  pub remote_url : Option String
  pub error_code : Option String
  pub version : ℕ
  pub fencing_token : ℕ

-- The row of `review_publication_leases`, times in seconds.
pub record PublicationLease : Type 0 where
  pub owner_id : String
  pub fencing_token : ℕ
  pub expires_at : ℕ

-- `last_token` is that of `review_publication_fences`, 0 without a row. `calls` counts what was
-- asked of the world so far; `sent` lists the items that a remote comment was requested for.
pub record Publication : Type 0 where
  pub plan : Option PublicationPlan
  pub rows : List ItemRow
  pub lease : Option PublicationLease
  pub last_token : ℕ
  pub calls : ℕ
  pub sent : List PublicationItem

-- What each call outside answers, which may differ from call to call: the clock, the methods of
-- `RemotePublisherPort`, the scanner (none: it raises) and `append_trace_event` (some e: it raises e).
pub record World : Type 0 where
  pub now : ℕ → ℕ
  pub verify_target : ℕ → PublicationTarget → Result PublicationError RemoteTargetState
  pub find_markers :
      ℕ → PublicationTarget → List String → Result PublicationError (Dict RemoteComment)
  pub create_line_comment :
      ℕ → PublicationTarget → PublicationItem → Result PublicationError RemoteComment
  pub create_summary_comment :
      ℕ → PublicationTarget → PublicationItem → Result PublicationError RemoteComment
  pub scan : ℕ → String → Option (Option String)
  pub append_trace_event : ℕ → String → Option Error

abbrev pub Action : Type 0 → Type 0
Action = Exec Publication Error

abbrev pub ask : {A : Type 0} → (ℕ → A) → Action A
ask f s = (ok (f s.calls), record s { calls = s.calls + 1 })

-- The request for a remote comment is made.
abbrev pub note : PublicationItem → Action Unit
note i s = (ok tt, record s { sent = s.sent ++ (i ∷ []) })

-- `try: m finally: f`, where f does not raise.
abbrev pub finally : {A : Type 0} → Action A → (Publication → Publication) → Action A
finally m f s = let (r, s') = m s in (r, f s')

abbrev pub raised : Option Error → Action Unit
raised none s = (ok tt, s)
raised (some e) s = (err e, s)
