-- ===== src/Publication/Models.antt =====
-- Contracts of the remote publication (domain/publication/models.py).
use cr_agent.Prelude.{
  ℕ, String, Bool, true, false, not, ◌&&◌, Option, none, some, List, [], ◌∷◌, any, all, last?,
  is_some, str_eq, if◌then◌else◌,
}

pub data ItemKind : Type 0 where
  line summary : ItemKind

pub data ItemState : Type 0 where
  pending succeeded failed unknown : ItemState

pub data PublicationState : Type 0 where
  pending succeeded partial failed unknown : PublicationState

pub record PublicationTarget : Type 0 where
  pub platform : String
  pub source_url : String
  pub repository : String
  pub number : ℕ
  pub base_sha : String
  pub start_sha : String
  pub head_sha : String

pub record PublicationPosition : Type 0 where
  pub path : String
  pub old_path : String
  pub new_path : String
  pub line : ℕ
  pub side : String

pub record PublicationItem : Type 0 where
  pub publication_key : String
  pub kind : ItemKind
  pub body : String
  pub body_digest : String
  pub marker : String
  pub finding_id : Option String
  pub position : Option PublicationPosition

abbrev pub is_line : ItemKind → Bool
is_line ItemKind.line = true
is_line ItemKind.summary = false

-- The check of `PublicationItem.__post_init__`.
abbrev pub item_valid : PublicationItem → Bool
item_valid i =
    if is_line i.kind
    then is_some i.finding_id && is_some i.position
    else not (is_some i.position) && not (is_some i.finding_id)

pub record PublicationPlan : Type 0 where
  pub publication_id : String
  pub task_id : String
  pub snapshot_id : String
  pub snapshot_version : ℕ
  pub target : PublicationTarget
  pub items : List PublicationItem

abbrev pub ends_in_summary : List PublicationItem → Bool
ends_in_summary items = elim (last? items) [ none ↦ false | some i ↦ not (is_line i.kind) ]

-- `len(keys) == len(set(keys))`
abbrev pub keys_unique : List PublicationItem → Bool
keys_unique [] = true
keys_unique (i ∷ is) =
    not (any (λ j. str_eq i.publication_key j.publication_key) is) && keys_unique is

-- The check of `PublicationPlan.__post_init__`.
abbrev pub plan_valid : PublicationPlan → Bool
plan_valid p = ends_in_summary p.items && keys_unique p.items

pub record RemoteTargetState : Type 0 where
  pub is_open : Bool
  pub head_sha : String

pub record RemoteComment : Type 0 where
  pub remote_id : String
  pub url : String

pub record ItemResult : Type 0 where
  pub publication_key : String
  pub kind : ItemKind
  pub state : ItemState
  pub remote_id : Option String
  pub remote_url : Option String
  pub error_code : Option String
  pub version : ℕ

pub record PublicationResult : Type 0 where
  pub task_id : String
  pub publication_id : String
  pub state : PublicationState
  pub published : ℕ
  pub skipped : ℕ
  pub failed : ℕ
  pub unknown : ℕ
  pub items : List ItemResult

pub record PublicationError : Type 0 where
  pub code : String
  pub outcome_unknown : Bool

abbrev pub is_succeeded : ItemState → Bool
is_succeeded ItemState.succeeded = true
is_succeeded _ = false

abbrev pub is_failed : ItemState → Bool
is_failed ItemState.failed = true
is_failed _ = false

abbrev pub is_unknown : ItemState → Bool
is_unknown ItemState.unknown = true
is_unknown _ = false

-- `aggregate_state` reads only the set of the states.
unfoldable pub aggregate_state : List ItemResult → PublicationState
aggregate_state items =
    let succeeded : Bool = any (λ i. is_succeeded i.state) items in
    let failed : Bool = any (λ i. is_failed i.state) items in
    if any (λ i. is_unknown i.state) items
    then PublicationState.unknown
    else if succeeded && all (λ i. is_succeeded i.state) items
    then PublicationState.succeeded
    else if succeeded && failed
    then PublicationState.partial
    else if failed && not succeeded
    then PublicationState.failed
    else PublicationState.pending
