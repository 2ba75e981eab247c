-- ===== src/Publication/Tests.antt =====
-- A run of the publication service, and the theorems at concrete inputs.
use cr_agent.Prelude.{
  ◌+◌, String, ◌≡◌, ◌≢◌, refl, true, none, some, List, [], ◌∷◌, ◌++◌, ◌↔◌, arith,
}
use cr_agent.Prelude.Dict.{get, put}
use cr_agent.Prelude.Exec.{ok}
use cr_agent.Publication.Models.{
  ItemKind, ItemState, PublicationState, PublicationTarget, PublicationItem, ItemResult,
  aggregate_state,
}
use cr_agent.Publication.Aggregate.{
  Some, Every, IsUnknown, IsFailed, IsSucceeded, aggregate_state_lem,
}
use cr_agent.Publication.State.{Publication, ItemRow, World}
use cr_agent.Publication.Store.{
  publication_plan, publication_result, update_publication_item, acquire_publication_lease,
  release_publication_lease, renew_publication_lease,
}
use cr_agent.Publication.Service.{
  publish_all, reconcile, publish_remaining, publish_locked, publish,
}
use cr_agent.Publication.Items.{
  visible_body, remaining_of, trace, trace_item, renew, fail_remaining, finish, create, conclude,
  reject, create_new, publish_new, publish_found,
}
use cr_agent.Publication.Sent.{Requested}
use cr_agent.Publication.Locked.{Due, items_of, publish-Requested}
use cr_agent.Publication.Fencing.{IsShut, acquire-fences}

abbrev result : String → ItemState → ItemResult
result key state = record {
  publication_key = key;
  kind = ItemKind.line;
  state = state;
  remote_id = none;
  remote_url = none;
  error_code = none;
  version = 1;
}

abbrev half : List ItemResult
half = result "a" ItemState.succeeded ∷ result "b" ItemState.failed ∷ []

half_partial : aggregate_state half ≡ PublicationState.partial
unfolding aggregate_state
half_partial = refl

aggregate_state_lem_example :
    ((aggregate_state half ≡ PublicationState.unknown) ↔ Some IsUnknown half)
    × ((aggregate_state half ≡ PublicationState.succeeded) ↔ ((half ≢ []) × Every IsSucceeded half))
    × ((aggregate_state half ≡ PublicationState.partial)
        ↔ ((¬ (Some IsUnknown half)) × Some IsSucceeded half × Some IsFailed half))
    × ((aggregate_state half ≡ PublicationState.failed)
        ↔ ((¬ (Some IsUnknown half)) × (¬ (Some IsSucceeded half)) × Some IsFailed half))
aggregate_state_lem_example = aggregate_state_lem half

abbrev target : PublicationTarget
target = record {
  platform = "github";
  source_url = "https://github.com/o/r/pull/1";
  repository = "o/r";
  number = 1;
  base_sha = "b";
  start_sha = "b";
  head_sha = "h";
}

abbrev line_item : String → String → String → PublicationItem
line_item key body marker = record {
  publication_key = key;
  kind = ItemKind.line;
  body = body;
  body_digest = "d";
  marker = marker;
  finding_id = some key;
  position = some (record { path = "f"; old_path = "f"; new_path = "f"; line = 3; side = "RIGHT" });
}

abbrev summary_item : PublicationItem
summary_item = record {
  publication_key = "s";
  kind = ItemKind.summary;
  body = "all\n\n<s>";
  body_digest = "d";
  marker = "<s>";
  finding_id = none;
  position = none;
}

abbrev row : String → ItemKind → ItemState → ItemRow
row key kind state = record {
  publication_key = key;
  kind = kind;
  state = state;
  remote_id = none;
  remote_url = none;
  error_code = none;
  version = 1;
  fencing_token = 0;
}

-- The first item succeeded before; the platform knows the marker of the second.
abbrev stored : Publication
stored = record {
  plan = some (record {
    publication_id = "p";
    task_id = "t";
    snapshot_id = "sn";
    snapshot_version = 1;
    target = target;
    items = line_item "a" "one\n\n<a>" "<a>" ∷ line_item "b" "two\n\n<b>" "<b>" ∷ summary_item ∷ [];
  });
  rows =
      row "a" ItemKind.line ItemState.succeeded
      ∷ row "b" ItemKind.line ItemState.unknown
      ∷ row "s" ItemKind.summary ItemState.pending
      ∷ [];
  lease = none;
  last_token = 4;
  calls = 0;
  sent = [];
}

abbrev github : World
github = record {
  now = λ n. n;
  verify_target = λ n t. ok (record { is_open = true; head_sha = "h" });
  find_markers = λ n t markers. ok (("<b>", record { remote_id = "7"; url = "u7" }) ∷ []);
  create_line_comment = λ n t i. ok (record { remote_id = "8"; url = "u8" });
  create_summary_comment = λ n t i. ok (record { remote_id = "9"; url = "u9" });
  scan = λ n text. some none;
  append_trace_event = λ n event_type. none;
}

-- Only the summary is requested.
summary_requested : (publish github "me" stored).1.sent ≡ summary_item ∷ []
unfolding publication_plan publication_result update_publication_item acquire_publication_lease
    release_publication_lease renew_publication_lease visible_body remaining_of trace trace_item
    renew fail_remaining finish create conclude reject create_new publish_new publish_found
    publish_all reconcile publish_remaining publish_locked publish get put
summary_requested = refl

publish-Requested_example :
    (js : List PublicationItem) × ((publish github "me" stored).1.sent ≡ [] ++ js)
    × Requested (Due github stored.plan stored.rows) (items_of stored.plan) js
publish-Requested_example = publish-Requested github "me" stored

granted_five : (acquire_publication_lease github "me" 600 stored).0 ≡ ok (some 5)
unfolding acquire_publication_lease
granted_five = refl

acquire-fences_example :
    let s' = (acquire_publication_lease github "me" 600 stored).1 in
    (5 ≡ 4 + 1) × (s'.last_token ≡ 5) × IsShut github "you" 4 s'
acquire-fences_example = acquire-fences github "me" "you" 600 5 4 stored granted_five (omega arith)
