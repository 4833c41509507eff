-- ===== src/Hub/Examples/ReleaseRuns.antt =====
-- A run of the release handlers of hub.rs.
use neuman.Prelude.{◌≡◌, ◌⊎◌, refl, ok, err}
use neuman.Hub.{HubError, hub_error, internal}
use neuman.Hub.Examples.{
  value_or, libs, call_at, ana, start_db, release_request, approve_request, action_request,
}
use neuman.Hub.Database.{Db}
use neuman.Hub.Records.{ReleaseRecord, ReleaseApproval}
use neuman.Hub.Releases.{new_release, create_release, get_release}
use neuman.Hub.Releases.Approval.{new_approval, approve_release_call}
use neuman.Hub.Releases.Action.{release_action}
use neuman.Hub.Releases.Approved.{IsKnown, IsBacked}
use neuman.Hub.Releases.Reach.{
  Reach, here, next, create, approve, act, reached_release, resume_changes_nothing,
}

abbrev draft : ReleaseRecord
draft = new_release (call_at 0 "") ana "p" release_request "h1"

abbrev created : Db × ReleaseRecord
created =
    value_or (create_release libs (call_at 1000 "a") start_db ana "p" "k1" release_request "h1")
      (start_db, draft)

abbrev approved_db : Db × ReleaseApproval
approved_db =
    value_or
      (approve_release_call libs (call_at 2000 "b") created.0 ana "p" "a_0" "k2" approve_request
        "h2")
      (start_db, new_approval (call_at 0 "") ana "" "" release_request.evidence)

abbrev started : Db × ReleaseRecord
started =
    value_or
      (release_action libs (call_at 3000 "c") approved_db.0 ana "p" "a_0" "start" "k3"
        action_request "h3")
      (start_db, draft)

release_run : Reach start_db started.0
unfolding create_release neuman.Hub.Access.membership_role neuman.Hub.Access.allows
    neuman.Hub.Validation.validate_hash_label neuman.Hub.Validation.validate_name
    neuman.Hub.Journal.check_idempotency neuman.Hub.Journal.store_idempotency
    neuman.Hub.Journal.append_evidence approve_release_call neuman.Hub.Journal.is_record
    release_action
release_run =
    next
      (next
        (next here (create libs (call_at 1000 "a") ana "p" "k1" release_request "h1" created refl))
        (approve libs (call_at 2000 "b") ana "p" "a_0" "k2" approve_request "h2" approved_db refl))
      (act libs (call_at 3000 "c") ana "p" "a_0" "start" "k3" action_request "h3" started refl)

get_started : get_release started.0 ana "p" "a_0" ≡ ok started.1
unfolding get_release neuman.Hub.Access.membership_role release_action approve_release_call
    create_release neuman.Hub.Access.allows neuman.Hub.Validation.validate_hash_label
    neuman.Hub.Validation.validate_name neuman.Hub.Journal.check_idempotency
    neuman.Hub.Journal.store_idempotency neuman.Hub.Journal.append_evidence
    neuman.Hub.Journal.is_record
get_started = refl

started_state : started.1.state ≡ "running"
unfolding release_action neuman.Hub.Access.membership_role approve_release_call create_release
    neuman.Hub.Access.allows neuman.Hub.Validation.validate_hash_label
    neuman.Hub.Validation.validate_name neuman.Hub.Journal.check_idempotency
    neuman.Hub.Journal.store_idempotency neuman.Hub.Journal.append_evidence
    neuman.Hub.Journal.is_record
started_state = refl

reached_release_example : IsKnown started.1.state × IsBacked started.0.approvals started.1
reached_release_example =
    reached_release start_db started.0 ana "p" "a_0" started.1 refl release_run get_started

-- A start without an approval is refused.
start_unapproved :
    release_action libs (call_at 3000 "c") created.0 ana "p" "a_0" "start" "k3" action_request "h3"
    ≡ err (
        hub_error 409 "HUB_VERSION_CONFLICT"
          "Release state or immutable request hash does not permit this action.")
unfolding release_action neuman.Hub.Access.membership_role create_release neuman.Hub.Access.allows
    neuman.Hub.Validation.validate_hash_label neuman.Hub.Validation.validate_name
    neuman.Hub.Journal.check_idempotency neuman.Hub.Journal.store_idempotency
    neuman.Hub.Journal.append_evidence neuman.Hub.Journal.is_record neuman.Hub.Releases.is_release
start_unapproved = refl

resume_changes_nothing_example :
    ((e : HubError) × (release_action libs
          (call_at 4000 "d")
          started.0
          ana
          "p"
          "a_0"
          "resume"
          "k4"
          action_request
          "h4"
        ≡ err e))
    ⊎ ((r : ReleaseRecord) × (release_action libs
            (call_at 4000 "d")
            started.0
            ana
            "p"
            "a_0"
            "resume"
            "k4"
            action_request
            "h4"
          ≡ ok (started.0, r)))
resume_changes_nothing_example =
    resume_changes_nothing start_db started.0 libs (call_at 4000 "d") ana "p" "a_0" "k4"
      action_request "h4" refl release_run
