-- ===== src/Hub/Leases/Held.antt =====
-- What happens to a lease that is held: `renew_lease`, `release_lease` and `list_leases` of hub.rs.
use neuman.Prelude.{
  ℕ, ◌+◌, String, Bool, true, not, ◌&&◌, some, none, List, filter_by, find?, count_where,
  update_where, leb, ◌==◌, if◌then◌else◌, str_eq, Result, ok, ok_or, reject_if, ◌>>=◌, ◌>>◌,
}
use neuman.Hub.{
  HubError, Json, number, text, boolean, object, close, field, hub_error, forbidden, not_found,
  internal,
}
use neuman.Hub.Access.{Actor, propose_art, read, is_admin, membership_role}
use neuman.Hub.Records.{Lease}
use neuman.Hub.Database.{lease, Db, Call, Libs}
use neuman.Hub.Journal.{check_idempotency, or_replay, store_idempotency, append_evidence}
use neuman.Hub.Validation.{validate_name}
use neuman.Hub.Leases.{RenewLeaseRequest, is_open, is_active, lease_duration_ms}
use neuman.Hub.Leases.Acquire.{read_lease}

-- The `WHERE` of the renewal's `UPDATE`
unfoldable pub is_renewable : Call → Actor → String → String → RenewLeaseRequest → Lease → Bool
unfolding is_active
is_renewable call actor project_id lease_id request l =
    str_eq l.id lease_id
    && str_eq l.project_id project_id
    && str_eq l.holder_principal_id actor.principal_id
    && str_eq l.holder_session_id actor.session_id
    && is_active call.now l
    && l.renewal_counter == request.renewal_counter

-- Its `SET`
unfoldable pub renewed : Call → RenewLeaseRequest → Lease → Lease
renewed call request l = record l {
  renewal_counter = l.renewal_counter + 1;
  expires_at_ms = call.now + lease_duration_ms;
  base_revision_id = request.base_revision_id;
  cell_hash = request.cell_hash;
}

-- The error where no row, or more than one, was changed
unfoldable pub renewal_error : Call → Db → String → String → HubError
renewal_error call db project_id lease_id =
    let other =
      hub_error 409 "HUB_VERSION_CONFLICT"
        "Lease holder, session, or renewal counter did not match." in
    elim (find? (λ (l : Lease). str_eq l.id lease_id && str_eq l.project_id project_id) db.leases) [
      | none ↦ other
      | some l ↦
          if leb l.expires_at_ms call.now
          then hub_error 409 "HUB_LOCK_EXPIRED"
              "Expired leases cannot be renewed; acquire a new lease and rebase."
          else other
    ]

-- The row that the handler reads back
unfoldable pub find_lease : List Lease → String → Result HubError Lease
find_lease table lease_id = ok_or (find? (λ (l : Lease). str_eq l.id lease_id) table) internal

-- `renew_lease` once the key is known to be new
unfoldable pub renew_new :
    Libs
    → Call
    → Db
    → Actor
    → String
    → String
    → String
    → RenewLeaseRequest
    → String
    → Result HubError (Db × Lease)
unfolding is_renewable renewed renewal_error find_lease
renew_new libs call db actor project_id lease_id key request request_hash = do
  let matches = is_renewable call actor project_id lease_id request
  reject_if (not (count_where matches db.leases == 1)) (renewal_error call db project_id lease_id)
  let table = update_where matches (renewed call request) db.leases
  changed ← find_lease table lease_id
  let db1 =
      append_evidence libs call (record db { leases = table }) actor project_id "lease.renewed"
        "lease" lease_id "lock" "lock.renewed"
        (object (
          field "leaseId" (text lease_id) (
            field "expiresAtMs" (number changed.expires_at_ms)
              (field "renewalCounter" (number changed.renewal_counter) close))))
  db2 ← store_idempotency call db1 actor project_id "leases.renew" key request_hash (lease changed)
  ok (db2, changed)

-- `renew_lease`
unfoldable pub renew_lease :
    Libs
    → Call
    → Db
    → Actor
    → String
    → String
    → String
    → RenewLeaseRequest
    → String
    → Result HubError (Db × Lease)
unfolding renew_new or_replay
renew_lease libs call db actor project_id lease_id key request request_hash = do
  membership_role db.projects db.members actor project_id propose_art
  membership_role db.projects db.members actor project_id propose_art
  replay ← check_idempotency read_lease db actor project_id "leases.renew" key request_hash
  or_replay db replay (renew_new libs call db actor project_id lease_id key request request_hash)

-- The `WHERE` of the release's `UPDATE`, with and without `force`
unfoldable pub is_releasable : Actor → String → String → Bool → Lease → Bool
unfolding is_open
is_releasable actor project_id lease_id force l =
    str_eq l.id lease_id
    && str_eq l.project_id project_id
    && (if force
        then true
        else str_eq l.holder_principal_id actor.principal_id
          && str_eq l.holder_session_id actor.session_id)
    && is_open l

unfoldable pub released : Call → String → Lease → Lease
released call reason l = record l { released_at_ms = some call.now; release_reason = some reason }

-- `release_lease`; `force` is a break by an administrator. It has no idempotency record.
unfoldable pub release_lease :
    Libs → Call → Db → Actor → String → String → String → Bool → Result HubError (Db × Json)
unfolding is_releasable released is_admin
release_lease libs call db actor project_id lease_id reason force = do
  role ← membership_role db.projects db.members actor project_id propose_art
  reject_if (force && not (is_admin role)) forbidden
  validate_name reason 3 512 "release reason"
  let matches = is_releasable actor project_id lease_id force
  reject_if (not (count_where matches db.leases == 1)) (not_found "HUB_LOCK_NOT_FOUND")
  let action = if force then "lease.broken" else "lease.released"
  let db1 =
      append_evidence libs call
        (record db { leases = update_where matches (released call reason) db.leases }) actor
        project_id action "lease" lease_id "lock" action
        (object (
          field "leaseId" (text lease_id)
            (field "reason" (text reason) (field "forced" (boolean force) close))))
  ok (db1, object (field "leaseId" (text lease_id) (field "releasedAtMs" (number call.now) close)))

-- `list_leases`, up to the order of the rows
unfoldable pub list_leases : ℕ → Db → Actor → String → Result HubError (List Lease)
unfolding is_active
list_leases now db actor project_id = do
  membership_role db.projects db.members actor project_id read
  ok (filter_by (λ (l : Lease). str_eq l.project_id project_id && is_active now l) db.leases)
