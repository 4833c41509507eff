-- ===== src/Hub/Leases.antt =====
-- The lease handlers of hub.rs. Each is a transaction: `ok` carries the committed database, and
-- `err` leaves it as it was. `request_hash` is `canonical_request_hash` of the request, and
-- `quota` the configured `max_active_leases`.
pub mod Acquire
pub mod Held
pub mod Exclusive
pub mod Mutex
pub mod Reach
pub mod Replay
pub mod Renewal
use neuman.Prelude.{
  ℕ, zero, suc, ◌+◌, String, Bool, true, false, not, ◌&&◌, Option, some, none, List, [], ◌∷◌, ◌++◌,
  map, any, length, find?, count_where, update_where, ltb, leb, ◌==◌, if◌then◌else◌, str_eq, Result,
  ok, err, ok_or, reject_if, ◌>>=◌, ◌>>◌,
}
use neuman.Hub.{
  HubError, Json, Items, Fields, number, text, array, object, end, item, close, field, hub_error,
  with_details, forbidden, not_found, invalid, internal,
}
use neuman.Hub.Access.{Role, Actor, admin, propose_art, read, is_admin, membership_role}
use neuman.Hub.Records.{Lease, LeaseBatch, Channel}
use neuman.Hub.Database.{Response, lease_batch, lease, Db, Call, Libs}
use neuman.Hub.Journal.{check_idempotency, or_replay, store_idempotency, append_evidence}
use neuman.Hub.Validation.{validate_name, sorted_unique}

abbrev pub lease_duration_ms : ℕ
lease_duration_ms = 120000

abbrev pub lease_renewal_target_ms : ℕ
lease_renewal_target_ms = 30000

-- `struct AcquireLeaseBatchRequest`; the map of cell hashes is the list of its entries
pub record AcquireLeaseBatchRequest : Type 0 where
  pub channel_id : String
  pub resource_ids : List String
  pub base_revision_id : Option String
  pub workstream : String
  pub intended_action : String
  pub cell_hashes : List (String × String)

-- `struct AcquireLeaseRequest`
pub record AcquireLeaseRequest : Type 0 where
  pub channel_id : String
  pub resource_id : String
  pub base_revision_id : Option String
  pub workstream : String
  pub intended_action : String
  pub cell_hash : Option String

-- `struct RenewLeaseRequest`
pub record RenewLeaseRequest : Type 0 where
  pub renewal_counter : ℕ
  pub base_revision_id : Option String
  pub cell_hash : Option String

-- `released_at_ms IS NULL`
unfoldable pub is_open : Lease → Bool
is_open l = elim l.released_at_ms [ none ↦ true | some _ ↦ false ]

-- `released_at_ms IS NULL AND expires_at_ms > now`
unfoldable pub is_active : ℕ → Lease → Bool
unfolding is_open
is_active now l = is_open l && ltb now l.expires_at_ms

-- `project_id=?1 AND channel_id=?2 AND resource_id=?3`
unfoldable pub covers : String → String → String → Lease → Bool
covers project_id channel_id resource l =
    str_eq l.project_id project_id
    && str_eq l.channel_id channel_id
    && str_eq l.resource_id resource

-- `ORDER BY expires_at_ms DESC LIMIT 1`
abbrev pub keep_later : Lease → Option Lease → Option Lease
keep_later l none = some l
keep_later l (some m) = if ltb l.expires_at_ms m.expires_at_ms then some m else some l

unfoldable pub latest : (Lease → Bool) → List Lease → Option Lease
latest p [] = none
latest p (l ∷ ls) = if p l then keep_later l (latest p ls) else latest p ls

abbrev pub option_eq : Option String → Option String → Bool
option_eq none none = true
option_eq (some a) (some b) = str_eq a b
option_eq _ _ = false

abbrev pub option_text : Option String → Json
option_text none = Json.null
option_text (some s) = text s

-- `quota_error`
unfoldable pub quota_error : String → ℕ → ℕ → HubError
unfolding hub_error with_details
quota_error resource current limit =
    with_details (hub_error 429 "HUB_QUOTA_EXCEEDED" "The project quota would be exceeded.") (
      object (
        field "resource" (text resource) (
          field "current" (number current) (
            field "limit" (number limit) (
              field "remediation"
                (text "Remove unused resources or ask the Hub operator to raise the quota.")
                close)))))

-- HUB_BASE_STALE, with the head that the channel has
unfoldable pub base_stale : String → Option String → HubError
unfolding hub_error with_details
base_stale message head =
    with_details (hub_error 409 "HUB_BASE_STALE" message)
      (object (field "currentHeadRevisionId" (option_text head) close))

abbrev pub lock_conflict : String → Lease → HubError
lock_conflict resource l =
    with_details
      (hub_error 409 "HUB_LOCK_CONFLICT"
        "A protected acceptance lease already covers this resource.")
      (object (
        field "resourceId" (text resource) (
          field "leaseId" (text l.id) (
            field "holderPrincipalId" (text l.holder_principal_id)
              (field "expiresAtMs" (number l.expires_at_ms) close)))))

-- The first loop over the resources: none has an active lease.
unfoldable pub no_conflict :
    ℕ → String → String → List Lease → List String → Result HubError (Unit {0})
no_conflict now project_id channel_id leases [] = ok tt
no_conflict now project_id channel_id leases (resource ∷ rest) =
    elim (latest (λ l. covers project_id channel_id resource l && is_active now l) leases) [
      | some l ↦ err (lock_conflict resource l)
      | none ↦ no_conflict now project_id channel_id leases rest
    ]

abbrev cell_hash_of : String → List (String × String) → Option String
cell_hash_of resource [] = none
cell_hash_of resource ((k, v) ∷ hashes) =
    if str_eq k resource then some v else cell_hash_of resource hashes

-- The lease that the second loop builds for a resource
unfoldable pub new_lease : Call → Actor → String → AcquireLeaseBatchRequest → ℕ → String → Lease
new_lease call actor project_id request i resource = record {
  id = call.new_id i;
  project_id = project_id;
  channel_id = request.channel_id;
  resource_id = resource;
  base_revision_id = request.base_revision_id;
  workstream = request.workstream;
  intended_action = request.intended_action;
  cell_hash = cell_hash_of resource request.cell_hashes;
  holder_principal_id = actor.principal_id;
  holder_session_id = actor.session_id;
  renewal_counter = 0;
  acquired_at_ms = call.now;
  expires_at_ms = call.now + lease_duration_ms;
  released_at_ms = none;
  release_reason = none;
  outcome_reference = none;
}

-- The second loop: inserts a lease for each resource. An insert fails where its id is taken.
unfoldable pub insert_leases :
    Call
    → Actor
    → String
    → AcquireLeaseBatchRequest
    → ℕ
    → List String
    → List Lease
    → Result HubError (List Lease × List Lease)
unfolding new_lease
insert_leases call actor project_id request i [] table = ok ([], table)
insert_leases call actor project_id request i (resource ∷ rest) table = do
  let l = new_lease call actor project_id request i resource
  reject_if (any (λ (row : Lease). str_eq row.id l.id) table) internal
  (leases, table') ← insert_leases call actor project_id request (suc i) rest (l ∷ table)
  ok (l ∷ leases, table')
