-- ===== src/Hub/Leases/Acquire.antt =====
-- `acquire_lease_batch` and `acquire_lease` of hub.rs: the two loops over the resources and the guards
-- before them stand in the parent.
use neuman.Prelude.{
  ℕ, ◌+◌, String, Bool, true, false, not, ◌&&◌, Option, some, none, List, [], ◌∷◌, map, length,
  find?, count_where, ltb, str_eq, Result, ok, ok_or, reject_if, ◌>>=◌, ◌>>◌,
}
use neuman.Hub.{
  HubError, Items, number, text, array, object, end, item, close, field, not_found, invalid,
}
use neuman.Hub.Access.{Actor, propose_art, membership_role}
use neuman.Hub.Records.{Lease, LeaseBatch, Channel}
use neuman.Hub.Database.{Response, lease_batch, lease, Db, Call, Libs}
use neuman.Hub.Journal.{check_idempotency, or_replay, store_idempotency, append_evidence}
use neuman.Hub.Validation.{validate_name, sorted_unique}
use neuman.Hub.Leases.{
  lease_duration_ms, lease_renewal_target_ms, is_active, option_eq, quota_error, base_stale,
  no_conflict, insert_leases, AcquireLeaseBatchRequest, AcquireLeaseRequest,
}

abbrev pub read_batch : Response → Option LeaseBatch
read_batch (lease_batch b) = some b
read_batch _ = none

abbrev pub read_lease : Response → Option Lease
read_lease (lease l) = some l
read_lease _ = none

abbrev pub texts : List String → Items
texts [] = end
texts (s ∷ ss) = item (text s) (texts ss)

abbrev first_id : List Lease → String
first_id [] = ""
first_id (l ∷ ls) = l.id

abbrev pub batch_of : Call → List Lease → LeaseBatch
batch_of call leases = record {
  leases = leases;
  lease_duration_ms = lease_duration_ms;
  renewal_target_ms = lease_renewal_target_ms;
  server_time_ms = call.now;
}

-- The end of `acquire_lease_batch`: the evidence and the idempotency record of the inserted leases
unfoldable pub commit_batch :
    Libs
    → Call
    → Db
    → Actor
    → String
    → String
    → String
    → String
    → List Lease
    → List Lease
    → Result HubError (Db × LeaseBatch)
commit_batch libs call db actor project_id key request_hash route leases table = do
  let db1 =
      append_evidence libs call (record db { leases = table }) actor project_id
        "lease.batch_acquired" "lease_batch" (first_id leases) "lock" "lock.acquired"
        (object (
          field "leaseIds" (array (texts (map (λ (l : Lease). l.id) leases))) (
            field "resourceIds" (array (texts (map (λ (l : Lease). l.resource_id) leases)))
              (field "expiresAtMs" (number (call.now + lease_duration_ms)) close))))
  db2 ←
      store_idempotency call db1 actor project_id route key request_hash
        (lease_batch (batch_of call leases))
  ok (db2, batch_of call leases)

-- The two loops over the resources, and the commit
unfoldable pub insert_batch :
    Libs
    → Call
    → Db
    → Actor
    → String
    → String
    → AcquireLeaseBatchRequest
    → String
    → String
    → List String
    → Result HubError (Db × LeaseBatch)
unfolding no_conflict insert_leases commit_batch
insert_batch libs call db actor project_id key request request_hash route resources = do
  no_conflict call.now project_id request.channel_id db.leases resources
  (leases, table) ← insert_leases call actor project_id request 0 resources db.leases
  commit_batch libs call db actor project_id key request_hash route leases table

-- `SELECT COUNT(*)` of the project's active leases
unfoldable pub active_leases : ℕ → String → List Lease → ℕ
unfolding is_active
active_leases now project_id leases =
    count_where (λ (l : Lease). str_eq l.project_id project_id && is_active now l) leases

-- `SELECT head_revision_id FROM art_channels`
unfoldable pub find_channel : Db → String → String → Result HubError Channel
find_channel db channel_id project_id =
    ok_or
      (find? (λ (c : Channel). str_eq c.id channel_id && str_eq c.project_id project_id)
        db.channels)
      (not_found "HUB_ART_CHANNEL_NOT_FOUND")

-- `acquire_lease_batch` once the key is known to be new
unfoldable pub acquire_new :
    Libs
    → ℕ
    → Call
    → Db
    → Actor
    → String
    → String
    → AcquireLeaseBatchRequest
    → String
    → String
    → List String
    → Result HubError (Db × LeaseBatch)
unfolding insert_batch active_leases find_channel
acquire_new libs quota call db actor project_id key request request_hash route resources = do
  channel ← find_channel db request.channel_id project_id
  reject_if (not (option_eq channel.head_revision_id request.base_revision_id))
      (base_stale "Lease base must be the current accepted channel head." channel.head_revision_id)
  let active_count = active_leases call.now project_id db.leases
  reject_if (ltb quota (active_count + length resources))
      (quota_error "activeLeases" active_count quota)
  insert_batch libs call db actor project_id key request request_hash route resources

abbrev pub is_empty : List String → Bool
is_empty [] = true
is_empty (x ∷ xs) = false

-- `acquire_lease_batch`
unfoldable pub acquire_lease_batch :
    Libs
    → ℕ
    → Call
    → Db
    → Actor
    → String
    → String
    → AcquireLeaseBatchRequest
    → String
    → String
    → Result HubError (Db × LeaseBatch)
unfolding acquire_new or_replay
acquire_lease_batch libs quota call db actor project_id key request request_hash route = do
  membership_role db.projects db.members actor project_id propose_art
  validate_name request.workstream 1 128 "workstream"
  validate_name request.intended_action 1 128 "intendedAction"
  resources ← sorted_unique request.resource_ids "resourceIds"
  reject_if (is_empty resources) (invalid "At least one lease resource is required.")
  membership_role db.projects db.members actor project_id propose_art
  replay ← check_idempotency read_batch db actor project_id route key request_hash
  or_replay db replay
      (acquire_new libs quota call db actor project_id key request request_hash route resources)

-- `acquire_lease`
unfoldable pub acquire_lease :
    Libs
    → ℕ
    → Call
    → Db
    → Actor
    → String
    → String
    → AcquireLeaseRequest
    → String
    → Result HubError (Db × LeaseBatch)
acquire_lease libs quota call db actor project_id key request request_hash =
    acquire_lease_batch libs quota call db actor project_id key
      (record {
        channel_id = request.channel_id;
        resource_ids = request.resource_id ∷ [];
        base_revision_id = request.base_revision_id;
        workstream = request.workstream;
        intended_action = request.intended_action;
        cell_hashes = elim request.cell_hash [
          | none ↦ []
          | some hash ↦ (request.resource_id, hash) ∷ []
        ];
      })
      request_hash "leases.acquire"
