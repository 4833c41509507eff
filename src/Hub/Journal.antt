-- ===== src/Hub/Journal.antt =====
-- Idempotency records and the evidence of a mutation, of hub.rs. `maintenance`, which deletes old
-- records and messages, is left out.
pub mod Replay
pub mod Chain
pub mod Answers
use neuman.Prelude.{
  ℕ, zero, suc, ◌+◌, ◌*◌, ◌/◌, ◌%◌, String, Bool, true, false, ◌&&◌, not, Option, some, none, List,
  [], ◌∷◌, ◌++◌, Bytes, codes, find?, any, ltb, if◌then◌else◌, str_eq, Result, ok, err, reject_if,
  ok_or, ◌>>=◌, ◌>>◌,
}
use neuman.Hub.{HubError, Json, hub_error, internal}
use neuman.Hub.Access.{Actor}
use neuman.Hub.Database.{Response, IdempotencyRow, AuditRow, OutboxRow, Db, Call, Libs}

abbrev pub idempotency_ttl_ms : ℕ
idempotency_ttl_ms = 24 * 60 * 60000

-- The primary key of `idempotency_records`
unfoldable pub is_record : Actor → String → String → String → IdempotencyRow → Bool
is_record actor project_id route key row =
    str_eq row.principal_id actor.principal_id
    && str_eq row.project_id project_id
    && str_eq row.route route
    && str_eq row.idempotency_key key

module _ {A : Type 0} (read : Response → Option A) where
  -- `if let Some((stored_hash, response_json)) = existing`
  unfoldable pub stored_response : String → Option IdempotencyRow → Result HubError (Option A)
  stored_response request_hash none = ok none
  stored_response request_hash (some row) =
      if not (str_eq row.request_hash request_hash)
      then err (
          hub_error 409 "HUB_IDEMPOTENCY_CONFLICT"
            "This idempotency key was already used with a different request.")
      else do response ← ok_or (read row.response) internal; ok (some response)

  -- `check_idempotency`; `read` is `parse_json` at the handler's type
  unfoldable pub check_idempotency :
      Db → Actor → String → String → String → String → Result HubError (Option A)
  unfolding stored_response
  check_idempotency db actor project_id route key request_hash =
      stored_response request_hash (find? (is_record actor project_id route key) db.idempotency)

-- `if let Some(value) = check_idempotency(…)? { tx.commit()?; return Ok(value); }`, and the rest
unfoldable pub or_replay :
    {A : Type 0} → Db → Option A → Result HubError (Db × A) → Result HubError (Db × A)
or_replay db (some value) rest = ok (db, value)
or_replay db none rest = rest

abbrev pub idempotency_row :
    Call → Actor → String → String → String → String → Response → IdempotencyRow
idempotency_row call actor project_id route key request_hash response = record {
  principal_id = actor.principal_id;
  project_id = project_id;
  route = route;
  idempotency_key = key;
  request_hash = request_hash;
  response = response;
  created_at_ms = call.stored_now;
  expires_at_ms = call.stored_now + idempotency_ttl_ms;
}

-- `store_idempotency`: the insert fails where the primary key is taken
unfoldable pub store_idempotency :
    Call → Db → Actor → String → String → String → String → Response → Result HubError Db
store_idempotency call db actor project_id route key request_hash response = do
  reject_if (any (is_record actor project_id route key) db.idempotency) internal
  ok (record db {
    idempotency =
        idempotency_row call actor project_id route key request_hash response ∷ db.idempotency;
  })

-- `{n}` of `format!`: decimal digits, at most one for each unit of fuel
unfoldable pub decimal_from : ℕ → ℕ → Bytes → Bytes
decimal_from zero n out = out
decimal_from (suc fuel) n out = elim (ltb n 10) [
  | true ↦ (b'0' + n) ∷ out
  | false ↦ decimal_from fuel (n / 10) ((b'0' + n % 10) ∷ out)
]

unfoldable pub decimal : ℕ → Bytes
decimal n = decimal_from (suc n) n []

abbrev pub or_empty : Option String → String
or_empty none = ""
or_empty (some s) = s

-- `event_hash` of the newest event of a project
unfoldable pub last_hash : List AuditRow → String → Option String
last_hash [] project_id = none
last_hash (row ∷ rows) project_id =
    if str_eq row.project_id project_id then some row.event_hash else last_hash rows project_id

abbrev nul : Bytes
nul = 0 ∷ []

-- `audit_material`: the fields between NUL characters
unfoldable pub audit_material :
    Option String → String → String → String → String → String → String → String → ℕ → Bytes
audit_material previous audit_id project_id principal_id action aggregate_type aggregate_id
      details_json occurred_at =
    codes "neuman-audit-v1"
    ++ (nul
        ++ (codes (or_empty previous)
            ++ (nul
                ++ (codes audit_id
                    ++ (nul
                        ++ (codes project_id
                            ++ (nul
                                ++ (codes principal_id
                                    ++ (nul
                                        ++ (codes action
                                            ++ (nul
                                                ++ (codes aggregate_type
                                                    ++ (nul
                                                        ++ (codes aggregate_id
                                                            ++ (nul
                                                            ++ (codes "success"
                                                            ++ (nul
                                                            ++ (codes details_json
                                                            ++ (nul
                                                            ++ decimal
                                                            occurred_at)))))))))))))))))))

-- `append_evidence`
unfoldable pub append_evidence :
    Libs → Call → Db → Actor → String → String → String → String → String → String → Json → Db
append_evidence libs call db actor project_id action aggregate_type aggregate_id category event_type
      details =
    let previous = last_hash db.audit project_id in
    let details_json = libs.json_text details in
    let material =
      audit_material previous call.audit_id project_id actor.principal_id action aggregate_type
        aggregate_id details_json call.evidence_now in
    let event : AuditRow = record {
      id = call.audit_id;
      project_id = project_id;
      actor_principal_id = actor.principal_id;
      action = action;
      aggregate_type = aggregate_type;
      aggregate_id = aggregate_id;
      details_json = details_json;
      occurred_at_ms = call.evidence_now;
      previous_hash = previous;
      event_hash = libs.sha256_hex material;
    } in
    let message : OutboxRow = record {
      id = call.event_id;
      project_id = project_id;
      category = category;
      event_type = event_type;
      aggregate_id = aggregate_id;
      payload_json = details_json;
      occurred_at_ms = call.evidence_now;
    } in
    record db { audit = event ∷ db.audit; outbox = message ∷ db.outbox }
