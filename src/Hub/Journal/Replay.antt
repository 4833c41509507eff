-- ===== src/Hub/Journal/Replay.antt =====
-- The look-up of a response of hub.rs after it was stored.
use text.Mathlib.TextPositions.{eq_refl}
use neuman.Prelude.{
  String, Bool, true, false, not, if◌then◌else◌, str_eq, ok_or, ◌>>=◌, ◌≡◌, ◌⊎◌, inl, inr, ap, refl,
  sym, Option, some, none, ◌∷◌, Result, ok, err, reject_if-then-eq-ok, any, ok-injective,
}
use neuman.Hub.{HubError, hub_error, internal}
use neuman.Hub.Access.{Actor}
use neuman.Hub.Database.{Response, IdempotencyRow, Db, Call}
use neuman.Hub.Journal.{is_record, idempotency_row, check_idempotency, store_idempotency, or_replay}

is_record_self :
    (actor : Actor) (p r k : String) (row : IdempotencyRow)
    → row.principal_id ≡ actor.principal_id
    → row.project_id ≡ p
    → row.route ≡ r
    → row.idempotency_key ≡ k
    → is_record actor p r k row ≡ true
unfolding is_record
is_record_self actor p r k row e1 e2 e3 e4 = simp (e1, e2, e3, e4, eq_refl)

-- All that `store_idempotency` changes is its own table.
pub store_idempotency-eq-ok :
    (call : Call) (db : Db) (actor : Actor) (project_id route key request_hash : String)
    (response : Response) {db' : Db}
    → store_idempotency call db actor project_id route key request_hash response ≡ ok db'
    → db' ≡ record db {
      idempotency =
          idempotency_row call actor project_id route key request_hash response ∷ db.idempotency;
    }
unfolding store_idempotency
store_idempotency-eq-ok call db actor p r k q response h = sym (
    ok-injective (reject_if-then-eq-ok (any (is_record actor p r k) db.idempotency) internal _ h).1)

-- A call replays a stored response and changes nothing, or runs.
pub or_replay-eq-ok :
    {A : Type 0} (db : Db) (o : Option A) (rest : Result HubError (Db × A)) {out : Db × A}
    → or_replay db o rest ≡ ok out
    → ((o ≡ some out.1) × (out.0 ≡ db)) ⊎ ((o ≡ none) × (rest ≡ ok out))
unfolding or_replay
or_replay-eq-ok db none rest h = inr (refl, h)
or_replay-eq-ok db (some v) rest {out} h = inl (
  ap (λ (x : Db × _). some x.1) (ok-injective h),
  ap (λ (x : Db × _). x.0) (sym (ok-injective h)),
)

abbrev pub key_conflict : HubError
key_conflict =
    hub_error 409 "HUB_IDEMPOTENCY_CONFLICT"
      "This idempotency key was already used with a different request."

module _ {A : Type 0} (read : Response → Option A) where
  -- After `store_idempotency` a look-up under the same key gives the stored response for the same
  -- request hash, and the conflict error for any other.
  pub check_after_store :
      (call : Call) (db db' : Db) (actor : Actor)
      (project_id route key request_hash other_hash : String) (response : Response) (value : A)
      → store_idempotency call db actor project_id route key request_hash response ≡ ok db'
      → read response ≡ some value
      → check_idempotency read db' actor project_id route key other_hash
        ≡ (if str_eq request_hash other_hash then ok (some value) else err key_conflict)
  unfolding check_idempotency store_idempotency
  check_after_store call db db' actor p r k q q' response value h e =
      let (_, stored) =
        reject_if-then-eq-ok (any (is_record actor p r k) db.idempotency) internal _ h in
      let self =
        is_record_self actor p r k (idempotency_row call actor p r k q response) refl refl refl
          refl in
      rw (← ok-injective stored) (rw self (pick (str_eq q q') (read response) e))
    where
      pick :
          (b : Bool) (o : Option A)
          → o ≡ some value
          → (if not b then err key_conflict else (ok_or o internal >>= λ v. ok (some v)))
            ≡ (if b then ok (some value) else err key_conflict)
      pick true o e = rw e refl
      pick false o e = refl
