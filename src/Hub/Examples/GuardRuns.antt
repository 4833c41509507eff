-- ===== src/Hub/Examples/GuardRuns.antt =====
-- The guards and the journal of hub.rs at work.
use neuman.Prelude.{
  ◌≡◌, ◌≢◌, refl, String, List, [], ◌∷◌, ok, err, some, none, str_eq, if◌then◌else◌, ◌&&◌, ◌||◌,
  true,
}
use neuman.Hub.{hub_error, object, close}
use neuman.Hub.Examples.{value_or, call_at, ana, start_db, ben}
use neuman.Hub.Database.{Db, lease_batch}
use neuman.Hub.Access.{
  approver, allows, is_admin, propose_art, accept_art, approve_release, execute_release, artist,
  MembershipRow, membership_role,
}
use neuman.Hub.Access.Matrix.{separation_of_duties, IsGranted, membership_role-IsGranted}
use neuman.Hub.Leases.Acquire.{read_batch, batch_of}
use neuman.Hub.Journal.{store_idempotency, check_idempotency}
use neuman.Hub.Journal.Replay.{check_after_store, key_conflict}
use neuman.Hub.Validation.{sorted_unique, length_message}

stored : Db
stored =
    value_or
      (store_idempotency (call_at 1000 "a") start_db ana "p" "locks.acquire" "k1" "h1"
        (lease_batch (batch_of (call_at 1000 "a") [])))
      start_db

check_after_store_example :
    check_idempotency read_batch stored ana "p" "locks.acquire" "k1" "h2"
    ≡ (if str_eq "h1" "h2" then ok (some (batch_of (call_at 1000 "a") [])) else err key_conflict)
unfolding stored store_idempotency
check_after_store_example =
    check_after_store read_batch (call_at 1000 "a") start_db stored ana "p" "locks.acquire" "k1"
      "h1" "h2" (lease_batch (batch_of (call_at 1000 "a") [])) (batch_of (call_at 1000 "a") []) refl
      refl

abbrev given : List String
given = "b" ∷ "c" ∷ "a" ∷ []

abbrev sorted : List String
sorted = "a" ∷ "b" ∷ "c" ∷ []

-- A value given twice is an error, which names the field.
duplicate-refused :
    sorted_unique ("b" ∷ "b" ∷ []) "lockIds"
    ≡ err (hub_error 400 "HUB_INVALID_REQUEST" "lockIds must not contain duplicates.")
unfolding sorted_unique neuman.Prelude.bytes_eq neuman.Hub.Validation.before neuman.Hub.invalid
duplicate-refused = refl

long_name-message :
    length_message 1 160 "Proposal title"
    ≡ "Proposal title must contain 1-160 non-control characters."
unfolding length_message
long_name-message = refl

separation_of_duties_example :
    ((allows approver propose_art && allows approver accept_art)
      || (allows approver approve_release && allows approver execute_release))
    ≡ is_admin approver
separation_of_duties_example = separation_of_duties approver

membership_role-IsGranted_example :
    (allows artist propose_art ≡ true)
    × ((m : MembershipRow) × IsGranted start_db.projects ben "p" artist m)
unfolding membership_role allows
membership_role-IsGranted_example =
    membership_role-IsGranted start_db.projects start_db.members ben "p" propose_art artist refl
