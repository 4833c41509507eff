-- ===== src/Hub/Examples/LeaseRuns.antt =====
-- A run of the lease handlers of hub.rs.
use neuman.Prelude.{◌≡◌, refl, arith, String, List, [], ◌∷◌, ok, err, true, false}
use neuman.Hub.{Json, null, hub_error}
use neuman.Hub.Examples.{value_or, libs, call_at, ana, ben, start_db, lease_request, renew_request}
use neuman.Hub.Database.{Db}
use neuman.Hub.Records.{Lease, LeaseBatch}
use neuman.Hub.Leases.{new_lease}
use neuman.Hub.Leases.Acquire.{acquire_lease_batch, batch_of}
use neuman.Hub.Leases.Exclusive.{IsExclusive}
use neuman.Hub.Leases.Held.{release_lease, renew_lease}
use neuman.Hub.Leases.Renewal.{renew_any_lease}
use neuman.Hub.Leases.Replay.{acquire_twice}
use neuman.Hub.Leases.Reach.{Reach, here, next, acquire, give_up, Reach-IsExclusive}

abbrev acquired : Db × LeaseBatch
acquired =
    value_or
      (acquire_lease_batch libs 10 (call_at 1000 "a") start_db ben "p" "k1" lease_request "h1"
        "locks.acquire")
      (start_db, batch_of (call_at 0 "") [])

-- An administrator breaks the first lease.
abbrev broken : Db × Json
broken =
    value_or (release_lease libs (call_at 2000 "b") acquired.0 ana "p" "a_0" "stuck" true)
      (start_db, null)

-- Both leases of the artist have expired.
abbrev acquired_again : Db × LeaseBatch
acquired_again =
    value_or
      (acquire_lease_batch libs 10 (call_at 200000 "c") broken.0 ana "p" "k1" lease_request "h1"
        "locks.acquire")
      (start_db, batch_of (call_at 0 "") [])

lease_run : Reach 0 start_db 200000 acquired_again.0
unfolding acquire_lease_batch neuman.Hub.Access.membership_role neuman.Hub.Access.allows
    neuman.Hub.Validation.validate_name neuman.Hub.Validation.sorted_unique neuman.Prelude.bytes_eq
    neuman.Hub.Validation.before neuman.Hub.Journal.check_idempotency neuman.Hub.Leases.latest
    neuman.Hub.Journal.store_idempotency neuman.Hub.Journal.append_evidence release_lease
    neuman.Hub.Journal.is_record neuman.Hub.Leases.covers
lease_run =
    next
      (next
        (next here (
          acquire libs 10 (call_at 1000 "a") ben "p" "k1" lease_request "h1" "locks.acquire"
            acquired (omega arith) refl))
        (give_up libs (call_at 2000 "b") ana "p" "a_0" "stuck" true broken (omega arith) refl))
      (acquire libs 10 (call_at 200000 "c") ana "p" "k1" lease_request "h1" "locks.acquire"
        acquired_again (omega arith) refl)

Reach-IsExclusive_example : IsExclusive 200000 acquired_again.0.leases
Reach-IsExclusive_example = Reach-IsExclusive tt lease_run

acquired_ok :
    acquire_lease_batch libs 10
      (call_at 1000 "a")
      start_db
      ben
      "p"
      "k1"
      lease_request
      "h1"
      "locks.acquire"
    ≡ ok (acquired.0, acquired.1)
unfolding acquire_lease_batch neuman.Hub.Access.membership_role neuman.Hub.Access.allows
    neuman.Hub.Validation.validate_name neuman.Hub.Validation.sorted_unique neuman.Prelude.bytes_eq
    neuman.Hub.Validation.before neuman.Hub.Journal.check_idempotency neuman.Hub.Leases.latest
    neuman.Hub.Journal.store_idempotency neuman.Hub.Journal.append_evidence
acquired_ok = refl

acquire_twice_example :
    acquire_lease_batch libs 0
      (call_at 5000 "z")
      acquired.0
      ben
      "p"
      "k1"
      lease_request
      "h1"
      "locks.acquire"
    ≡ ok (acquired.0, acquired.1)
acquire_twice_example =
    acquire_twice libs libs 10 0 (call_at 1000 "a") (call_at 5000 "z") start_db acquired.0 ben "p"
      "k1" lease_request "h1" "locks.acquire" acquired.1 acquired_ok

abbrev any_lease : Lease
any_lease = new_lease (call_at 0 "") ben "p" lease_request 0 "cell_a"

abbrev renewal : Db × Lease
renewal =
    value_or (renew_lease libs (call_at 3000 "r") acquired.0 ben "p" "a_0" "k2" renew_request "h2")
      (start_db, any_lease)

renewal_ok :
    renew_lease libs (call_at 3000 "r") acquired.0 ben "p" "a_0" "k2" renew_request "h2"
    ≡ ok (renewal.0, renewal.1)
unfolding renew_lease neuman.Hub.Access.membership_role acquire_lease_batch neuman.Hub.Access.allows
    neuman.Hub.Validation.validate_name neuman.Hub.Validation.sorted_unique neuman.Prelude.bytes_eq
    neuman.Hub.Validation.before neuman.Hub.Journal.check_idempotency neuman.Hub.Leases.latest
    neuman.Hub.Journal.store_idempotency neuman.Hub.Journal.append_evidence
    neuman.Hub.Journal.is_record
renewal_ok = refl

-- The second lease is not renewed: the first one's response is replayed.
renew_any_lease_example :
    renew_lease libs (call_at 4000 "s") renewal.0 ben "p" "a_1" "k2" renew_request "h2"
    ≡ ok (renewal.0, renewal.1)
renew_any_lease_example =
    renew_any_lease libs libs (call_at 3000 "r") (call_at 4000 "s") acquired.0 renewal.0 ben "p"
      "a_0" "a_1" "k2" renew_request "h2" renewal.1 renewal_ok

renewal_counter : renewal.1.renewal_counter ≡ 1
unfolding renew_lease neuman.Hub.Access.membership_role acquire_lease_batch neuman.Hub.Access.allows
    neuman.Hub.Validation.validate_name neuman.Hub.Validation.sorted_unique neuman.Prelude.bytes_eq
    neuman.Hub.Validation.before neuman.Hub.Journal.check_idempotency neuman.Hub.Leases.latest
    neuman.Hub.Journal.store_idempotency neuman.Hub.Journal.append_evidence
    neuman.Hub.Journal.is_record
renewal_counter = refl
