-- ===== src/Bridge/PairingExample.antt =====
-- A pairing of a plugin with the registry of bridge.rs.
use neuman.Prelude.{
  ℕ, ◌≤◌, ◌≡◌, refl, arith, true, List, [], ◌∷◌, ◌++◌, Bytes, codes, length, replicate, Result, ok,
  err,
}
use neuman.Bridge.{BridgeError, pairing_required}
use neuman.Bridge.Pairing.{
  PairingRegistry, PairRequest, PairSuccess, BridgeEvent, Draw, pairing_requested, issue_challenge,
  approve_pairing, revoke_plugin,
}
use neuman.Bridge.Pairing.Complete.{complete_pairing, authenticate_credential}
use neuman.Bridge.Pairing.Runs.{
  Happening, issued, approved, granted, Run, start, issuing, approving, completing, is_granted,
  grants_of,
}
use neuman.Bridge.Pairing.Grants.{authenticated_was_paired}
use neuman.Bridge.Pairing.Once.{challenge_pairs_once}

-- A stand-in for BLAKE3
abbrev toy_hash : Bytes → Bytes
toy_hash m = replicate 32 (length m)

abbrev empty : PairingRegistry
empty = record { challenges = []; credentials = [] }

abbrev first_draw : Draw
first_draw = record {
  text = codes "challenge";
  key = [];
  code_number = 7654321;
  now = 10;
  later = 11;
}

abbrev ttl : ℕ
ttl = 1000

abbrev plugin : Bytes
plugin = codes "plg_12345678"

abbrev secret : Bytes
secret = replicate 43 b'x'

abbrev pair_draw : Draw
pair_draw = record { text = secret; key = codes "cred_1"; code_number = 0; now = 30; later = 31 }

abbrev request : PairRequest
request = record {
  challenge = codes "challenge";
  pairing_code = codes "654321";
  plugin_installation_id = plugin;
  plugin_version = codes "0.1.0";
  protocol_version = codes "1.0";
}

abbrev waiting : PairingRegistry
waiting = (issue_challenge ttl first_draw empty).0

-- Before the approval, the request is only passed on.
unapproved : (complete_pairing toy_hash pair_draw request waiting).2 ≡ err pairing_required
unfolding complete_pairing issue_challenge neuman.Bridge.Transfer.validate_scoped_id
    neuman.Prelude.strip_prefix neuman.Bridge.Pairing.Protocol.negotiate_protocol
    neuman.Prelude.bytes_eq
unapproved = refl

abbrev value_or : Result BridgeError PairingRegistry → PairingRegistry
value_or (ok s) = s
value_or (err e) = empty

abbrev allowed : PairingRegistry
allowed = value_or (approve_pairing 20 (codes "challenge") plugin waiting)

approved-ok : approve_pairing 20 (codes "challenge") plugin waiting ≡ ok allowed
unfolding approve_pairing neuman.Bridge.Transfer.validate_scoped_id neuman.Prelude.strip_prefix
    issue_challenge neuman.Prelude.bytes_eq
approved-ok = refl

abbrev done : PairingRegistry
done = (complete_pairing toy_hash pair_draw request allowed).0

abbrev history : List Happening
history =
    granted (codes "challenge") plugin (toy_hash secret)
    ∷ approved (codes "challenge") plugin
    ∷ issued (codes "challenge")
    ∷ []

to_done : Run toy_hash ttl done history
unfolding complete_pairing issue_challenge approve_pairing neuman.Bridge.Transfer.validate_scoped_id
    neuman.Prelude.strip_prefix neuman.Bridge.Pairing.Protocol.negotiate_protocol
    neuman.Prelude.bytes_eq
to_done =
    completing (approving (issuing start first_draw) 20 (codes "challenge") plugin approved-ok)
      pair_draw request

authenticated : authenticate_credential toy_hash 40 plugin secret done ≡ ok tt
unfolding authenticate_credential complete_pairing neuman.Bridge.Transfer.validate_scoped_id
    neuman.Prelude.strip_prefix neuman.Bridge.Pairing.Protocol.negotiate_protocol approve_pairing
    issue_challenge neuman.Prelude.bytes_eq
authenticated = refl

authenticated_was_paired_example : is_granted plugin (toy_hash secret) history ≡ true
authenticated_was_paired_example =
    authenticated_was_paired toy_hash ttl 40 plugin secret to_done authenticated

challenge_pairs_once_example : grants_of (codes "challenge") history ≤ 1
challenge_pairs_once_example = challenge_pairs_once toy_hash ttl (codes "challenge") to_done
