-- ===== src/Hub/Examples/ProposalRuns.antt =====
-- Runs of the proposal handlers of hub.rs.
use neuman.Prelude.{ℕ, ◌≡◌, ◌≢◌, refl, arith, String, List, [], ◌∷◌, ok, err, some, none}
use neuman.Hub.Examples.{value_or, libs, call_at, ana, ben}
use neuman.Hub.Examples.Studio.{
  studio_db, open_proposal, rivals_db, art_libs, proposal_request, accept_request, reject_request,
  manifest,
}
use neuman.Hub.Database.{Db}
use neuman.Hub.Records.{ArtProposal, ArtRevision}
use neuman.Hub.Runs.{Reach, here, next, propose, accept, reject}
use neuman.Hub.Leases.Acquire.{acquire_lease_batch, batch_of}
use neuman.Hub.Proposals.Create.{create_art_proposal}
use neuman.Hub.Proposals.Review.{reject_art_proposal}
use neuman.Hub.Proposals.Accept.{new_revision}
use neuman.Hub.Proposals.Accept.Commit.{accept_art_proposal}

abbrev pub proposed : Db × ArtProposal
proposed =
    value_or
      (create_art_proposal libs art_libs (call_at 2000 "b") studio_db ben "p" "k2" proposal_request
        "h2")
      (studio_db, open_proposal "")

pub to_proposed : Reach libs 0 studio_db 0 proposed.0
unfolding create_art_proposal neuman.Hub.Access.membership_role neuman.Hub.Access.allows
    neuman.Hub.Validation.validate_name neuman.Hub.Validation.sorted_unique
    neuman.Hub.Journal.check_idempotency neuman.Hub.Leases.latest
    neuman.Hub.Journal.store_idempotency neuman.Hub.Journal.append_evidence
    neuman.Hub.Validation.validate_hash_label neuman.Prelude.bytes_eq neuman.Hub.Validation.before
    neuman.Hub.Validation.validate_content_hash neuman.Prelude.strip_prefix
    neuman.Hub.Journal.is_record neuman.Hub.Proposals.is_authorized
    neuman.Hub.Proposals.verified_object
    neuman.Hub.Proposals.Manifest.Validate.validate_canonical_art_proposal
    neuman.Domain.Base32.encode_base32 neuman.Domain.Identifiers.parse_cell_id
    neuman.Domain.ContentHash.from_str neuman.Domain.Base32.decode_base32
    neuman.Domain.ContentHash.display neuman.Domain.ArtRevision.compute_state_root
    neuman.Domain.ArtRevision.cell_key neuman.Domain.ArtRevision.leaf_message
    neuman.Hub.Leases.Acquire.find_channel
to_proposed =
    next here (propose art_libs (call_at 2000 "b") ben "p" "k2" proposal_request "h2" proposed refl)

abbrev pub accepted : Db × ArtRevision
accepted =
    value_or
      (accept_art_proposal libs art_libs (call_at 3000 "d") rivals_db ana "p" "b_0" "k4"
        accept_request "h3")
      (
        studio_db,
        new_revision art_libs (call_at 0 "") ana "p" "b_0" (open_proposal "") none manifest,
      )

pub to_accepted : Reach libs 1000 rivals_db 1000 accepted.0
unfolding accept_art_proposal create_art_proposal neuman.Hub.Access.membership_role
    neuman.Hub.Access.allows neuman.Hub.Validation.validate_name neuman.Hub.Validation.sorted_unique
    neuman.Hub.Journal.check_idempotency neuman.Hub.Leases.latest
    neuman.Hub.Journal.store_idempotency neuman.Hub.Journal.append_evidence
    neuman.Hub.Validation.validate_hash_label neuman.Prelude.bytes_eq neuman.Hub.Validation.before
    neuman.Hub.Validation.validate_content_hash neuman.Prelude.strip_prefix
    neuman.Hub.Journal.is_record neuman.Hub.Proposals.is_authorized
    neuman.Hub.Proposals.verified_object
    neuman.Hub.Proposals.Manifest.Validate.validate_canonical_art_proposal
    neuman.Domain.Base32.encode_base32 neuman.Domain.Identifiers.parse_cell_id
    neuman.Domain.ContentHash.from_str neuman.Domain.Base32.decode_base32
    neuman.Domain.ContentHash.display neuman.Domain.ArtRevision.compute_state_root
    neuman.Domain.ArtRevision.cell_key neuman.Domain.ArtRevision.leaf_message
    neuman.Hub.Access.is_admin
to_accepted =
    next here
      (accept art_libs (call_at 3000 "d") ana "p" "b_0" "k4" accept_request "h3" accepted refl)

-- The rival is rejected.
abbrev pub turned_down : Db × ArtProposal
turned_down =
    value_or
      (reject_art_proposal libs (call_at 4000 "e") accepted.0 ana "p" "c_0" "k5" reject_request
        "h4")
      (studio_db, open_proposal "")

pub to_turned_down : Reach libs 1000 accepted.0 1000 turned_down.0
unfolding accept_art_proposal reject_art_proposal create_art_proposal
    neuman.Hub.Access.membership_role neuman.Hub.Access.allows neuman.Hub.Validation.validate_name
    neuman.Hub.Validation.sorted_unique neuman.Hub.Journal.check_idempotency
    neuman.Hub.Leases.latest neuman.Hub.Journal.store_idempotency neuman.Hub.Journal.append_evidence
    neuman.Hub.Validation.validate_hash_label neuman.Prelude.bytes_eq neuman.Hub.Validation.before
    neuman.Hub.Validation.validate_content_hash neuman.Prelude.strip_prefix
    neuman.Hub.Journal.is_record neuman.Hub.Proposals.is_authorized
    neuman.Hub.Proposals.verified_object
    neuman.Hub.Proposals.Manifest.Validate.validate_canonical_art_proposal
    neuman.Domain.Base32.encode_base32 neuman.Domain.Identifiers.parse_cell_id
    neuman.Domain.ContentHash.from_str neuman.Domain.Base32.decode_base32
    neuman.Domain.ContentHash.display neuman.Domain.ArtRevision.compute_state_root
    neuman.Domain.ArtRevision.cell_key neuman.Domain.ArtRevision.leaf_message
    neuman.Hub.Access.is_admin
to_turned_down =
    next here (reject (call_at 4000 "e") ana "p" "c_0" "k5" reject_request "h4" turned_down refl)
