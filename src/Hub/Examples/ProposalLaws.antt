-- ===== src/Hub/Examples/ProposalLaws.antt =====
-- The laws of the proposals of hub.rs, at the runs.
use neuman.Prelude.{
  get_elem?, ℕ, ◌≡◌, ◌≢◌, ◌⊎◌, suc, refl, ap, inl, inr, arith, String, Bool, true, false, Option,
  List, [], ◌∷◌, All, any, all, length, ok, err, some, none, str_eq, str_eq_iff,
}
use neuman.Hub.Access.{Role, accept_art, is_admin, membership_role}
use neuman.Hub.Records.{ArtProposal, Channel, Lease}
use neuman.Hub.Leases.{base_stale}
use neuman.Hub.Leases.Exclusive.{IsExclusive}
use neuman.Hub.Leases.Acquire.{find_channel}
use neuman.Hub.Proposals.{read_revision, find_proposal, get_art_proposal}
use neuman.Hub.Proposals.Accept.{is_verified, is_author_lease, is_approving}
use neuman.Hub.Proposals.Accept.Commit.{accept_new, accept_art_proposal}
use neuman.Hub.Proposals.Create.{create_art_proposal}
use neuman.Hub.Proposals.Duties.{accepted_by_right, accepted_leases_end}
use neuman.Hub.Proposals.History.{history, IsLine}
use neuman.Hub.Proposals.Settled.{settles}
use neuman.Hub.Journal.{check_idempotency}
use neuman.Hub.Journal.Answers.{Answer}
use neuman.Hub.Proposals.Siblings.{stale_sibling}
use neuman.Hub.Runs.Exclusive.{hub_run-IsExclusive}
use neuman.Hub.Runs.Laws.{hub_run-IsRecorded, reached_channel}
use neuman.Hub.Runs.Logged.{IsRecorded}
use neuman.Hub.Runs.Outcomes.{reached_proposal, closed_proposal}
use neuman.Hub.Examples.{libs, call_at, ana, ben}
use neuman.Hub.Examples.Studio.{studio_db, open_proposal, rivals_db, art_libs, accept_request}
use neuman.Hub.Examples.ProposalRuns.{
  proposed, accepted, turned_down, to_proposed, to_accepted, to_turned_down,
}

hub_run-IsExclusive_example : IsExclusive 1000 accepted.0.leases
hub_run-IsExclusive_example = hub_run-IsExclusive (tt, tt) to_accepted

hub_run-IsRecorded_example : IsRecorded libs accepted.0
hub_run-IsRecorded_example = hub_run-IsRecorded ((λ _. tt), tt) to_accepted

abbrev main_channel : Channel
main_channel = record { id = "main"; project_id = "p"; head_revision_id = some "d_0"; version = 2 }

reached_channel_example :
    IsLine (some "d_0") (history "main" "p" accepted.0.revisions)
    × (2 ≡ suc (length (history "main" "p" accepted.0.revisions)))
unfolding accept_art_proposal create_art_proposal neuman.Hub.Access.membership_role
    neuman.Hub.Access.allows neuman.Hub.Validation.validate_name neuman.Hub.Validation.sorted_unique
    neuman.Hub.Journal.check_idempotency neuman.Hub.Leases.latest
    neuman.Hub.Journal.store_idempotency neuman.Hub.Journal.append_evidence
    neuman.Hub.Validation.validate_hash_label neuman.Prelude.bytes_eq neuman.Hub.Validation.before
    neuman.Hub.Validation.validate_content_hash neuman.Prelude.strip_prefix
    neuman.Hub.Journal.is_record neuman.Hub.Proposals.is_authorized
    neuman.Hub.Proposals.verified_object
    neuman.Hub.Proposals.Manifest.Validate.validate_canonical_art_proposal
    neuman.Domain.Base32.encode_base32 neuman.Domain.Identifiers.parse_cell_id
    neuman.Domain.ContentHash.from_str neuman.Domain.Base32.decode_base32
    neuman.Domain.ContentHash.display neuman.Domain.ArtRevision.compute_state_root
    neuman.Domain.ArtRevision.cell_key neuman.Domain.ArtRevision.leaf_message
    neuman.Hub.Access.is_admin find_channel
reached_channel_example =
    reached_channel libs 1000 1000 rivals_db accepted.0 "main" "p" main_channel refl
      ((refl, refl), tt) to_accepted refl

reached_proposal_example :
    (proposed.1.status ≡ "open")
    ⊎ ((proposed.1.status ≡ "rejected")
        ⊎ ((proposed.1.status ≡ "accepted")
            × (any (settles proposed.1) proposed.0.revisions ≡ true)))
unfolding accept_art_proposal create_art_proposal neuman.Hub.Access.membership_role
    neuman.Hub.Access.allows neuman.Hub.Validation.validate_name neuman.Hub.Validation.sorted_unique
    neuman.Hub.Journal.check_idempotency neuman.Hub.Leases.latest
    neuman.Hub.Journal.store_idempotency neuman.Hub.Journal.append_evidence
    neuman.Hub.Validation.validate_hash_label neuman.Prelude.bytes_eq neuman.Hub.Validation.before
    neuman.Hub.Validation.validate_content_hash neuman.Prelude.strip_prefix
    neuman.Hub.Journal.is_record neuman.Hub.Proposals.is_authorized
    neuman.Hub.Proposals.verified_object
    neuman.Hub.Proposals.Manifest.Validate.validate_canonical_art_proposal
    neuman.Domain.Base32.encode_base32 neuman.Domain.Identifiers.parse_cell_id
    neuman.Domain.ContentHash.from_str neuman.Domain.Base32.decode_base32
    neuman.Domain.ContentHash.display neuman.Domain.ArtRevision.compute_state_root
    neuman.Domain.ArtRevision.cell_key neuman.Domain.ArtRevision.leaf_message
    neuman.Hub.Access.is_admin get_art_proposal find_channel
reached_proposal_example =
    reached_proposal libs 0 0 studio_db proposed.0 ben "p" "b_0" proposed.1 refl to_proposed refl

abbrev closed : ArtProposal
closed = record (open_proposal "b_0") {
  status = "accepted";
  accepted_revision_id = some "d_0";
  updated_at_ms = 3000;
}

texts-ne : (a b : String) → str_eq a b ≡ false → a ≢ b
texts-ne a b h = λ e. cc ((str_eq_iff a b).1 e, h)

closed_proposal_example : find_proposal turned_down.0 "b_0" "p" ≡ ok closed
unfolding accept_art_proposal create_art_proposal neuman.Hub.Access.membership_role
    neuman.Hub.Access.allows neuman.Hub.Validation.validate_name neuman.Hub.Validation.sorted_unique
    neuman.Hub.Journal.check_idempotency neuman.Hub.Leases.latest
    neuman.Hub.Journal.store_idempotency neuman.Hub.Journal.append_evidence
    neuman.Hub.Validation.validate_hash_label neuman.Prelude.bytes_eq neuman.Hub.Validation.before
    neuman.Hub.Validation.validate_content_hash neuman.Prelude.strip_prefix
    neuman.Hub.Journal.is_record neuman.Hub.Proposals.is_authorized
    neuman.Hub.Proposals.verified_object
    neuman.Hub.Proposals.Manifest.Validate.validate_canonical_art_proposal
    neuman.Domain.Base32.encode_base32 neuman.Domain.Identifiers.parse_cell_id
    neuman.Domain.ContentHash.from_str neuman.Domain.Base32.decode_base32
    neuman.Domain.ContentHash.display neuman.Domain.ArtRevision.compute_state_root
    neuman.Domain.ArtRevision.cell_key neuman.Domain.ArtRevision.leaf_message
    neuman.Hub.Access.is_admin get_art_proposal
closed_proposal_example =
    closed_proposal libs 1000 1000 accepted.0 turned_down.0 ana "p" "b_0" closed refl
      (texts-ne closed.status "open" refl) to_turned_down

accepting :
    accept_new libs art_libs (call_at 3000 "d") rivals_db ana "p" "b_0" "k4" accept_request "h3"
    ≡ ok (accepted.0, accepted.1)
unfolding accept_art_proposal create_art_proposal neuman.Hub.Access.membership_role
    neuman.Hub.Access.allows neuman.Hub.Validation.validate_name neuman.Hub.Validation.sorted_unique
    neuman.Hub.Journal.check_idempotency neuman.Hub.Leases.latest
    neuman.Hub.Journal.store_idempotency neuman.Hub.Journal.append_evidence
    neuman.Hub.Validation.validate_hash_label neuman.Prelude.bytes_eq neuman.Hub.Validation.before
    neuman.Hub.Validation.validate_content_hash neuman.Prelude.strip_prefix
    neuman.Hub.Journal.is_record neuman.Hub.Proposals.is_authorized
    neuman.Hub.Proposals.verified_object
    neuman.Hub.Proposals.Manifest.Validate.validate_canonical_art_proposal
    neuman.Domain.Base32.encode_base32 neuman.Domain.Identifiers.parse_cell_id
    neuman.Domain.ContentHash.from_str neuman.Domain.Base32.decode_base32
    neuman.Domain.ContentHash.display neuman.Domain.ArtRevision.compute_state_root
    neuman.Domain.ArtRevision.cell_key neuman.Domain.ArtRevision.leaf_message
    neuman.Hub.Access.is_admin
accepting = refl

stale_sibling_example :
    Answer accepted.0
      (membership_role accepted.0.projects accepted.0.members ana "p" accept_art)
      (check_idempotency read_revision accepted.0 ana "p" "art_proposals.accept" "k6" "h3")
      (base_stale "The accepted channel head changed; rebase or merge the proposal."
        (some accepted.1.id))
      (accept_art_proposal libs art_libs
        (call_at 3500 "f")
        accepted.0
        ana
        "p"
        "c_0"
        "k6"
        accept_request
        "h3")
unfolding find_proposal
stale_sibling_example =
    stale_sibling libs libs art_libs art_libs (call_at 3000 "d") (call_at 3500 "f") rivals_db
      accepted.0 ana ana "p" "b_0" "c_0" "k4" "k6" accept_request accept_request "h3" "h3"
      accepted.1 (open_proposal "b_0") (open_proposal "c_0")
      (record { line = refl; version = refl }, tt) accepting refl refl (texts-ne "c_0" "b_0" refl)
      refl refl refl

accepted_by_right_example :
    (all (is_verified rivals_db "p") (open_proposal "b_0").object_hashes ≡ true)
    × All
        (λ resource.
          any (is_author_lease 3000 "p" (open_proposal "b_0") resource) rivals_db.leases ≡ true)
        (open_proposal "b_0").resource_ids
    × ((any (is_approving "b_0") rivals_db.reviews ≡ true)
        ⊎ ((role : Role) × (membership_role rivals_db.projects rivals_db.members ana "p" accept_art
              ≡ ok role)
            × (is_admin role ≡ true)))
unfolding find_proposal
accepted_by_right_example =
    accepted_by_right libs art_libs (call_at 3000 "d") rivals_db accepted.0 ana "p" "b_0" "k4"
      accept_request "h3" (open_proposal "b_0") accepted.1 accepting refl

-- Ben's lease, on which he made the proposal, as the acceptance leaves it
abbrev author_lease : Lease
author_lease = record {
  id = "a_0";
  project_id = "p";
  channel_id = "main";
  resource_id = "cell_aaaa";
  base_revision_id = none;
  workstream = "lobby";
  intended_action = "edit";
  cell_hash = none;
  holder_principal_id = "ben";
  holder_session_id = "s2";
  renewal_counter = 0;
  acquired_at_ms = 1000;
  expires_at_ms = 121000;
  released_at_ms = some 3000;
  release_reason = some "proposal accepted";
  outcome_reference = some "d_0";
}

author_lease-found : get_elem? accepted.0.leases 0 ≡ some author_lease
unfolding accept_art_proposal create_art_proposal neuman.Hub.Access.membership_role
    neuman.Hub.Access.allows neuman.Hub.Validation.validate_name neuman.Hub.Validation.sorted_unique
    neuman.Hub.Journal.check_idempotency neuman.Hub.Leases.latest
    neuman.Hub.Journal.store_idempotency neuman.Hub.Journal.append_evidence
    neuman.Hub.Validation.validate_hash_label neuman.Prelude.bytes_eq neuman.Hub.Validation.before
    neuman.Hub.Validation.validate_content_hash neuman.Prelude.strip_prefix
    neuman.Hub.Journal.is_record neuman.Hub.Proposals.is_authorized
    neuman.Hub.Proposals.verified_object
    neuman.Hub.Proposals.Manifest.Validate.validate_canonical_art_proposal
    neuman.Domain.Base32.encode_base32 neuman.Domain.Identifiers.parse_cell_id
    neuman.Domain.ContentHash.from_str neuman.Domain.Base32.decode_base32
    neuman.Domain.ContentHash.display neuman.Domain.ArtRevision.compute_state_root
    neuman.Domain.ArtRevision.cell_key neuman.Domain.ArtRevision.leaf_message
    neuman.Hub.Access.is_admin
author_lease-found = refl

accepted_leases_end_example : author_lease.released_at_ms ≢ none
unfolding find_proposal
accepted_leases_end_example =
    accepted_leases_end libs art_libs (call_at 3000 "d") rivals_db accepted.0 ana "p" "b_0" "k4"
      accept_request "h3" (open_proposal "b_0") accepted.1 0 0 "cell_aaaa" author_lease accepting
      refl refl author_lease-found refl refl refl refl
