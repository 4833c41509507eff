-- ===== src/Hub/Runs.antt =====
-- Runs of the handlers of hub.rs: leases, releases and art proposals on one database. The libraries
-- that shape stored text stay the same along a run, and the clock of the lease handlers does not run
-- backwards.
pub mod Logged
pub mod LeaseLog
pub mod ReleaseLog
pub mod ProposalLog
pub mod Invariants
pub mod Exclusive
pub mod Laws
pub mod Outcomes
use neuman.Prelude.{ℕ, ◌≤◌, ◌≡◌, String, Bool, ok}
use neuman.Hub.{Json}
use neuman.Hub.Access.{Actor}
use neuman.Hub.Records.{
  Lease, LeaseBatch, ReleaseRecord, ReleaseApproval, ArtProposal, ArtReview, ArtRevision,
}
use neuman.Hub.Database.{Db, Call, Libs}
use neuman.Hub.Leases.{AcquireLeaseBatchRequest, RenewLeaseRequest}
use neuman.Hub.Leases.Acquire.{acquire_lease_batch}
use neuman.Hub.Leases.Held.{renew_lease, release_lease}
use neuman.Hub.Releases.{
  CreateReleaseRequest, ApproveReleaseRequest, ReleaseActionRequest, create_release,
}
use neuman.Hub.Releases.Approval.{approve_release_call}
use neuman.Hub.Releases.Action.{release_action}
use neuman.Hub.Proposals.{
  ArtLibs, CreateArtProposalRequest, ReviewProposalRequest, AcceptProposalRequest,
  RejectProposalRequest,
}
use neuman.Hub.Proposals.Create.{create_art_proposal}
use neuman.Hub.Proposals.Review.{review_art_proposal, reject_art_proposal}
use neuman.Hub.Proposals.Accept.Commit.{accept_art_proposal}

-- One committed call, from a database at one time to a database at another
pub data Step (libs : Libs) (t : ℕ) (db : Db) : ℕ → Db → Type 0 where
  acquire :
      (quota : ℕ) (call : Call) (actor : Actor) (project_id key : String)
      (request : AcquireLeaseBatchRequest) (hash route : String) (out : Db × LeaseBatch)
      → t ≤ call.now
      → acquire_lease_batch libs quota call db actor project_id key request hash route ≡ ok out
      → Step libs t db call.now out.0
  renew :
      (call : Call) (actor : Actor) (project_id lease_id key : String) (request : RenewLeaseRequest)
      (hash : String) (out : Db × Lease)
      → t ≤ call.now
      → renew_lease libs call db actor project_id lease_id key request hash ≡ ok out
      → Step libs t db call.now out.0
  give_up :
      (call : Call) (actor : Actor) (project_id lease_id reason : String) (force : Bool)
      (out : Db × Json)
      → release_lease libs call db actor project_id lease_id reason force ≡ ok out
      → Step libs t db t out.0
  draft :
      (call : Call) (actor : Actor) (project_id key : String) (request : CreateReleaseRequest)
      (hash : String) (out : Db × ReleaseRecord)
      → create_release libs call db actor project_id key request hash ≡ ok out
      → Step libs t db t out.0
  approve :
      (call : Call) (actor : Actor) (project_id release_id key : String)
      (request : ApproveReleaseRequest) (hash : String) (out : Db × ReleaseApproval)
      → approve_release_call libs call db actor project_id release_id key request hash ≡ ok out
      → Step libs t db t out.0
  act :
      (call : Call) (actor : Actor) (project_id release_id action key : String)
      (request : ReleaseActionRequest) (hash : String) (out : Db × ReleaseRecord)
      → release_action libs call db actor project_id release_id action key request hash ≡ ok out
      → Step libs t db t out.0
  propose :
      (art : ArtLibs) (call : Call) (actor : Actor) (project_id key : String)
      (request : CreateArtProposalRequest) (hash : String) (out : Db × ArtProposal)
      → create_art_proposal libs art call db actor project_id key request hash ≡ ok out
      → Step libs t db t out.0
  review :
      (call : Call) (actor : Actor) (project_id proposal_id key : String)
      (request : ReviewProposalRequest) (hash : String) (out : Db × ArtReview)
      → review_art_proposal libs call db actor project_id proposal_id key request hash ≡ ok out
      → Step libs t db t out.0
  reject :
      (call : Call) (actor : Actor) (project_id proposal_id key : String)
      (request : RejectProposalRequest) (hash : String) (out : Db × ArtProposal)
      → reject_art_proposal libs call db actor project_id proposal_id key request hash ≡ ok out
      → Step libs t db t out.0
  accept :
      (art : ArtLibs) (call : Call) (actor : Actor) (project_id proposal_id key : String)
      (request : AcceptProposalRequest) (hash : String) (out : Db × ArtRevision)
      → accept_art_proposal libs art call db actor project_id proposal_id key request hash ≡ ok out
      → Step libs t db t out.0

pub data Reach (libs : Libs) (t : ℕ) (db : Db) : ℕ → Db → Type 0 where
  here : Reach libs t db t db
  next :
      {t' t'' : ℕ} {db' db'' : Db}
      → Reach libs t db t' db'
      → Step libs t' db' t'' db''
      → Reach libs t db t'' db''
