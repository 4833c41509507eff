-- ===== src/Domain/ReleaseStatus.antt =====
-- `ReleaseStatus` of domain.rs and its state machine.
pub mod Paths
use neuman.Prelude.{
  String, Bool, true, false, not, List, [], ◌∷◌, Result, ok, err, reject_if, ◌>>=◌, ◌>>◌,
}
use neuman.Domain.{DomainError, illegal_transition}

-- `enum ReleaseStatus`
pub data ReleaseStatus : Type 0 where
  draft awaiting_approval approved preflighting publishing published partially_published :
      ReleaseStatus
  rollback_required failed_no_change unknown_external_state rolling_back rolled_back : ReleaseStatus
  rollback_failed : ReleaseStatus

-- `{self:?}`: the derived `Debug`
unfoldable pub debug : ReleaseStatus → String
debug draft = "Draft"
debug awaiting_approval = "AwaitingApproval"
debug approved = "Approved"
debug preflighting = "Preflighting"
debug publishing = "Publishing"
debug published = "Published"
debug partially_published = "PartiallyPublished"
debug rollback_required = "RollbackRequired"
debug failed_no_change = "FailedNoChange"
debug unknown_external_state = "UnknownExternalState"
debug rolling_back = "RollingBack"
debug rolled_back = "RolledBack"
debug rollback_failed = "RollbackFailed"

-- `matches!((self, next), …)`
unfoldable pub is_allowed : ReleaseStatus → ReleaseStatus → Bool
is_allowed draft awaiting_approval = true
is_allowed draft approved = true
is_allowed awaiting_approval approved = true
is_allowed approved preflighting = true
is_allowed preflighting publishing = true
is_allowed partially_published publishing = true
is_allowed unknown_external_state publishing = true
is_allowed preflighting failed_no_change = true
is_allowed publishing failed_no_change = true
is_allowed publishing published = true
is_allowed publishing partially_published = true
is_allowed publishing unknown_external_state = true
is_allowed partially_published rollback_required = true
is_allowed rollback_required rolling_back = true
is_allowed published rolling_back = true
is_allowed rolling_back rolled_back = true
is_allowed rolling_back rollback_failed = true
is_allowed _ _ = false

-- `ReleaseStatus::transition`
unfoldable pub transition : ReleaseStatus → ReleaseStatus → Result DomainError ReleaseStatus
unfolding is_allowed debug
transition s next = do
  reject_if (not (is_allowed s next)) (illegal_transition "release" (debug s) (debug next))
  ok next
