-- ===== src/Bridge/Transfer/Complete.antt =====
-- `complete`, `require_context`, `is_verified_for`, `cancel` and `cancel_all` of `TransferManager`.
use neuman.Prelude.{
  ◌==◌, Bool, true, false, not, ◌&&◌, ◌||◌, Option, some, none, List, ◌∷◌, Bytes, bytes_eq, any,
  find?, if◌then◌else◌, Result, ok, err, ok_or, reject_if, ◌>>=◌,
}
use neuman.Bridge.{BridgeError, transfer_rejected, content_hash_mismatch, context_stale, io}
use neuman.Bridge.Hash.{blake3_label}
use neuman.Bridge.Transfer.{
  SessionBinding, TransferManager, UploadState, VerifiedTransfer, Disk, read_file, remove_file,
  put_file, verified_path,
}

-- `self.verified.get(transfer_id)`
unfoldable pub find_verified : Bytes → List VerifiedTransfer → Option VerifiedTransfer
find_verified id = find? (λ (v : VerifiedTransfer). bytes_eq v.transfer_id id)

-- What `complete` leaves: the manager, the files, and the transfer or the error. An error after
-- `self.upload.take()` leaves no upload.
abbrev pub Outcome : Type 0
Outcome = (TransferManager × Disk) × Result BridgeError VerifiedTransfer

module _ (blake3 : Bytes → Bytes) where
  abbrev pub verified_of : TransferManager → Bytes → UploadState → Bytes → VerifiedTransfer
  verified_of m transfer_id u content = record {
    transfer_id = transfer_id;
    content_hash = blake3_label blake3 content;
    path = verified_path m transfer_id;
    size_bytes = u.offer.size_bytes;
    resource_id = u.offer.resource_id;
    binding = u.binding;
  }

  -- The comparison of the hash, and `fs::rename`
  unfoldable pub verify : TransferManager → Disk → Bytes → UploadState → Bytes → Outcome
  unfolding put_file
  verify m disk transfer_id u content =
      if not (bytes_eq (blake3_label blake3 content) u.offer.content_hash)
      then ((m, remove_file u.path disk), err content_hash_mismatch)
      else (
        (
          record m { verified = verified_of m transfer_id u content ∷ m.verified },
          put_file (verified_path m transfer_id) content (remove_file u.path disk),
        ),
        ok (verified_of m transfer_id u content),
      )

  -- From `File::open` on
  unfoldable pub read_and_verify :
      TransferManager → Disk → Bytes → UploadState → Option Bytes → Outcome
  unfolding verify
  read_and_verify m disk transfer_id u none = ((m, disk), err io)
  read_and_verify m disk transfer_id u (some content) = verify m disk transfer_id u content

  unfoldable pub complete_upload : TransferManager → Disk → Bytes → Option UploadState → Outcome
  unfolding read_and_verify
  complete_upload m disk transfer_id none = ((m, disk), err (transfer_rejected "no active upload"))
  complete_upload m disk transfer_id (some u) =
      if not (bytes_eq transfer_id u.offer.transfer_id) || any not u.received
      then ((m, disk), err (transfer_rejected "upload is incomplete"))
      else read_and_verify (record m { upload = none }) disk transfer_id u (read_file u.path disk)

  unfoldable pub complete_new : TransferManager → Disk → Bytes → Option VerifiedTransfer → Outcome
  unfolding complete_upload
  complete_new m disk transfer_id (some v) = ((m, disk), ok v)
  complete_new m disk transfer_id none = complete_upload m disk transfer_id m.upload

  -- `TransferManager::complete`
  unfoldable pub complete : TransferManager → Disk → Bytes → Outcome
  unfolding complete_new find_verified
  complete m disk transfer_id =
      complete_new m disk transfer_id (find_verified transfer_id m.verified)

abbrev option_eq : Option Bytes → Option Bytes → Bool
option_eq none none = true
option_eq (some a) (some b) = bytes_eq a b
option_eq _ _ = false

-- `==` on `SessionBinding`
unfoldable pub binding_eq : SessionBinding → SessionBinding → Bool
binding_eq a b =
    bytes_eq a.project_id b.project_id
    && bytes_eq a.workspace_id b.workspace_id
    && option_eq a.universe_id b.universe_id
    && option_eq a.place_id b.place_id
    && bytes_eq a.channel b.channel
    && bytes_eq a.config_hash b.config_hash
    && bytes_eq a.ownership_hash b.ownership_hash
    && bytes_eq a.policy_hash b.policy_hash
    && option_eq a.accepted_art_head b.accepted_art_head
    && option_eq a.accepted_state_root b.accepted_state_root
    && a.context_version == b.context_version

-- `.filter(|upload| upload.offer.transfer_id == transfer_id)`
unfoldable pub upload_of : Bytes → Option UploadState → Option UploadState
upload_of id none = none
upload_of id (some u) = if bytes_eq u.offer.transfer_id id then some u else none

-- The binding that `require_context` expects: the upload's, or that of the verified transfer
unfoldable pub expected_binding :
    Option UploadState → Option VerifiedTransfer → Option SessionBinding
expected_binding (some u) v = some u.binding
expected_binding none (some v) = some v.binding
expected_binding none none = none

-- `TransferManager::require_context`
unfoldable pub require_context :
    TransferManager → Bytes → SessionBinding → Result BridgeError (Unit {0})
unfolding expected_binding upload_of binding_eq find_verified
require_context m id binding = do
  expected ←
      ok_or (expected_binding (upload_of id m.upload) (find_verified id m.verified))
        (transfer_rejected "unknown transfer")
  reject_if (not (binding_eq expected binding)) context_stale

-- `TransferManager::is_verified_for`
unfoldable pub is_verified_for : TransferManager → Bytes → Bytes → SessionBinding → Bool
unfolding find_verified binding_eq
is_verified_for m id resource_id binding = elim (find_verified id m.verified) [
  | none ↦ false
  | some v ↦ bytes_eq v.resource_id resource_id && binding_eq v.binding binding
]

-- `if let Some(upload) = self.upload.take() { fs::remove_file(upload.path) }`
unfoldable pub drop_upload : TransferManager → Disk → Option UploadState → TransferManager × Disk
drop_upload m disk none = (m, disk)
drop_upload m disk (some u) = (record m { upload = none }, remove_file u.path disk)

-- `TransferManager::cancel`
unfoldable pub cancel : TransferManager → Disk → Bytes → TransferManager × Disk
unfolding drop_upload upload_of
cancel m disk id = drop_upload m disk (upload_of id m.upload)

-- `TransferManager::cancel_all`
unfoldable pub cancel_all : TransferManager → Disk → TransferManager × Disk
unfolding drop_upload
cancel_all m disk = drop_upload m disk m.upload
