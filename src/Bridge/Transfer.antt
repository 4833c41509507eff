-- ===== src/Bridge/Transfer.antt =====
-- `TransferManager` of bridge.rs: one upload at a time, in chunks, to a file that is verified at the
-- end. BLAKE3 and the base64url decoder (crates `blake3` and `base64`) are parameters. The files of
-- the manager's directory are a list of contents by path, the newest first, which stands beside the
-- manager; reading, writing and renaming a file that is there does not fail. A text is the
-- list of its bytes, and a path stands below that directory. A usize is 64 bits wide.
pub mod Chunks
pub mod Complete
pub mod Files
pub mod Verified
pub mod Quarantine
pub mod Completion
pub mod Geometry
pub mod Runs
use neuman.Prelude.{
  ℕ, zero, suc, ◌+◌, ◌-◌, ◌*◌, ◌/◌, ◌%◌, ◌^◌, String, Bool, true, false, not, ◌&&◌, ◌||◌, Option,
  some, none, List, [], ◌∷◌, ◌++◌, Bytes, codes, bytes_eq, all, any, find?, filter_by, get_or, set,
  length, replicate, ltb, leb, ◌==◌, if◌then◌else◌, str_eq, strip_prefix, is_ascii_alphanumeric,
  Result, ok, err, ok_or, reject_if, ◌>>◌, ◌>>=◌,
}
use neuman.Bridge.{
  BridgeError, transfer_rejected, context_stale, chunk_hash_mismatch, content_hash_mismatch,
  replay_detected, io,
}
use neuman.Bridge.Hash.{blake3_label, validate_blake3_hash}

-- `struct BridgeLimits`
pub record BridgeLimits : Type 0 where
  pub max_control_message_bytes : ℕ
  pub max_chunk_bytes : ℕ
  pub max_transfer_bytes : ℕ
  pub max_commands_in_flight : ℕ

-- `struct SessionBinding`
pub record SessionBinding : Type 0 where
  pub project_id : Bytes
  pub workspace_id : Bytes
  pub universe_id : Option Bytes
  pub place_id : Option Bytes
  pub channel : Bytes
  pub config_hash : Bytes
  pub ownership_hash : Bytes
  pub policy_hash : Bytes
  pub accepted_art_head : Option Bytes
  pub accepted_state_root : Option Bytes
  pub context_version : ℕ

-- `struct TransferOffer`
pub record TransferOffer : Type 0 where
  pub context_version : ℕ
  pub transfer_id : Bytes
  pub direction : Bytes
  pub purpose : Bytes
  pub resource_id : Bytes
  pub content_hash : Bytes
  pub media_type : Bytes
  pub size_bytes : ℕ
  pub chunk_size_bytes : ℕ
  pub chunk_count : ℕ
  pub encoding : Bytes
  pub compression : Bytes

-- `struct TransferChunk`
pub record TransferChunk : Type 0 where
  pub context_version : ℕ
  pub transfer_id : Bytes
  pub chunk_index : ℕ
  pub offset_bytes : ℕ
  pub raw_size_bytes : ℕ
  pub chunk_hash : Bytes
  pub chunk_data : Bytes

-- `struct UploadState`
pub record UploadState : Type 0 where
  pub offer : TransferOffer
  pub binding : SessionBinding
  pub path : Bytes
  pub received : List Bool
  pub received_hashes : List (Option Bytes)

-- `struct VerifiedTransfer`
pub record VerifiedTransfer : Type 0 where
  pub transfer_id : Bytes
  pub content_hash : Bytes
  pub path : Bytes
  pub size_bytes : ℕ
  pub resource_id : Bytes
  pub binding : SessionBinding

-- `struct TransferManager`, with the map of verified transfers as its values, each with its key
pub record TransferManager : Type 0 where
  pub limits : BridgeLimits
  pub session_id : Bytes
  pub upload : Option UploadState
  pub verified : List VerifiedTransfer

-- The files of the directory, by path
abbrev pub Disk : Type 0
Disk = List (Bytes × Bytes)

-- `TransferManager::new`
unfoldable pub new_manager : BridgeLimits → Bytes → TransferManager
new_manager limits session_id = record {
  limits = limits;
  session_id = session_id;
  upload = none;
  verified = [];
}

unfoldable pub read_file : Bytes → Disk → Option Bytes
read_file path [] = none
read_file path ((p, content) ∷ disk) = if bytes_eq p path then some content else read_file path disk

unfoldable pub remove_file : Bytes → Disk → Disk
remove_file path = filter_by (λ (f : Bytes × Bytes). not (bytes_eq f.0 path))

unfoldable pub put_file : Bytes → Bytes → Disk → Disk
unfolding remove_file
put_file path content disk = (path, content) ∷ remove_file path disk

-- `validate_scoped_id`
unfoldable pub validate_scoped_id : Bytes → Bytes → Result BridgeError (Unit {0})
validate_scoped_id value prefix =
    reject_if
      (ltb (length value) (length prefix + 4)
        || ltb 128 (length value)
        || is_none (strip_prefix prefix value)
        || not (all (λ c. is_ascii_alphanumeric c || c == b'_' || c == b'-') value))
      (transfer_rejected "invalid identifier for {prefix}")
  where
    is_none : Option Bytes → Bool
    is_none none = true
    is_none (some _) = false

-- `u64::div_ceil`
abbrev pub div_ceil : ℕ → ℕ → ℕ
div_ceil a b = (a + (b - 1)) / b

-- The checks of `offer` on the transfer that is offered
unfoldable pub offer_allowed :
    TransferManager → TransferOffer → SessionBinding → Result BridgeError (Unit {0})
unfolding validate_scoped_id
offer_allowed m offer binding = do
  validate_scoped_id offer.transfer_id (codes "op_")
  validate_scoped_id offer.resource_id (codes "cell_")
  reject_if (not (offer.context_version == binding.context_version)) context_stale
  reject_if
      (not (bytes_eq offer.direction (codes "upload"))
        || not (bytes_eq offer.purpose (codes "art-cell"))
        || not (bytes_eq offer.media_type (codes "application/x-roblox-rbxm"))
        || not (bytes_eq offer.encoding (codes "base64url"))
        || not (bytes_eq offer.compression (codes "none")))
      (transfer_rejected "unsupported transfer profile")
  reject_if (offer.size_bytes == 0 || ltb m.limits.max_transfer_bytes offer.size_bytes)
      (transfer_rejected "content size outside limits")
  reject_if (offer.chunk_size_bytes == 0 || ltb m.limits.max_chunk_bytes offer.chunk_size_bytes)
      (transfer_rejected "chunk size outside limits")
  reject_if
      (not (offer.chunk_count == div_ceil offer.size_bytes offer.chunk_size_bytes)
        || ltb 4096 offer.chunk_count)
      (transfer_rejected "invalid chunk count")
  validate_blake3_hash offer.content_hash

-- `self.directory.join(format!("{}-{}.partial", …))`, and with `.verified`
abbrev pub partial_path : TransferManager → Bytes → Bytes
partial_path m transfer_id = m.session_id ++ (b'-' ∷ (transfer_id ++ codes ".partial"))

abbrev pub verified_path : TransferManager → Bytes → Bytes
verified_path m transfer_id = m.session_id ++ (b'-' ∷ (transfer_id ++ codes ".verified"))

abbrev pub is_active : TransferManager → Bool
is_active m = elim m.upload [ none ↦ false | some _ ↦ true ]

abbrev pub exists_file : Bytes → Disk → Bool
exists_file path disk = elim (read_file path disk) [ none ↦ false | some _ ↦ true ]

-- `TransferManager::offer`; the value is the transfer id of the reply
unfoldable pub offer_transfer :
    TransferManager
    → Disk
    → TransferOffer
    → SessionBinding
    → Result BridgeError (TransferManager × Disk × Bytes)
unfolding offer_allowed put_file
offer_transfer m disk offer binding = do
  reject_if (is_active m) (transfer_rejected "one upload already active")
  offer_allowed m offer binding
  let path = partial_path m offer.transfer_id
  reject_if (exists_file path disk) io
  let state : UploadState = record {
    offer = offer;
    binding = binding;
    path = path;
    received = replicate offer.chunk_count false;
    received_hashes = replicate offer.chunk_count none;
  }
  ok (
    record m { upload = some state },
    put_file path (replicate offer.size_bytes 0) disk,
    offer.transfer_id,
  )
