-- ===== src/Bridge/TransferExample.antt =====
-- An upload of two chunks through the transfer manager of bridge.rs.
use neuman.Prelude.{
  ℕ, zero, suc, ◌≡◌, ◌<◌, ◌+◌, ◌==◌, if◌then◌else◌, arith, false, refl, Bool, Option, some, none,
  List, [], ◌∷◌, ◌++◌, Bytes, codes, length, replicate, Result, ok, err,
}
use neuman.Bridge.{BridgeError}
use neuman.Bridge.Hash.{blake3_label}
use neuman.Bridge.Transfer.{
  BridgeLimits, UploadState, offer_allowed, SessionBinding, TransferOffer, TransferChunk,
  TransferManager, Disk, VerifiedTransfer, new_manager, offer_transfer, read_file, verified_path,
}
use neuman.Bridge.Transfer.Chunks.{expected_offset, expected_size, ChunkReply, chunk_transfer}
use neuman.Bridge.Transfer.Complete.{complete, find_verified}
use neuman.Bridge.Transfer.Geometry.{chunks_tile}
use neuman.Bridge.Transfer.Runs.{Reach, here, next, offer, chunk, finish, verified_is_stored}

-- Stand-ins for BLAKE3 and the decoder
abbrev toy_hash : Bytes → Bytes
toy_hash m = replicate 32 (length m)

abbrev toy_decode : Bytes → Option Bytes
toy_decode text = some text

abbrev value_or {ℓ} : {A : Type ℓ} → Result BridgeError A → A → A
value_or (ok a) b = a
value_or (err e) b = b

abbrev limits : BridgeLimits
limits = record {
  max_control_message_bytes = 1048576;
  max_chunk_bytes = 262144;
  max_transfer_bytes = 100663296;
  max_commands_in_flight = 32;
}

abbrev binding : SessionBinding
binding = record {
  project_id = codes "p";
  workspace_id = codes "w";
  universe_id = none;
  place_id = none;
  channel = codes "main";
  config_hash = [];
  ownership_hash = [];
  policy_hash = [];
  accepted_art_head = none;
  accepted_state_root = none;
  context_version = 7;
}

abbrev id : Bytes
id = codes "op_0001"

abbrev request : TransferOffer
request = record {
  context_version = 7;
  transfer_id = id;
  direction = codes "upload";
  purpose = codes "art-cell";
  resource_id = codes "cell_0001";
  content_hash = blake3_label toy_hash (codes "xyz");
  media_type = codes "application/x-roblox-rbxm";
  size_bytes = 3;
  chunk_size_bytes = 2;
  chunk_count = 2;
  encoding = codes "base64url";
  compression = codes "none";
}

abbrev part : ℕ → ℕ → Bytes → TransferChunk
part i offset text = record {
  context_version = 7;
  transfer_id = id;
  chunk_index = i;
  offset_bytes = offset;
  raw_size_bytes = length text;
  chunk_hash = blake3_label toy_hash text;
  chunk_data = text;
}

abbrev manager : TransferManager
manager = new_manager limits (codes "s")

abbrev offered : TransferManager × Disk × Bytes
offered = value_or (offer_transfer manager [] request binding) (manager, [], [])

abbrev no_reply : ChunkReply
no_reply = record { transfer_id = []; highest_contiguous = none; missing = [] }

abbrev second_part : TransferManager × Disk × ChunkReply
second_part =
    value_or (chunk_transfer toy_hash toy_decode offered.0 offered.1 (part 1 2 (codes "z")))
      (manager, [], no_reply)

abbrev first_part : TransferManager × Disk × ChunkReply
first_part =
    value_or
      (chunk_transfer toy_hash toy_decode second_part.0 second_part.1 (part 0 0 (codes "xy")))
      (manager, [], no_reply)

abbrev done : TransferManager × Disk
done = (complete toy_hash first_part.0 first_part.1 id).0

abbrev verified : VerifiedTransfer
verified = record {
  transfer_id = id;
  content_hash = blake3_label toy_hash (codes "xyz");
  path = verified_path manager id;
  size_bytes = 3;
  resource_id = codes "cell_0001";
  binding = binding;
}

upload_run : Reach toy_hash toy_decode manager [] done.0 done.1
unfolding offer_transfer new_manager neuman.Prelude.strip_prefix neuman.Prelude.bytes_eq
    neuman.Bridge.Hash.validate_blake3_hash blake3_label neuman.Bridge.Hash.base32_lower read_file
    chunk_transfer
upload_run =
    next
      (next
        (next (next here (offer request binding offered refl))
          (chunk (part 1 2 (codes "z")) second_part refl))
        (chunk (part 0 0 (codes "xy")) first_part refl))
      (finish id)

found : find_verified id done.0.verified ≡ some verified
unfolding complete chunk_transfer offer_transfer new_manager neuman.Prelude.strip_prefix
    neuman.Prelude.bytes_eq neuman.Bridge.Hash.validate_blake3_hash blake3_label
    neuman.Bridge.Hash.base32_lower read_file
found = refl

verified_is_stored_example :
    (content : Bytes) × (read_file verified.path done.1 ≡ some content)
    × (verified.content_hash ≡ blake3_label toy_hash content)
verified_is_stored_example =
    verified_is_stored toy_hash toy_decode limits (codes "s") [] done.1 done.0 id verified
      upload_run found

-- After the second part alone, nothing is contiguous and the first is missing.
second_reply : second_part.2.highest_contiguous ≡ none
unfolding chunk_transfer offer_transfer new_manager neuman.Prelude.strip_prefix
    neuman.Prelude.bytes_eq neuman.Bridge.Hash.validate_blake3_hash blake3_label
    neuman.Bridge.Hash.base32_lower read_file
second_reply = refl

abbrev upload : UploadState
upload = record {
  offer = request;
  binding = binding;
  path = [];
  received = false ∷ false ∷ [];
  received_hashes = none ∷ none ∷ [];
}

chunks_tile_example :
    (expected_offset upload 1 < 3)
    × (expected_offset upload 1 + expected_size upload 1
        ≡ (if 1 + 1 == 2 then 3 else expected_offset upload (1 + 1)))
unfolding offer_allowed neuman.Prelude.strip_prefix neuman.Prelude.bytes_eq new_manager
    neuman.Bridge.Hash.validate_blake3_hash blake3_label neuman.Bridge.Hash.base32_lower
chunks_tile_example = chunks_tile manager binding upload 1 refl (omega arith) (omega arith)
