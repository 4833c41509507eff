-- ===== src/Bridge/Transfer/Chunks.antt =====
-- `TransferManager::chunk` of bridge.rs.
use neuman.Prelude.{
  ℕ, zero, suc, ◌+◌, ◌-◌, ◌*◌, ◌%◌, ◌^◌, Bool, true, false, not, ◌||◌, Option, some, none, List, [],
  ◌∷◌, ◌++◌, Bytes, bytes_eq, get_or, set, take, drop, count_while, length, ltb, leb, ◌==◌,
  if◌then◌else◌, Result, ok, ok_or, reject_if, ◌>>◌, ◌>>=◌,
}
use neuman.Bridge.{BridgeError, transfer_rejected, chunk_hash_mismatch, replay_detected, io}
use neuman.Bridge.Hash.{blake3_label, validate_blake3_hash}
use neuman.Bridge.Transfer.{
  TransferChunk, TransferManager, UploadState, Disk, read_file, put_file, div_ceil,
}

abbrev pub min : ℕ → ℕ → ℕ
min a b = if leb a b then a else b

-- `(chunk.chunk_index * upload.offer.chunk_size_bytes) as u64`
unfoldable pub expected_offset : UploadState → ℕ → ℕ
expected_offset u i = (i * u.offer.chunk_size_bytes) % 2 ^ 64

-- The subtraction is of u64; it does not go below 0 for a chunk of the upload.
unfoldable pub expected_size : UploadState → ℕ → ℕ
unfolding expected_offset
expected_size u i = min (u.offer.size_bytes - expected_offset u i) u.offer.chunk_size_bytes

-- `saturating_mul(4).div_ceil(3) + 8`
abbrev pub max_text : ℕ → ℕ
max_text max_chunk_bytes = div_ceil (min (max_chunk_bytes * 4) (2 ^ 64 - 1)) 3 + 8

-- The reply of `chunk`
pub record ChunkReply : Type 0 where
  pub transfer_id : Bytes
  pub highest_contiguous : Option ℕ
  pub missing : List ℕ

-- `(0..chunk_count).filter(|index| !received[*index])`, over a list of that length
unfoldable pub missing_from : ℕ → List Bool → List ℕ
missing_from i [] = []
missing_from i (got ∷ rest) =
    let later = missing_from (suc i) rest in if got then later else i ∷ later

-- `if highest == 0 { Null } else { highest - 1 }`
unfoldable pub highest_of : ℕ → Option ℕ
highest_of zero = none
highest_of (suc n) = some n

unfoldable pub reply_of : Bytes → UploadState → ChunkReply
unfolding missing_from highest_of
reply_of transfer_id u = record {
  transfer_id = transfer_id;
  highest_contiguous = highest_of (count_while (λ b. b) u.received);
  missing = take 64 (missing_from 0 u.received);
}

-- `file.seek(…)` and `file.write_all(…)`
unfoldable pub write_at : ℕ → Bytes → Bytes → Bytes
write_at offset data' file = take offset file ++ (data' ++ drop (offset + length data') file)

abbrev pub same_hash : Option Bytes → Bytes → Bool
same_hash none h = false
same_hash (some k) h = bytes_eq k h

-- The upload after a chunk
unfoldable pub mark : UploadState → TransferChunk → UploadState
mark u chunk = record u {
  received = set u.received chunk.chunk_index true;
  received_hashes = set u.received_hashes chunk.chunk_index (some chunk.chunk_hash);
}

-- `if upload.received[chunk.chunk_index] { … } else { … }`
unfoldable pub store_chunk :
    TransferManager
    → Disk
    → UploadState
    → TransferChunk
    → Bytes
    → Result BridgeError (TransferManager × Disk × ChunkReply)
unfolding reply_of write_at mark put_file expected_offset
store_chunk m disk u chunk decoded =
    if get_or u.received chunk.chunk_index false
    then (reject_if
          (not (same_hash (get_or u.received_hashes chunk.chunk_index none) chunk.chunk_hash))
          replay_detected
        >> ok (m, disk, reply_of chunk.transfer_id u))
    else (ok_or (read_file u.path disk) io >>= λ file. ok (
      record m { upload = some (mark u chunk) },
      put_file u.path (write_at (expected_offset u chunk.chunk_index) decoded file) disk,
      reply_of chunk.transfer_id (mark u chunk),
    ))

module _ (blake3 : Bytes → Bytes) (decode : Bytes → Option Bytes) where
  -- The checks of the chunk's data
  unfoldable pub decode_chunk : UploadState → TransferChunk → Result BridgeError Bytes
  unfolding expected_size
  decode_chunk u chunk = do
    validate_blake3_hash chunk.chunk_hash
    decoded ← ok_or (decode chunk.chunk_data) (transfer_rejected "invalid base64url")
    reject_if (not (length decoded == expected_size u chunk.chunk_index))
        (transfer_rejected "decoded chunk size mismatch")
    reject_if (not (bytes_eq (blake3_label blake3 decoded) chunk.chunk_hash)) chunk_hash_mismatch
    ok decoded

  -- `TransferManager::chunk`
  unfoldable pub chunk_transfer :
      TransferManager
      → Disk
      → TransferChunk
      → Result BridgeError (TransferManager × Disk × ChunkReply)
  unfolding decode_chunk store_chunk expected_size expected_offset
  chunk_transfer m disk chunk = do
    u ← ok_or m.upload (transfer_rejected "no active upload")
    reject_if
        (not (bytes_eq chunk.transfer_id u.offer.transfer_id)
          || not (chunk.context_version == u.binding.context_version)
          || leb u.offer.chunk_count chunk.chunk_index)
        (transfer_rejected "chunk does not belong to upload")
    reject_if
        (not (chunk.offset_bytes == expected_offset u chunk.chunk_index)
          || not (chunk.raw_size_bytes == expected_size u chunk.chunk_index)
          || ltb (max_text m.limits.max_chunk_bytes) (length chunk.chunk_data))
        (transfer_rejected "invalid chunk geometry")
    decoded ← decode_chunk u chunk
    store_chunk m disk u chunk decoded
