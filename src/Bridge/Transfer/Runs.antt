-- ===== src/Bridge/Transfer/Runs.antt =====
-- Runs of the operations of the transfer manager.
use mathlib.Core.Path.{subst}
use neuman.Prelude.{
  ◌≡◌, not, ◌||◌, Option, some, find?-All, ltb, leb, ◌==◌, length, Bytes, bytes_eq, ok, ok_or,
  >>=-eq-ok, reject_if-then-eq-ok, ok_or-eq-ok,
}
use neuman.Bridge.{transfer_rejected}
use neuman.Bridge.Hash.{blake3_label}
use neuman.Bridge.Transfer.{
  TransferManager, TransferOffer, TransferChunk, SessionBinding, VerifiedTransfer, Disk, read_file,
  offer_transfer,
}
use neuman.Bridge.Transfer.Chunks.{
  chunk_transfer, decode_chunk, ChunkReply, expected_offset, expected_size, max_text,
}
use neuman.Bridge.Transfer.Complete.{complete, find_verified, cancel, cancel_all}
use neuman.Bridge.Transfer.Verified.{IsKept, IsPartial, IsQuarantined}
use neuman.Bridge.Transfer.{BridgeLimits, new_manager}
use neuman.Bridge.Transfer.Quarantine.{
  offer-IsQuarantined, cancel-IsQuarantined, cancel_all-IsQuarantined, store_chunk-IsQuarantined,
}
use neuman.Bridge.Transfer.Completion.{complete-IsQuarantined}

module _ (blake3 : Bytes → Bytes) where
  module _ (decode : Bytes → Option Bytes) where
    chunk-IsQuarantined :
        (m : TransferManager) (disk : Disk) (chunk : TransferChunk)
        {out : TransferManager × Disk × ChunkReply}
        → IsQuarantined blake3 m disk
        → chunk_transfer blake3 decode m disk chunk ≡ ok out
        → IsQuarantined blake3 out.0 out.1
    unfolding chunk_transfer
    chunk-IsQuarantined m disk chunk s h =
        let (u, active, h1) =
          >>=-eq-ok (ok_or m.upload (transfer_rejected "no active upload")) _ h in
        let some_u = ok_or-eq-ok m.upload _ active in
        let (_, h2) =
          reject_if-then-eq-ok
            (not (bytes_eq chunk.transfer_id u.offer.transfer_id)
              || not (chunk.context_version == u.binding.context_version)
              || leb u.offer.chunk_count chunk.chunk_index)
            (transfer_rejected "chunk does not belong to upload") _ h1 in
        let (_, h3) =
          reject_if-then-eq-ok
            (not (chunk.offset_bytes == expected_offset u chunk.chunk_index)
              || not (chunk.raw_size_bytes == expected_size u chunk.chunk_index)
              || ltb (max_text m.limits.max_chunk_bytes) (length chunk.chunk_data))
            (transfer_rejected "invalid chunk geometry") _ h2 in
        let (decoded, _, h4) = >>=-eq-ok (decode_chunk blake3 decode u chunk) _ h3 in
        store_chunk-IsQuarantined blake3 m disk u chunk decoded s
          (subst (IsPartial m) some_u s.upload) h4

    -- One operation that succeeds, or `complete`, whatever it answers
    pub data Step (m : TransferManager) (disk : Disk) : TransferManager → Disk → Type 0 where
      offer :
          (o : TransferOffer) (binding : SessionBinding) (out : TransferManager × Disk × Bytes)
          → offer_transfer m disk o binding ≡ ok out
          → Step m disk out.0 out.1
      chunk :
          (k : TransferChunk) (out : TransferManager × Disk × ChunkReply)
          → chunk_transfer blake3 decode m disk k ≡ ok out
          → Step m disk out.0 out.1
      finish :
          (id : Bytes) → Step m disk (complete blake3 m disk id).0.0 (complete blake3 m disk id).0.1
      stop : (id : Bytes) → Step m disk (cancel m disk id).0 (cancel m disk id).1
      stop_all : Step m disk (cancel_all m disk).0 (cancel_all m disk).1

    pub data Reach (m : TransferManager) (disk : Disk) : TransferManager → Disk → Type 0 where
      here : Reach m disk m disk
      next :
          {m' : TransferManager} {disk' : Disk} {m'' : TransferManager} {disk'' : Disk}
          → Reach m disk m' disk'
          → Step m' disk' m'' disk''
          → Reach m disk m'' disk''

    Step-IsQuarantined :
        {m : TransferManager} {disk : Disk} {m' : TransferManager} {disk' : Disk}
        → Step m disk m' disk'
        → IsQuarantined blake3 m disk
        → IsQuarantined blake3 m' disk'
    Step-IsQuarantined {m} {disk} (offer o binding out h) s =
        offer-IsQuarantined blake3 m disk o binding s h
    Step-IsQuarantined {m} {disk} (chunk k out h) s = chunk-IsQuarantined m disk k s h
    Step-IsQuarantined {m} {disk} (finish id) s = complete-IsQuarantined blake3 m disk id s
    Step-IsQuarantined {m} {disk} (stop id) s = cancel-IsQuarantined blake3 m disk id s
    Step-IsQuarantined {m} {disk} stop_all s = cancel_all-IsQuarantined blake3 m disk s

    Reach-IsQuarantined :
        {m : TransferManager} {disk : Disk} {m' : TransferManager} {disk' : Disk}
        → IsQuarantined blake3 m disk
        → Reach m disk m' disk'
        → IsQuarantined blake3 m' disk'
    Reach-IsQuarantined s here = s
    Reach-IsQuarantined s (next r t) = Step-IsQuarantined t (Reach-IsQuarantined s r)

    -- Whatever offers, chunks, completions and cancellations a new manager goes through, the
    -- transfer that it then has under a key is stored: the file of its path is there, and the
    -- content of that file has the hash that the transfer says.
    pub verified_is_stored :
        (limits : BridgeLimits) (session_id : Bytes) (start disk : Disk) (m : TransferManager)
        (id : Bytes) (v : VerifiedTransfer)
        → Reach (new_manager limits session_id) start m disk
        → find_verified id m.verified ≡ some v
        → (content : Bytes) × (read_file v.path disk ≡ some content)
          × (v.content_hash ≡ blake3_label blake3 content)
    unfolding find_verified new_manager
    verified_is_stored limits session_id start disk m id v run h =
        let s = Reach-IsQuarantined (record { files = tt; upload = tt }) run in
        let k = find?-All (IsKept blake3 m disk) _ m.verified s.files h in
        (k.content, k.stored, k.hashed)
