-- ===== src/Bridge/Transfer/Quarantine.antt =====
-- The operations of the transfer manager, and the promise of the verified transfers.
use neuman.Prelude.{
  ◌≡◌, refl, Bool, true, false, not, Option, some, none, Bytes, bytes_eq, if◌then◌else◌, ok, ok_or,
  get_or, reject_if, ◌>>◌, ◌>>=◌, >>=-eq-ok, reject_if-then-eq-ok, ok-injective, replicate,
}
use neuman.Bridge.{transfer_rejected, io, replay_detected}
use neuman.Bridge.Transfer.{
  TransferManager, TransferOffer, TransferChunk, SessionBinding, UploadState, Disk, read_file,
  put_file, partial_path, offer_transfer, is_active, offer_allowed, exists_file,
}
use neuman.Bridge.Transfer.Chunks.{
  store_chunk, ChunkReply, mark, same_hash, reply_of, write_at, expected_offset,
}
use neuman.Bridge.Transfer.Complete.{cancel, cancel_all, drop_upload, upload_of}
use neuman.Bridge.Transfer.Verified.{
  IsPartial, IsQuarantined, All-IsKept, read-put_partial, read-remove_partial,
}

module _ (blake3 : Bytes → Bytes) where
  abbrev Safe : TransferManager → Disk → Type 0
  Safe m disk = IsQuarantined blake3 m disk

  pub offer-IsQuarantined :
      (m : TransferManager) (disk : Disk) (offer : TransferOffer) (binding : SessionBinding)
      {out : TransferManager × Disk × Bytes}
      → Safe m disk
      → offer_transfer m disk offer binding ≡ ok out
      → Safe out.0 out.1
  unfolding offer_transfer
  offer-IsQuarantined m disk offer binding s h =
      let path = partial_path m offer.transfer_id in
      let (_, h1) =
        reject_if-then-eq-ok (is_active m) (transfer_rejected "one upload already active") _ h in
      let (_, _, h2) = >>=-eq-ok (offer_allowed m offer binding) _ h1 in
      let (_, h3) = reject_if-then-eq-ok (exists_file path disk) io _ h2 in
      rw (← ok-injective h3) (record {
        files =
            All-IsKept blake3 m _ disk _ m.verified refl
              (λ v k.
                read-put_partial blake3 m disk offer.transfer_id path (replicate offer.size_bytes 0)
                  v refl k)
              s.files;
        upload = refl;
      })

  drop_upload-IsQuarantined :
      (m : TransferManager) (disk : Disk) (o : Option UploadState)
      → Safe m disk
      → IsPartial m o
      → Safe (drop_upload m disk o).0 (drop_upload m disk o).1
  unfolding drop_upload
  drop_upload-IsQuarantined m disk none s p = s
  drop_upload-IsQuarantined m disk (some u) s p = record {
    files =
        All-IsKept blake3 m _ disk _ m.verified refl
          (λ v k. read-remove_partial blake3 m disk u.offer.transfer_id u.path v p k) s.files;
    upload = tt;
  }

  upload_of-IsPartial :
      (m : TransferManager) (id : Bytes) (o : Option UploadState)
      → IsPartial m o
      → IsPartial m (upload_of id o)
  unfolding upload_of
  upload_of-IsPartial m id none p = tt
  upload_of-IsPartial m id (some u) p = pick (bytes_eq u.offer.transfer_id id)
    where
      pick : (b : Bool) → IsPartial m (if b then some u else none)
      pick true = p
      pick false = tt

  pub cancel-IsQuarantined :
      (m : TransferManager) (disk : Disk) (id : Bytes)
      → Safe m disk
      → Safe (cancel m disk id).0 (cancel m disk id).1
  unfolding cancel
  cancel-IsQuarantined m disk id s =
      drop_upload-IsQuarantined m disk (upload_of id m.upload) s
        (upload_of-IsPartial m id m.upload s.upload)

  pub cancel_all-IsQuarantined :
      (m : TransferManager) (disk : Disk)
      → Safe m disk
      → Safe (cancel_all m disk).0 (cancel_all m disk).1
  unfolding cancel_all
  cancel_all-IsQuarantined m disk s = drop_upload-IsQuarantined m disk m.upload s s.upload

  pub store_chunk-IsQuarantined :
      (m : TransferManager) (disk : Disk) (u : UploadState) (chunk : TransferChunk)
      (decoded : Bytes) {out : TransferManager × Disk × ChunkReply}
      → Safe m disk
      → IsPartial m (some u)
      → store_chunk m disk u chunk decoded ≡ ok out
      → Safe out.0 out.1
  unfolding store_chunk mark
  store_chunk-IsQuarantined m disk u chunk decoded {out} s p h =
      pick (get_or u.received chunk.chunk_index false) h
    where
      pick :
          (b : Bool)
          → (if b
              then (reject_if
                    (not (
                      same_hash (get_or u.received_hashes chunk.chunk_index none) chunk.chunk_hash))
                    replay_detected
                  >> ok (m, disk, reply_of chunk.transfer_id u))
              else (ok_or (read_file u.path disk) io >>= λ file. ok (
                record m { upload = some (mark u chunk) },
                put_file u.path (write_at (expected_offset u chunk.chunk_index) decoded file) disk,
                reply_of chunk.transfer_id (mark u chunk),
              )))
            ≡ ok out
          → Safe out.0 out.1
      pick true e =
          let (_, e1) =
            reject_if-then-eq-ok
              (not (same_hash (get_or u.received_hashes chunk.chunk_index none) chunk.chunk_hash))
              replay_detected _ e in
          rw (← ok-injective e1) s
      pick false e =
          let (file, _, e1) = >>=-eq-ok (ok_or (read_file u.path disk) io) _ e in
          rw (← ok-injective e1) (record {
            files =
                All-IsKept blake3 m _ disk _ m.verified refl
                  (λ v k. read-put_partial blake3 m disk u.offer.transfer_id u.path _ v p k)
                  s.files;
            upload = p;
          })
