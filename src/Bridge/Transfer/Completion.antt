-- ===== src/Bridge/Transfer/Completion.antt =====
-- `complete` of the transfer manager, and the promise of the verified transfers.
use neuman.Prelude.{
  ◌≡◌, refl, Bool, true, false, not, ◌||◌, Option, some, none, List, [], ◌∷◌, All, All-map, All-zip,
  Bytes, bytes_eq, any, if◌then◌else◌, arith, ok, err,
}
use neuman.Bridge.{content_hash_mismatch, transfer_rejected}
use neuman.Bridge.Hash.{blake3_label}
use neuman.Bridge.Transfer.{
  TransferManager, UploadState, VerifiedTransfer, Disk, read_file, remove_file, put_file,
  verified_path,
}
use neuman.Bridge.Transfer.Complete.{
  Outcome, verified_of, verify, read_and_verify, complete_upload, complete_new, complete,
  find_verified,
}
use neuman.Bridge.Transfer.Files.{read-put_other, read-put, verified-ne, bytes_eq_swap}
use neuman.Bridge.Transfer.Verified.{
  IsKept, IsPartial, IsQuarantined, All-IsKept, IsKept-same, read-remove_partial,
}

module _ (blake3 : Bytes → Bytes) where
  abbrev pub SafeOutcome : Outcome → Type 0
  SafeOutcome out = IsQuarantined blake3 out.0.0 out.0.1

  -- What is found under the key is stored; what is not found differs from every stored transfer.
  none_found :
      (id : Bytes) (vs : List VerifiedTransfer)
      → find_verified id vs ≡ none
      → All (λ v. bytes_eq v.transfer_id id ≡ false) vs
  unfolding find_verified
  none_found id [] h = tt
  none_found id (v ∷ vs) h = (ground arith, none_found id vs (ground arith))

  verify-IsQuarantined :
      (m : TransferManager) (disk : Disk) (id : Bytes) (u : UploadState) (content : Bytes)
      → IsQuarantined blake3 m disk
      → IsPartial m (some u)
      → IsPartial m m.upload
      → find_verified id m.verified ≡ none
      → SafeOutcome (verify blake3 m disk id u content)
  unfolding verify
  verify-IsQuarantined m disk id u content s p q fresh =
      pick (not (bytes_eq (blake3_label blake3 content) u.offer.content_hash))
    where
      v : VerifiedTransfer
      v = verified_of blake3 m id u content

      n : TransferManager
      n = record m { verified = v ∷ m.verified }

      disk1 : Disk
      disk1 = remove_file u.path disk

      disk2 : Disk
      disk2 = put_file (verified_path m id) content disk1

      kept1 : All (IsKept blake3 m disk1) m.verified
      kept1 =
          All-IsKept blake3 m m disk disk1 m.verified refl
            (λ w k. read-remove_partial blake3 m disk u.offer.transfer_id u.path w p k) s.files

      kept2 : All (IsKept blake3 n disk2) m.verified
      kept2 =
          All-map (λ w. IsKept blake3 m disk1 w × (bytes_eq w.transfer_id id ≡ false))
            (IsKept blake3 n disk2)
            (λ w k.
              IsKept-same blake3 m n disk1 disk2 w refl
                (read-put_other (verified_path m id) w.path content disk1 (
                  rw (k.0.place)
                    (verified-ne m id w.transfer_id (bytes_eq_swap w.transfer_id id k.1))))
                k.0)
            m.verified (All-zip _ _ m.verified kept1 (none_found id m.verified fresh))

      pick :
          (b : Bool)
          → SafeOutcome (if b then ((m, disk1), err content_hash_mismatch) else ((n, disk2), ok v))
      pick true = record { files = kept1; upload = q }
      pick false = record {
        files = (
          record {
            place = refl;
            content = content;
            stored = read-put (verified_path m id) content disk1;
            hashed = refl;
          },
          kept2,
        );
        upload = q;
      }

  read_and_verify-IsQuarantined :
      (m : TransferManager) (disk : Disk) (id : Bytes) (u : UploadState) (o : Option Bytes)
      → IsQuarantined blake3 m disk
      → IsPartial m (some u)
      → find_verified id m.verified ≡ none
      → SafeOutcome (read_and_verify blake3 m disk id u o)
  unfolding read_and_verify
  read_and_verify-IsQuarantined m disk id u none s p fresh = s
  read_and_verify-IsQuarantined m disk id u (some content) s p fresh =
      verify-IsQuarantined m disk id u content s p s.upload fresh

  complete_upload-IsQuarantined :
      (m : TransferManager) (disk : Disk) (id : Bytes) (o : Option UploadState)
      → IsQuarantined blake3 m disk
      → IsPartial m o
      → find_verified id m.verified ≡ none
      → SafeOutcome (complete_upload blake3 m disk id o)
  unfolding complete_upload
  complete_upload-IsQuarantined m disk id none s p fresh = s
  complete_upload-IsQuarantined m disk id (some u) s p fresh =
      pick (not (bytes_eq id u.offer.transfer_id) || any not u.received)
    where
      taken : IsQuarantined blake3 (record m { upload = none }) disk
      taken = record {
        files =
            All-IsKept blake3 m (record m { upload = none }) disk disk m.verified refl (λ _ _. refl)
              s.files;
        upload = tt;
      }

      pick :
          (b : Bool)
          → SafeOutcome (
              if b
              then ((m, disk), err (transfer_rejected "upload is incomplete"))
              else read_and_verify blake3
                  (record m { upload = none })
                  disk
                  id
                  u
                  (read_file u.path disk))
      pick true = s
      pick false =
          read_and_verify-IsQuarantined (record m { upload = none }) disk id u
            (read_file u.path disk) taken p fresh

  complete_new-IsQuarantined :
      (m : TransferManager) (disk : Disk) (id : Bytes) (o : Option VerifiedTransfer)
      → IsQuarantined blake3 m disk
      → find_verified id m.verified ≡ o
      → SafeOutcome (complete_new blake3 m disk id o)
  unfolding complete_new
  complete_new-IsQuarantined m disk id (some v) s e = s
  complete_new-IsQuarantined m disk id none s e =
      complete_upload-IsQuarantined m disk id m.upload s s.upload e

  pub complete-IsQuarantined :
      (m : TransferManager) (disk : Disk) (id : Bytes)
      → IsQuarantined blake3 m disk
      → SafeOutcome (complete blake3 m disk id)
  unfolding complete
  complete-IsQuarantined m disk id s =
      complete_new-IsQuarantined m disk id (find_verified id m.verified) s refl
