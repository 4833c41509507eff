-- ===== src/Bridge/Transfer/Verified.antt =====
-- What the verified transfers of a manager promise.
use neuman.Prelude.{◌≡◌, sym, ap, ◌∙◌, Option, some, none, List, All, All-map, Bytes}
use neuman.Bridge.Hash.{blake3_label}
use neuman.Bridge.Transfer.{
  TransferManager, UploadState, VerifiedTransfer, Disk, read_file, remove_file, put_file,
  partial_path, verified_path,
}
use neuman.Bridge.Transfer.Files.{read-remove, read-put_other, partial-ne-verified}

-- The upload writes to a partial file.
abbrev pub IsPartial : TransferManager → Option UploadState → Type 0
IsPartial m none = Unit
IsPartial m (some u) = u.path ≡ partial_path m u.offer.transfer_id

module _ (blake3 : Bytes → Bytes) where
  -- The file of a verified transfer is there, and has the hash that the transfer says.
  pub record IsKept (m : TransferManager) (disk : Disk) (v : VerifiedTransfer) : Type 0 where
    pub place : v.path ≡ verified_path m v.transfer_id
    pub content : Bytes
    pub stored : read_file v.path disk ≡ some content
    pub hashed : v.content_hash ≡ blake3_label blake3 content

  pub record IsQuarantined (m : TransferManager) (disk : Disk) : Type 0 where
    pub files : All (IsKept m disk) m.verified
    pub upload : IsPartial m m.upload

  -- Files that read the same keep the promise.
  pub IsKept-same :
      (m n : TransferManager) (disk disk' : Disk) (v : VerifiedTransfer)
      → n.session_id ≡ m.session_id
      → read_file v.path disk' ≡ read_file v.path disk
      → IsKept m disk v
      → IsKept n disk' v
  IsKept-same m n disk disk' v s e k = record {
    place = k.place ∙ ap (λ i. verified_path (record m { session_id = i }) v.transfer_id) (sym s);
    content = k.content;
    stored = e ∙ k.stored;
    hashed = k.hashed;
  }

  -- A write or a removal at the path of a partial file keeps all promises.
  pub All-IsKept :
      (m n : TransferManager) (disk disk' : Disk) (vs : List VerifiedTransfer)
      → n.session_id ≡ m.session_id
      → ((v : VerifiedTransfer) → IsKept m disk v → read_file v.path disk' ≡ read_file v.path disk)
      → All (IsKept m disk) vs
      → All (IsKept n disk') vs
  All-IsKept m n disk disk' vs s f a =
      All-map (IsKept m disk) (IsKept n disk') (λ v k. IsKept-same m n disk disk' v s (f v k) k) vs
        a

  pub read-put_partial :
      (m : TransferManager) (disk : Disk) (id path content : Bytes) (v : VerifiedTransfer)
      → path ≡ partial_path m id
      → IsKept m disk v
      → read_file v.path (put_file path content disk) ≡ read_file v.path disk
  read-put_partial m disk id path content v e k =
      read-put_other path v.path content disk
        (rw (e, k.place) (partial-ne-verified m m id v.transfer_id))

  pub read-remove_partial :
      (m : TransferManager) (disk : Disk) (id path : Bytes) (v : VerifiedTransfer)
      → path ≡ partial_path m id
      → IsKept m disk v
      → read_file v.path (remove_file path disk) ≡ read_file v.path disk
  read-remove_partial m disk id path v e k =
      read-remove path v.path disk (rw (e, k.place) (partial-ne-verified m m id v.transfer_id))
