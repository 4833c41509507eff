-- ===== src/Bridge/Transfer/Geometry.antt =====
-- The chunks of an accepted offer in bridge.rs.
use native.Mathlib.Nat.{div-mul-le_self, lt-div-mul-add, mul-le-mul_right}
use neuman.Prelude.{
  ℕ, ◌+◌, ◌-◌, ◌*◌, ◌%◌, ◌^◌, ◌≤◌, ◌<◌, ◌≡◌, ◌≢◌, ap, ◌∙◌, not, ◌||◌, ltb, ◌==◌, if◌then◌else◌,
  bytes_eq, codes, ok, arith, Bool-cases, inl, inr, >>=-eq-ok, reject_if-then-eq-ok,
}
use neuman.Bridge.{transfer_rejected, context_stale}
use neuman.Bridge.Transfer.{
  TransferManager, TransferOffer, SessionBinding, UploadState, validate_scoped_id, div_ceil,
  offer_allowed,
}
use neuman.Bridge.Transfer.Chunks.{min, expected_offset, expected_size}

-- A number of a chunk is below the count exactly if its first byte is in the file.
start_in_file :
    (size chunk i : ℕ) → 0 < size → 0 < chunk → i < div_ceil size chunk → i * chunk < size
start_in_file size chunk i s c h = omega (
  arith,
  mul-le-mul_right {m = i + 1} {n = div_ceil size chunk} chunk (omega (arith, h)),
  div-mul-le_self (size + (chunk - 1)) chunk,
)

end_of_file :
    (size chunk i : ℕ) → 0 < chunk → i + 1 ≡ div_ceil size chunk → size ≤ i * chunk + chunk
end_of_file size chunk i c h =
    omega (arith, lt-div-mul-add {a = size + (chunk - 1)} {b = chunk} c, ap (λ n. n * chunk) h)

-- What the checks of `offer` say of the sizes
record IsSized (o : TransferOffer) : Type 0 where
  some_bytes : 0 < o.size_bytes
  some_chunk : 0 < o.chunk_size_bytes
  count : o.chunk_count ≡ div_ceil o.size_bytes o.chunk_size_bytes

offer_allowed-IsSized :
    (m : TransferManager) (o : TransferOffer) (binding : SessionBinding)
    → offer_allowed m o binding ≡ ok tt
    → IsSized o
unfolding offer_allowed
offer_allowed-IsSized m o binding h =
    let (_, _, h1) = >>=-eq-ok (validate_scoped_id o.transfer_id (codes "op_")) _ h in
    let (_, _, h2) = >>=-eq-ok (validate_scoped_id o.resource_id (codes "cell_")) _ h1 in
    let (_, h3) =
      reject_if-then-eq-ok (not (o.context_version == binding.context_version)) context_stale _
        h2 in
    let (_, h4) =
      reject_if-then-eq-ok
        (not (bytes_eq o.direction (codes "upload"))
          || not (bytes_eq o.purpose (codes "art-cell"))
          || not (bytes_eq o.media_type (codes "application/x-roblox-rbxm"))
          || not (bytes_eq o.encoding (codes "base64url"))
          || not (bytes_eq o.compression (codes "none")))
        (transfer_rejected "unsupported transfer profile") _ h3 in
    let (sized, h5) =
      reject_if-then-eq-ok (o.size_bytes == 0 || ltb m.limits.max_transfer_bytes o.size_bytes)
        (transfer_rejected "content size outside limits") _ h4 in
    let (chunked, h6) =
      reject_if-then-eq-ok
        (o.chunk_size_bytes == 0 || ltb m.limits.max_chunk_bytes o.chunk_size_bytes)
        (transfer_rejected "chunk size outside limits") _ h5 in
    let (counted, _) =
      reject_if-then-eq-ok
        (not (o.chunk_count == div_ceil o.size_bytes o.chunk_size_bytes) || ltb 4096 o.chunk_count)
        (transfer_rejected "invalid chunk count") _ h6 in
    record {
      some_bytes = ground (arith, sized);
      some_chunk = ground (arith, chunked);
      count = ground (arith, counted);
    }

tile :
    (size chunk count i : ℕ)
    → size < 2 ^ 64
    → i * chunk < size
    → (i + 1 ≡ count → size ≤ i * chunk + chunk)
    → (i + 1 ≢ count → i * chunk + chunk < size)
    → i * chunk % 2 ^ 64 + min (size - i * chunk % 2 ^ 64) chunk
      ≡ (if i + 1 == count then size else (i + 1) * chunk % 2 ^ 64)
tile size chunk count i small start last more =
    let near : i * chunk % 2 ^ 64 ≡ i * chunk = omega arith in
    elim (Bool-cases (i + 1 == count)) [
      | inl e ↦ let le = last (ground (arith, e)) in rw near (rw e (ground (arith, le)))
      | inr e ↦
          let lt = more (ground (arith, e)) in
          let next : (i + 1) * chunk % 2 ^ 64 ≡ i * chunk + chunk = omega (arith, lt) in
          rw near (rw e (rw next (ground (arith, lt))))
    ]

-- For an upload whose offer was allowed and whose size is a u64, each chunk starts in the file, so
-- that the subtraction of its offset from the size does not underflow, and ends where the next one
-- starts, or at the end of the file if it is the last.
pub chunks_tile :
    (m : TransferManager) (binding : SessionBinding) (u : UploadState) (i : ℕ)
    → offer_allowed m u.offer binding ≡ ok tt
    → u.offer.size_bytes < 2 ^ 64
    → i < u.offer.chunk_count
    → (expected_offset u i < u.offer.size_bytes)
      × (expected_offset u i + expected_size u i ≡ (
          if i + 1 == u.offer.chunk_count then u.offer.size_bytes else expected_offset u (i + 1)))
unfolding expected_offset expected_size
chunks_tile m binding u i h small lt =
    let sized = offer_allowed-IsSized m u.offer binding h in
    let size = u.offer.size_bytes in
    let chunk = u.offer.chunk_size_bytes in
    let inside = λ (j : ℕ) (below : j < u.offer.chunk_count).
      start_in_file size chunk j sized.some_bytes sized.some_chunk
        (omega (arith, sized.count, below)) in
    (
      omega (arith, inside i lt),
      tile size chunk u.offer.chunk_count i small (inside i lt)
          (λ e. end_of_file size chunk i sized.some_chunk (e ∙ sized.count))
          (λ ne. omega (arith, inside (i + 1) (omega (arith, ne, lt)))),
    )
