-- ===== src/Domain/Examples.antt =====
-- The theorems on domain.rs and on the hashes of bridge.rs at work.
use neuman.Prelude.{
  ℕ, zero, suc, ◌∙◌, ◌<◌, ◌≡◌, ◌⊎◌, ◌↔◌, refl, sym, ap, List, [], ◌∷◌, ◌++◌, ◌/◌, ◌*◌, ◌+◌, Bytes,
  AreBytes, length, replicate, length-replicate, map, arith, true, all, any, not, ◌&&◌, false, ok,
  err,
}
use neuman.Domain.Base32.{encode_base32, decode_base32}
use neuman.Domain.Base32.RoundTrip.{decode_base32-encode_base32}
use neuman.Domain.Base32.Shape.{encode_base32_shape, in_alphabet}
use neuman.Domain.ContentHash.{ContentHash, display, from_str}
use neuman.Domain.ContentHash.Laws.{IsDigest, from_str_iff}
use neuman.Domain.ArtRevision.{CellId, ArtCellState, compute_state_root}
use neuman.Domain.ArtRevision.Binding.{Entry, identity, StateCollision, state_root_binding}
use neuman.Domain.ArtRevision.Loop.{Rounds, own_key, leaves_of, compute_state_root-decided}
use neuman.Domain.{invalid_id}
use neuman.Domain.ReleaseStatus.{
  ReleaseStatus, draft, approved, preflighting, publishing, published, is_allowed,
}
use neuman.Domain.ReleaseStatus.Paths.{
  follow, is_approved, is_preflighting, is_publishing, is_final, all_statuses, gates_to_publication,
  way_out,
}
use neuman.Bridge.Hash.{base32_lower}
use neuman.Bridge.Hash.Agreement.{base32_lower-eq-encode_base32}

decode_base32-encode_base32_example :
    decode_base32 (encode_base32 (0 ∷ 255 ∷ 16 ∷ [])) ≡ ok (0 ∷ 255 ∷ 16 ∷ [])
decode_base32-encode_base32_example =
    decode_base32-encode_base32 (0 ∷ 255 ∷ 16 ∷ []) (omega arith, (omega arith, (omega arith, tt)))

base32_lower-eq-encode_base32_example :
    base32_lower (0 ∷ 255 ∷ 16 ∷ []) ≡ encode_base32 (0 ∷ 255 ∷ 16 ∷ [])
base32_lower-eq-encode_base32_example =
    base32_lower-eq-encode_base32 (0 ∷ 255 ∷ 16 ∷ [])
      (omega arith, (omega arith, (omega arith, tt)))

encode_base32_shape_example :
    (length (encode_base32 (7 ∷ 9 ∷ [])) ≡ (8 * 2 + 4) / 5)
    × (all in_alphabet (encode_base32 (7 ∷ 9 ∷ [])) ≡ true)
encode_base32_shape_example = encode_base32_shape (7 ∷ 9 ∷ [])

abbrev zero_hash : ContentHash
zero_hash = record { bytes = replicate 32 0 }

from_str_iff_example :
    (from_str (display zero_hash) ≡ ok zero_hash)
    ↔ (IsDigest zero_hash × (display zero_hash ≡ display zero_hash))
from_str_iff_example = from_str_iff (display zero_hash) zero_hash

-- Stand-ins for the two libraries: a hash of 32 bytes that is the length, and a text of a UUID
-- that has its number as length
abbrev toy_hash : Bytes → Bytes
toy_hash m = replicate 32 (length m)

abbrev toy_text : ℕ → Bytes
toy_text n = replicate n 0

abbrev one_cell : ℕ → List Entry
one_cell n =
    (
      record { uuid = 3 },
      record {
        cell_id = record { uuid = 3 };
        snapshot_hash = record { bytes = replicate 32 n };
        slot_path = [];
      },
    )
    ∷ []

length-toy_hash : (m : Bytes) → length (toy_hash m) ≡ 32
length-toy_hash m = length-replicate 32 (length m)

toy_text-injective : (a b : ℕ) → toy_text a ≡ toy_text b → a ≡ b
toy_text-injective a b h = sym (length-replicate a 0) ∙ ap length h ∙ length-replicate b 0

small_bytes : (k n : ℕ) → n < 256 → AreBytes (replicate k n)
small_bytes zero n h = tt
small_bytes (suc k) n h = (h, small_bytes k n h)

pub snapshot_IsDigest : (n : ℕ) → n < 256 → IsDigest (record { bytes = replicate 32 n })
snapshot_IsDigest n h = record { size = length-replicate 32 n; range = small_bytes 32 n h }

abbrev toy_root : ContentHash
toy_root = record { bytes = replicate 32 99 }

-- The toy hash only sees lengths, so two snapshots share a root.
state_root_binding_example :
    (map identity (one_cell 0) ≡ map identity (one_cell 1))
    ⊎ StateCollision toy_hash toy_text length-toy_hash toy_text-injective (one_cell 0) (one_cell 1)
unfolding compute_state_root neuman.Domain.ArtRevision.cell_key display encode_base32
    neuman.Domain.ArtRevision.leaf_message neuman.Domain.ArtRevision.to_be_bytes
state_root_binding_example =
    state_root_binding toy_hash toy_text length-toy_hash toy_text-injective (one_cell 0)
      (one_cell 1) {root = toy_root} (snapshot_IsDigest 0 (omega arith), tt)
      (snapshot_IsDigest 1 (omega arith), tt) refl refl

abbrev wide_text : ℕ → Bytes
wide_text n = replicate 36 n

length-wide_text : (n : ℕ) → length (wide_text n) ≡ 36
length-wide_text n = length-replicate 36 n

abbrev two_cells : List Entry
two_cells = one_cell 0 ++ one_cell 1

compute_state_root-decided_example :
    ((all own_key two_cells ≡ true)
      × ((root : ContentHash) × (compute_state_root toy_hash wide_text two_cells ≡ ok root)
          × Rounds toy_hash (leaves_of toy_hash wide_text length-wide_text two_cells) root.bytes))
    ⊎ ((all own_key two_cells ≡ false)
        × (compute_state_root toy_hash wide_text two_cells
            ≡ err (invalid_id "art cell state" "map key and embedded CellId differ")))
compute_state_root-decided_example =
    compute_state_root-decided toy_hash wide_text length-wide_text two_cells
      (snapshot_IsDigest 0 (omega arith), (snapshot_IsDigest 1 (omega arith), tt))

abbrev route : List ReleaseStatus
route = approved ∷ preflighting ∷ publishing ∷ published ∷ []

gates_to_publication_example :
    (any is_approved route && any is_preflighting route && any is_publishing route) ≡ true
unfolding follow neuman.Domain.ReleaseStatus.transition
gates_to_publication_example = gates_to_publication route published refl refl

way_out_example :
    ((path : List ReleaseStatus) × (t : ReleaseStatus) × (follow published path ≡ ok t)
      × (is_final t ≡ true))
    × (any (is_allowed published) all_statuses ≡ not (is_final published))
way_out_example = way_out published
