-- ===== src/Hub/Examples/ManifestLaws.antt =====
-- The laws of the art manifest of hub.rs, and of the identifiers in it, at one manifest.
use neuman.Prelude.{
  ℕ, ◌+◌, ◌-◌, ◌%◌, ◌≡◌, ◌↔◌, ◌⊎◌, refl, sym, ap, ◌∙◌, String, Bool, true, Option, List, [], ◌∷◌,
  Bytes, codes, All, map, get_or, length, length-replicate, replicate, ok, some, none, arith, inl,
  inr,
}
use neuman.Hub.Leases.{option_eq}
use neuman.Hub.Proposals.{CanonicalArtManifest}
use neuman.Hub.Proposals.Accept.{request_of}
use neuman.Hub.Proposals.Manifest.{CellMaps, read_base}
use neuman.Hub.Proposals.Manifest.Validate.{state_root_of, validate_canonical_art_proposal}
use neuman.Hub.Proposals.Manifest.Cells.{IsStoredCell}
use neuman.Hub.Proposals.Manifest.Delta.{changed_cells, cell_ids, validated_delta}
use neuman.Hub.Proposals.Manifest.Binding.{Collects, IsWithin, state_hash_binding}
use neuman.Domain.ContentHash.Laws.{IsDigest}
use neuman.Domain.ArtRevision.{CellId}
use neuman.Domain.ArtRevision.Binding.{identity, StateCollision}
use neuman.Domain.Identifiers.{Uuids, id_text, parse_id, cell_text, parse_cell_id}
use neuman.Domain.Identifiers.Text.{parse_id_iff, parse_cell_id_iff}
use neuman.Domain.Examples.{snapshot_IsDigest}
use neuman.Hub.Examples.Studio.{
  studio_db, open_proposal, rivals_db, art_libs, manifest, toy_blake3, toy_hyphenated,
}

valid :
    validate_canonical_art_proposal art_libs studio_db "p" (request_of (open_proposal "b_0")) none
    ≡ ok manifest
unfolding neuman.Hub.Access.membership_role neuman.Hub.Access.allows
    neuman.Hub.Validation.validate_name neuman.Hub.Validation.sorted_unique
    neuman.Hub.Journal.check_idempotency neuman.Hub.Leases.latest
    neuman.Hub.Journal.store_idempotency neuman.Hub.Journal.append_evidence
    neuman.Hub.Validation.validate_hash_label neuman.Prelude.bytes_eq neuman.Hub.Validation.before
    neuman.Hub.Validation.validate_content_hash neuman.Prelude.strip_prefix
    neuman.Hub.Journal.is_record neuman.Hub.Proposals.is_authorized
    neuman.Hub.Proposals.verified_object
    neuman.Hub.Proposals.Manifest.Validate.validate_canonical_art_proposal
    neuman.Domain.Base32.encode_base32 neuman.Domain.Identifiers.parse_cell_id
    neuman.Domain.ContentHash.from_str neuman.Domain.Base32.decode_base32
    neuman.Domain.ContentHash.display neuman.Domain.ArtRevision.compute_state_root
    neuman.Domain.ArtRevision.cell_key neuman.Domain.ArtRevision.leaf_message
    neuman.Hub.Leases.Acquire.find_channel
valid = refl

still_valid :
    validate_canonical_art_proposal art_libs rivals_db "p" (request_of (open_proposal "c_0")) none
    ≡ ok manifest
unfolding neuman.Hub.Access.membership_role neuman.Hub.Access.allows
    neuman.Hub.Validation.validate_name neuman.Hub.Validation.sorted_unique
    neuman.Hub.Journal.check_idempotency neuman.Hub.Leases.latest
    neuman.Hub.Journal.store_idempotency neuman.Hub.Journal.append_evidence
    neuman.Hub.Validation.validate_hash_label neuman.Prelude.bytes_eq neuman.Hub.Validation.before
    neuman.Hub.Validation.validate_content_hash neuman.Prelude.strip_prefix
    neuman.Hub.Journal.is_record neuman.Hub.Proposals.is_authorized
    neuman.Hub.Proposals.verified_object
    neuman.Hub.Proposals.Manifest.Validate.validate_canonical_art_proposal
    neuman.Domain.Base32.encode_base32 neuman.Domain.Identifiers.parse_cell_id
    neuman.Domain.ContentHash.from_str neuman.Domain.Base32.decode_base32
    neuman.Domain.ContentHash.display neuman.Domain.ArtRevision.compute_state_root
    neuman.Domain.ArtRevision.cell_key neuman.Domain.ArtRevision.leaf_message
    neuman.Hub.Leases.Acquire.find_channel
still_valid = refl

validated_delta_example :
    (base : Option CanonicalArtManifest) × (read_base art_libs studio_db "p" "main" none ≡ ok base)
    × (option_eq manifest.base_state_root (state_root_of base) ≡ true)
    × ((open_proposal "b_0").resource_ids ≡ cell_ids (changed_cells base manifest.cells))
    × All (IsStoredCell studio_db "p") manifest.cells
validated_delta_example =
    validated_delta art_libs studio_db "p" (request_of (open_proposal "b_0")) none manifest valid

toy_digests : (m : Bytes) → IsDigest (record { bytes = toy_blake3 m })
toy_digests m = snapshot_IsDigest (get_or m 0 0 % 256) (omega arith)

toy_texts : (a b : ℕ) → toy_hyphenated a ≡ toy_hyphenated b → a ≡ b
toy_texts a b h = omega (
  arith,
  ap length h,
  length-replicate {A = ℕ} (a + 4) b'a',
  length-replicate {A = ℕ} (b + 4) b'a',
)

state_hash_binding_example :
    (maps : CellMaps) × (maps' : CellMaps) × Collects art_libs studio_db "p" manifest maps
    × Collects art_libs rivals_db "p" manifest maps'
    × (((map identity maps.state ≡ map identity maps'.state)
          × IsWithin manifest manifest
          × IsWithin manifest manifest)
        ⊎ StateCollision toy_blake3 toy_hyphenated
            (λ m. (toy_digests m).size)
            toy_texts
            maps.state
            maps'.state)
state_hash_binding_example =
    state_hash_binding art_libs toy_digests toy_texts studio_db rivals_db "p" "p"
      (request_of (open_proposal "b_0")) (request_of (open_proposal "c_0")) none none manifest
      manifest refl valid still_valid

reads : (id : ℕ) → art_libs.uuids.parse_str (toy_hyphenated id) ≡ some id
reads id = ap some (omega (arith, length-replicate {A = ℕ} (id + 4) b'a'))

parse_cell_id_iff_example :
    (parse_cell_id art_libs.uuids (codes "cell_aaaaaa") ≡ ok (record { uuid = 2 })) ↔ (
      (art_libs.uuids.version 2 ≡ 4)
      × (codes "cell_aaaaaa" ≡ cell_text art_libs.uuids (record { uuid = 2 })))
parse_cell_id_iff_example =
    parse_cell_id_iff art_libs.uuids reads (codes "cell_aaaaaa") (record { uuid = 2 })

abbrev new_uuids : Uuids
new_uuids = record art_libs.uuids { version = λ _. 7 }

parse_id_iff_example :
    (parse_id new_uuids "prj_" "project ID" (codes "prj_aaaaaa") ≡ ok 2)
    ↔ ((new_uuids.version 2 ≡ 7) × (codes "prj_aaaaaa" ≡ id_text new_uuids "prj_" 2))
parse_id_iff_example = parse_id_iff new_uuids reads "prj_" "project ID" (codes "prj_aaaaaa") 2
