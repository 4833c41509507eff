-- ===== src/Domain.antt =====
-- domain.rs: canonical, provider-neutral domain values. The error type is here; the children model
-- the encodings, identifiers, the art revision and the release status.
pub mod Base32
pub mod ContentHash
pub mod ArtRevision
pub mod Identifiers
pub mod ReleaseStatus
pub mod Examples
use neuman.Prelude.{String}

-- `enum DomainError`; the reasons that the code computes by `format!` are kept as their template.
pub data DomainError : Type 0 where
  invalid_id : String → String → DomainError
  invalid_hash : String → DomainError
  canonical_json : String → DomainError
  illegal_transition : String → String → String → DomainError
