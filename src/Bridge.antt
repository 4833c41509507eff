-- ===== src/Bridge.antt =====
-- bridge.rs: the loopback bridge between the desktop and the Studio plugin. The error type is here.
pub mod Hash
pub mod Sequence
pub mod Transfer
pub mod Pairing
pub mod Examples
pub mod TransferExample
pub mod PairingExample
use neuman.Prelude.{ℕ, String}

-- `enum BridgeError`; a reason that the code computes by `format!` is kept as its template, and the
-- payload of the I/O and JSON errors, which are the libraries', is left out.
pub data BridgeError : Type 0 where
  discovery_invalid pairing_denied transfer_rejected command_unsupported orchestration_failed :
      String → BridgeError
  pairing_required auth_invalid protocol_incompatible context_stale replay_detected : BridgeError
  message_too_large chunk_hash_mismatch content_hash_mismatch io json : BridgeError
  sequence_gap : ℕ → ℕ → BridgeError
