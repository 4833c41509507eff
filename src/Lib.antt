-- ===== src/Lib.antt =====
-- Neuman: the domain values (domain.rs), the loopback bridge (bridge.rs) and the Hub (hub.rs), the
-- control plane that serializes the work of a team on a Roblox project.
--
-- The parts and their files. Paths are from the repository's root.
--   domain.rs      Domain: the error type. Domain/Base32: `encode_base32` and `decode_base32`.
--                  Domain/ContentHash: `ContentHash` and its text. Domain/ArtRevision: an accepted
--                  art state, the Merkle tree of `compute_state_root`, and `validate`.
--                  Domain/Identifiers: the UUID identifiers, `RobloxId`, `GitOid`, `Sha256Hash`.
--                  Domain/ReleaseStatus: `ReleaseStatus::transition`.
--   bridge.rs      Bridge: the error type. Bridge/Hash: `base32_lower`, `blake3_label`,
--                  `validate_blake3_hash`. Bridge/Sequence: `SequenceGuard`, the replay and gap
--                  check. Bridge/Transfer (children Chunks, Complete): `TransferManager`, the
--                  uploads of a session and the files of its directory. Bridge/Pairing (children
--                  Protocol, Complete): challenges, approvals and credentials, `complete_pairing`,
--                  `authenticate_credential`, `negotiate_protocol`; Bridge/Pairing/Runs: runs of them.
--   hub.rs         Hub: errors and JSON values. Hub/Access: roles, permissions, `membership_role`.
--                  Hub/Records and Hub/Database: the documents and the tables. Hub/Journal:
--                  idempotency records, audit chain and outbox. Hub/Validation: the checks of text.
--                  Hub/Leases (children Acquire, Held): acquire, renew, release, list.
--                  Hub/Releases (children Approval, Action): create, get, approve, start, resume,
--                  rollback. Hub/Proposals (children Create, Review, Accept): create, review,
--                  reject, accept and read art proposals; Hub/Proposals/Manifest:
--                  `validate_canonical_art_proposal`. Hub/Projects (children Members, Change): create, read,
--                  rename and archive projects; list, add, change and remove members. Hub/Runs:
--                  runs of the handlers of leases, releases and proposals.
--   Prelude        lists, results, text and Boolean tests that the parts share.
--
-- How the parts interact. A content hash is written by domain.rs, bridge.rs and hub.rs and read by
-- each of them. A Hub handler is a transaction: it authorizes through `membership_role`, replays a
-- stored response through `check_idempotency`, changes its tables, and ends with `append_evidence`
-- and `store_idempotency`.
--
-- How the model is made. `Result` is the code's `Result`. A handler takes the database and returns
-- `ok` with the committed one, or `err`, which leaves the transaction rolled back. A table is the
-- list of its rows, newest first; a query is `find?`, an `UPDATE` is `update_where`, and an `INSERT`
-- fails with the internal error where a primary key or a unique constraint is violated. A text that
-- the handlers only compare is a String; where its characters matter it is the list of its code
-- points (Bytes). Times are natural numbers, of milliseconds in the Hub and of nanoseconds in the
-- bridge. The clock readings and the identifiers of one call are its record `Call` in the Hub, and
-- `Draw` in the bridge's pairing. `canonical_request_hash` is an argument, since it hashes the JSON
-- text that serde_json makes. SHA-256, BLAKE3, the base64url decoder, the JSON text and the text
-- of a UUID are parameters. The u32 buffer of base32, the u16 accumulator, the u64 of the
-- sequence and the usize product of a chunk's offset keep their wrap-around. The manager of
-- transfers takes and returns the files beside itself, and `complete`, which changes it on errors
-- too, returns it with the error.
--
-- Loops are structural recursion, except `climb` (the levels of the Merkle tree), whose fuel is the
-- number of leaves, and `decimal` and `number_text`, whose fuel is more than the number of digits. A
-- level of two nodes or more is followed by a shorter one, so the fuel of `climb` is enough.
--
-- Not modelled: the HTTP routes, the object store and the SQL schema of hub.rs, its builds, cursors
-- and presence, and `maintenance`, which deletes expired idempotency records and old outbox
-- messages; the sockets, downloads and fan-out of bridge.rs; the other values of domain.rs; and
-- core.rs, the commands, the desktop, the GitHub and Roblox clients and the runners, which are input
-- and output for the most part.
pub mod Bridge
pub mod Domain
pub mod Hub
pub mod Prelude
