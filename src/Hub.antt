-- ===== src/Hub.antt =====
-- hub.rs: the control plane. The error type and JSON values are here; the children model the
-- tables of the SQLite repository, the guards of the handlers, and the handlers.
pub mod Access
pub mod Records
pub mod Database
pub mod Journal
pub mod Validation
pub mod Leases
pub mod Proposals
pub mod Releases
pub mod Projects
pub mod Runs
pub mod Examples
use neuman.Prelude.{ℕ, String, Bool}

-- `serde_json::Value`; numbers are the naturals that the handlers write.
mutual
  pub data Json : Type 0 where
    null : Json
    boolean : Bool → Json
    number : ℕ → Json
    text : String → Json
    array : Items → Json
    object : Fields → Json

  pub data Items : Type 0 where
    end : Items
    item : Json → Items → Items

  pub data Fields : Type 0 where
    close : Fields
    field : String → Json → Fields → Fields

-- `struct HubError`
pub record HubError : Type 0 where
  pub status : ℕ
  pub code : String
  pub message : String
  pub details : Json

-- `HubError::new`, `details`, `forbidden`, `not_found`, `invalid`, `internal`
unfoldable pub hub_error : ℕ → String → String → HubError
hub_error status code message = record {
  status = status;
  code = code;
  message = message;
  details = object close;
}

unfoldable pub with_details : HubError → Json → HubError
with_details e details = record e { details = details }

unfoldable pub forbidden : HubError
unfolding hub_error
forbidden =
    hub_error 403 "HUB_PERMISSION_DENIED"
      "The authenticated principal is not authorized for this project action."

unfoldable pub not_found : String → HubError
unfolding hub_error
not_found kind = hub_error 404 kind "The resource was not found."

unfoldable pub invalid : String → HubError
unfolding hub_error
invalid message = hub_error 400 "HUB_INVALID_REQUEST" message

unfoldable pub internal : HubError
unfolding hub_error
internal = hub_error 500 "HUB_INTERNAL" "The Hub could not complete the request."
