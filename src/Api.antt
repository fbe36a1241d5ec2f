-- ===== src/Api.antt =====
-- The HTTP interface (api/*.py): requests, the handlers of the routes, and error responses.
pub mod Errors
pub mod Auth
pub mod Cursors
pub mod Notes
pub mod Chat
pub mod Refusals
pub mod Health
