-- ===== src/Services.antt =====
-- The application services (services/*.py), the gateways of runtime.py and the worker.
pub mod Throttle
pub mod Gateways
pub mod Authentication
pub mod Notes
pub mod Intent
pub mod Retrieval
pub mod Rag
pub mod Indexing
pub mod Runtime
pub mod Worker
pub mod Isolation
