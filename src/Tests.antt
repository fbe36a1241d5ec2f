-- ===== src/Tests.antt =====
-- Concrete inputs for the theorems, and runs of the definitions, a module for each part.
mod Domain
mod Services
mod Answers
mod Store
mod Indexing
mod Notes
mod Isolation
mod Api
mod Queue
mod Boundary
