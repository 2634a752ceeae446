-- ===== src/Tests.antt =====
-- Concrete runs of the definitions, and the theorems at concrete inputs.
mod Schedules
mod Identity
mod Ingest
mod Samples
mod Store
mod Turns
mod Approvals
mod Outbound
