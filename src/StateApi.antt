-- ===== src/StateApi.antt =====
-- backend/state-api: the operational-state plane, whose rows are checkpoints with leases.
-- `Rows` is models.py, `Store` the `StateStore` of storage.py, `Leases` and `Checkpoints` the
-- handlers of leases.py and checkpoints.py. The other children prove what they promise.
pub mod Rows
pub mod Store
pub mod Leases
pub mod Checkpoints
pub mod Effects
pub mod Calls
pub mod Exclusion
pub mod Puts
pub mod Outcomes
pub mod Refusals
pub mod Versions
pub mod Grants
pub mod Handover
pub mod Keys
mod Tests
