-- ===== src/Tasks.antt =====
-- src/canon_systems/tasks.py: assignable work items as the fold of a stream of task events. `Events`
-- is the event, its validation and the order of the stream, `Make` how an event is built, `Fold` the
-- fold and `materialize`, `Merge` the union of ledgers, `Select` the filters and the order of a
-- listing. The other children are proofs.
pub mod Events
pub mod Fold
pub mod Streams
pub mod Totality
pub mod Audit
pub mod Merge
pub mod Select
pub mod Shown
pub mod Arranged
pub mod Selected
pub mod Make
pub mod Made
pub mod Union
pub mod Merged
pub mod Newest
mod Tests
