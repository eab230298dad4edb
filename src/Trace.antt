-- ===== src/Trace.antt =====
-- boards/common/trace_hooks.c: the recorder of scheduler events and the core's load, from the
-- context-switch and interrupt hooks. A critical section is one step. Child modules: Ring has the
-- recorder, Ids the thread identifiers, Load the accounting, Hooks the hooks composed of them.
pub mod Ring
pub mod Ids
pub mod Stable
pub mod Sums
pub mod Account
pub mod Window
mod Tests
pub mod Load
pub mod Hooks
pub mod Snapshot
