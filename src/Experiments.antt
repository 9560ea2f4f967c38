-- ===== src/Experiments.antt =====
-- apps/worker/src/experiments: the slot that holds a prepared request (prepared-slot.ts), and the registry
-- that says which experiments are on (registry.ts).
pub mod Slot
pub mod Taken
pub mod Registry
pub mod Active
pub mod Conflicts
pub mod Fresh
mod Tests
