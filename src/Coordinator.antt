-- ===== src/Coordinator.antt =====
-- core/internal/coordinator: consumer groups (group.go) and committed offsets (offset.go).
pub mod Assign
pub mod State
pub mod Group
pub mod Offsets
