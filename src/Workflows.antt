-- ===== src/Workflows.antt =====
-- The workflows over one recorder (src/pytvt/workflows).
pub mod Base
pub mod Client
pub mod Rotate
pub mod Subnet
pub mod Validate
