-- ===== src/Common.antt =====
-- What the controller's parts share (internal/controller/common, internal/controller/constants,
-- internal/controller/model).
pub mod Constants
pub mod Instance
pub mod Naming
pub mod Metadata
pub mod Resources
