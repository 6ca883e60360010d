-- ===== src/Api.antt =====
-- The custom resource in its two versions, and the conversion between them.
pub mod Kube
pub mod V1beta1
pub mod V1beta2
pub mod Conversion
