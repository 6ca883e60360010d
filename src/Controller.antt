-- ===== src/Controller.antt =====
-- The reconcilers (internal/controller).
pub mod FsGroup
pub mod Reports
pub mod Policies
pub mod Hashes
pub mod Templates
pub mod Deployments
pub mod Namespaces
pub mod PerNamespace
pub mod Rbac
pub mod ServiceConfig
pub mod ServiceObject
pub mod ConfigMaps
pub mod Conditions
pub mod Reconciler
pub mod Secrets
pub mod Services
pub mod VolumeClaims
pub mod Watch
