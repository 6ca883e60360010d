-- ===== src/Api/Conversion.antt =====
-- The conversion between the versions (api/v1beta1/cryostat_conversion.go): `To` and `From`.
pub mod To
pub mod From
pub mod Parts
pub mod RoundTrip
pub mod Hub
mod Tests
