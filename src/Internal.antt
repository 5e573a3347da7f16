-- ===== src/Internal.antt =====
-- usecases/internal/: helpers that several use cases share.
pub mod LocalEntity
pub mod Clients
pub mod Readers
pub mod Configuration
pub mod ElectricalConnection
pub mod LoadControl
pub mod Measurement
