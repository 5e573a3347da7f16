-- ===== src/Features.antt =====
-- features/: the helpers through which the use cases read and write SPINE features.
pub mod Filter
pub mod Structs
pub mod LoadControl
pub mod Measurement
pub mod DeviceConfiguration
pub mod ElectricalConnection
pub mod Server
pub mod Client
pub mod Requests
