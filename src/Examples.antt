-- ===== src/Examples.antt =====
-- Concrete data sets, devices and messages, and the theorems at them.
mod Updates
mod Data
mod Limits
mod Approvals
mod UseCases
mod Adjustments
mod RemoteData
mod RemoteLimits
mod Additions
mod GuardData
mod Guards
mod Charging
mod Monitoring
mod Services
mod Compressor
mod Vehicles
