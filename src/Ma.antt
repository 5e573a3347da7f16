-- ===== src/Ma.antt =====
-- usecases/ma: what a monitoring appliance reads of other devices.
pub mod Mpc
pub mod Mgcp
pub mod Readings
