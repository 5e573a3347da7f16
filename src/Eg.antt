-- ===== src/Eg.antt =====
-- usecases/eg: the energy guard's side of the limitation of power consumption (lpc) and of power
-- production (lpp).
pub mod Limit
pub mod Failsafe
pub mod Events
pub mod Lpc
pub mod Lpp
