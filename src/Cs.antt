-- ===== src/Cs.antt =====
-- usecases/cs/: the controllable system, for the limitation of power consumption (lpc) and of
-- power production (lpp). The two packages have one text, up to the names in a `Variant`.
pub mod State
pub mod Limit
pub mod Approval
pub mod ConfigurationApproval
pub mod Failsafe
pub mod NominalMax
pub mod Events
pub mod AddFeatures
pub mod Lpc
pub mod Lpp
