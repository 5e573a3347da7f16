-- ===== src/Spine.antt =====
-- The data that the SPINE stack (spine-go, a dependency) hands to the program: the part of its
-- data sets that the program reads or writes, field by field. A Go pointer is an `Option`.
--
-- String enumerations and identifiers are numbers: the program tests them for equality only, and
-- for identifiers takes the next one. `ScaledNumberType` is the value that its `GetValue` returns,
-- `DurationType` the result of its `GetTimeDuration`, and a time period the result of its
-- `GetDuration`, where `none` is their error.
mod Names
mod LoadControl
mod Electrical
mod Configuration
mod EnergyManagement
mod Diagnosis
mod Events
pub use Names.*
pub use LoadControl.*
pub use Electrical.*
pub use Configuration.*
pub use EnergyManagement.*
pub use Diagnosis.*
pub use Events.*
