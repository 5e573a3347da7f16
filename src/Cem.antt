-- ===== src/Cem.antt =====
-- usecases/cem: what an energy management system reads of, and writes to, other devices.
pub mod Vabd
pub mod Vapd
pub mod Evsoc
pub mod Charging
pub mod Opev
pub mod Oscev
pub mod Evcem
pub mod Ohpcf
pub mod Commissioning
pub mod Evsecc
pub mod Evcc
