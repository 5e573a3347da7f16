-- ===== src/Features/Server.antt =====
-- features/server/: writing the local features. `UpdateData` of a local feature is spine-go's: it
-- is a parameter of each operation, on the data set that the operation writes.
pub mod LoadControl
pub mod DeviceConfiguration
pub mod ElectricalConnection
pub mod Ids
pub mod Laws
use eebus_go.Prelude.{ℕ, String, Option, List}
use eebus_go.Spine.{Name}
use eebus_go.Features.Filter.{Copy}

-- model.FilterType with the selector of a list and the elements to remove from what it selects
pub record DeleteFilter : Type 0 where
  pub selector : Option ℕ
  pub elements : Option (List Name)

-- The new data set, or the text of the error.
pub data Update (T : Type 0) : Type 0 where
  updated : Copy T → Update T
  refused : String → Update T

-- `UpdateData(function, data, model.NewFilterTypePartial(), deleteFilter)`
abbrev pub UpdateData : Type 0 → Type 0
UpdateData T = Copy T → List T → Option DeleteFilter → Update T
