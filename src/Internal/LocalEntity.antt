-- ===== src/Internal/LocalEntity.antt =====
-- The local entity with its server features, and the constructors of the server helpers:
-- NewFeature of features/server/feature.go.
use eebus_go.Prelude.{Option, none, some}
use eebus_go.Spine.{Name}
use eebus_go.Errors.{Result, ok, err, message}
use eebus_go.Features.LoadControl.{LoadControlFeature}
use eebus_go.Features.DeviceConfiguration.{DeviceConfigurationFeature}
use eebus_go.Features.ElectricalConnection.{ElectricalConnectionFeature}
use eebus_go.Features.Measurement.{MeasurementFeature}

-- What `FeatureOfTypeAndRole` finds with the server role, and the type of the local device.
pub record LocalEntity : Type 0 where
  pub load_control : Option LoadControlFeature
  pub device_configuration : Option DeviceConfigurationFeature
  pub electrical_connection : Option ElectricalConnectionFeature
  pub measurement : Option MeasurementFeature
  pub device_type : Option Name

-- `NewFeature` on an entity that is not nil.
abbrev pub new_feature : {S : Type 0} → Option S → Result S
new_feature none = err (message "local feature not found")
new_feature (some feature) = ok feature
