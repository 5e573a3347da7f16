-- ===== src/Spine/Configuration.antt =====
-- Device configuration data sets of spine-go.
use eebus_go.Prelude.{ℕ, Bool, Option}
use eebus_go.Prelude.Int.{ℤ}
use eebus_go.Spine.Names.{Name}

-- model.DeviceConfigurationKeyValueDescriptionDataType
pub record KeyValueDescription : Type 0 where
  pub key_id : Option ℕ
  pub key_name : Option Name
  pub value_type : Option Name
  pub unit : Option Name

-- model.DeviceConfigurationKeyValueValueType
pub record KeyValueValue : Type 0 where
  pub boolean : Option Bool
  pub string : Option Name
  pub scaled_number : Option ℤ
  pub duration : Option (Option ℤ)

-- model.DeviceConfigurationKeyValueDataType
pub record KeyValueData : Type 0 where
  pub key_id : Option ℕ
  pub value : Option KeyValueValue
  pub is_value_changeable : Option Bool
