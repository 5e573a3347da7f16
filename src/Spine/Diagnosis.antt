-- ===== src/Spine/Diagnosis.antt =====
-- Diagnosis and identification data sets of spine-go.
use eebus_go.Prelude.{ℕ, Option}
use eebus_go.Spine.Names.{Name}

-- model.DeviceDiagnosisOperatingStateType, as far as the program tells states apart
pub data OperatingState : Type 0 where
  normal_operation standby failure finished : OperatingState
  other_operating_state : ℕ → OperatingState

-- model.DeviceDiagnosisStateDataType; the program hands the error code on
pub record DiagnosisState : Type 0 where
  pub operating_state : Option OperatingState
  pub last_error_code : Option Name

-- model.IdentificationDataType
pub record Identification : Type 0 where
  pub identification_id : Option ℕ
  pub identification_type : Option Name
  pub identification_value : Option Name
