-- ===== src/Spine/LoadControl.antt =====
-- Load control and measurement data sets of spine-go.
use eebus_go.Prelude.{ℕ, Bool, Option}
use eebus_go.Prelude.Int.{ℤ}
use eebus_go.Spine.Names.{Name}

-- model.LoadControlLimitDescriptionDataType
pub record LimitDescription : Type 0 where
  pub limit_id : Option ℕ
  pub limit_type : Option Name
  pub limit_category : Option Name
  pub limit_direction : Option Name
  pub measurement_id : Option ℕ
  pub unit : Option Name
  pub scope_type : Option Name

-- model.TimePeriodType: whether `EndTime` is set, and what `GetDuration` returns
pub record TimePeriod : Type 0 where
  pub end_time : Bool
  pub duration : Option ℤ

-- model.LoadControlLimitDataType
pub record LimitData : Type 0 where
  pub limit_id : Option ℕ
  pub is_limit_changeable : Option Bool
  pub is_limit_active : Option Bool
  pub time_period : Option TimePeriod
  pub value : Option ℤ

-- model.MeasurementDescriptionDataType
pub record MeasurementDescription : Type 0 where
  pub measurement_id : Option ℕ
  pub measurement_type : Option Name
  pub commodity_type : Option Name
  pub unit : Option Name
  pub scope_type : Option Name

-- model.MeasurementDataType
pub record MeasurementData : Type 0 where
  pub measurement_id : Option ℕ
  pub value : Option ℤ
  pub value_state : Option Name
