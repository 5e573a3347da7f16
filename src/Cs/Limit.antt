-- ===== src/Cs/Limit.antt =====
-- The current limit: loadControlServerAndLimitId, ConsumptionLimit, SetConsumptionLimit of
-- usecases/cs/lpc and their counterparts of lpp.
pub mod Reading
pub mod RoundTrip
pub mod Confusion
use eebus_go.Prelude.{
  ℕ, ◌==◌, if◌then◌else◌, is_set, Bool, true, false, ◌&&◌, Option, none, some, List, [], ◌∷◌,
}
use eebus_go.Prelude.Int.{ℤ, pos, negsuc, ltb_ℤ}
use eebus_go.Spine.{
  time_period_element, Name, LimitDescription, LimitData, TimePeriod,
  sign_dependent_abs_value_limit, obligation, active_power_limit,
}
use eebus_go.Errors.{Result, ok, err, panic, data_not_available, ◌>>=◌}
use eebus_go.Features.Filter.{new_local}
use eebus_go.Features.LoadControl.{
  LoadControlFeature, empty_limit_description, limit_id_filter, get_limit_descriptions_for_filter,
  get_limit_data_for_id,
}
use eebus_go.Features.Server.{UpdateData}
use eebus_go.Features.Server.LoadControl.{update_limit_data_for_filters}
use eebus_go.Internal.LocalEntity.{LocalEntity, new_feature}
use eebus_go.Cs.State.{Variant, Limitation, LoadLimit}

abbrev pub limit_filter : Variant → LimitDescription
limit_filter v = record empty_limit_description {
  limit_type = some sign_dependent_abs_value_limit;
  limit_category = some obligation;
  limit_direction = some v.direction;
  scope_type = some active_power_limit;
}

-- Where the filter does not fit exactly one description with an id, the named results are
-- returned as they are: the feature, the id 0 and no error.
abbrev pub limit_id_of : List LimitDescription → ℕ
limit_id_of (d ∷ []) = elim d.limit_id [ none ↦ 0 | some id ↦ id ]
limit_id_of _ = 0

unfoldable pub load_control_server_and_limit_id :
    Variant → LocalEntity → Result (LoadControlFeature × ℕ)
load_control_server_and_limit_id v entity = do
  lc ← new_feature entity.load_control
  descriptions ← get_limit_descriptions_for_filter (new_local lc) (limit_filter v)
  ok (lc, limit_id_of descriptions)

abbrev pub is_zero : ℤ → Bool
is_zero (pos n) = n == 0
is_zero (negsuc n) = false

-- The duration of a limit with an end time, where it can be read.
abbrev pub duration_of : LimitData → Option ℤ
duration_of x = elim x.time_period [
  | none ↦ none
  | some p ↦ if p.end_time then p.duration else none
]

-- A duration of 0 makes the limit inactive.
abbrev pub limit_of : LimitData → ℤ → LoadLimit
limit_of x value = elim (duration_of x) [
  | none ↦ record {
    duration = pos 0;
    is_changeable = is_set x.is_limit_changeable;
    is_active = is_set x.is_limit_active;
    value = value;
    delete_duration = false;
  }
  | some d ↦ record {
    duration = d;
    is_changeable = is_set x.is_limit_changeable;
    is_active = if is_zero d then false else is_set x.is_limit_active;
    value = value;
    delete_duration = false;
  }
]

-- ConsumptionLimit, ProductionLimit
unfoldable pub current_limit : Variant → LocalEntity → Result LoadLimit
current_limit v entity = elim (load_control_server_and_limit_id v entity) [
  | ok r ↦ elim (get_limit_data_for_id (new_local r.0) r.1) [
    | ok x ↦ elim x.limit_id [
      | none ↦ err data_not_available
      | some id ↦ elim x.value [
        | none ↦ err data_not_available
        | some value ↦ ok (limit_of x value)
      ]
    ]
    | err e ↦ err data_not_available
    | panic ↦ panic
  ]
  | err e ↦ err e
  | panic ↦ panic
]

-- `NewScaledNumberType` and `NewAbsoluteOrRelativeTimeTypeFromDuration` are spine-go's.
abbrev pub limit_data : (ℤ → ℤ) → (ℤ → TimePeriod) → LoadLimit → LimitData
limit_data new_scaled_number new_time_period limit = record {
  limit_id = none;
  is_limit_changeable = some limit.is_changeable;
  is_limit_active = some limit.is_active;
  time_period =
      if ltb_ℤ (pos 0) limit.duration then some (new_time_period limit.duration) else none;
  value = some (new_scaled_number limit.value);
}

-- SetConsumptionLimit, SetProductionLimit: the time period of the limit is deleted first.
unfoldable pub set_limit :
    Variant
    → (ℤ → ℤ)
    → (ℤ → TimePeriod)
    → UpdateData LimitData
    → LocalEntity
    → LoadLimit
    → LocalEntity × Result (Unit {0})
set_limit v new_scaled_number new_time_period update_data entity limit =
    elim (load_control_server_and_limit_id v entity) [
      | ok (lc, limit_id) ↦
          let (lc', result) =
            update_limit_data_for_filters update_data lc
              ((limit_data new_scaled_number new_time_period limit, limit_id_filter (some limit_id))
                ∷ [])
              (some (some limit_id)) (some (time_period_element ∷ [])) in
          (record entity { load_control = some lc' }, result)
      | err e ↦ (entity, err e)
      | panic ↦ (entity, panic)
    ]
