-- ===== src/Cs/Failsafe.antt =====
-- The failsafe values: Failsafe…ActivePowerLimit, FailsafeDurationMinimum and their setters, of
-- usecases/cs/lpc and lpp, public.go.
pub mod Ranges
use eebus_go.Prelude.{
  ℕ, ◌*◌, ◌==◌, if◌then◌else◌, is_set, Bool, true, false, ◌||◌, Option, none, some, List, [], ◌∷◌,
}
use eebus_go.Prelude.Int.{ℤ, pos, ltb_ℤ}
use eebus_go.Spine.{Name, KeyValueData, KeyValueValue, failsafe_duration_minimum}
use eebus_go.Errors.{Result, ok, err, panic, message, data_not_available}
use eebus_go.Features.Filter.{new_local}
use eebus_go.Features.DeviceConfiguration.{
  DeviceConfigurationFeature, key_filter, get_key_value_data_for_filter,
}
use eebus_go.Features.Server.{UpdateData}
use eebus_go.Features.Server.DeviceConfiguration.{update_key_value_data_for_filter}
use eebus_go.Internal.LocalEntity.{LocalEntity, new_feature}
use eebus_go.Cs.State.{Variant}

-- The data of a key of the local device configuration; every error is reported as one.
unfoldable pub key_data : Name → LocalEntity → Result KeyValueData
key_data name entity = elim (new_feature entity.device_configuration) [
  | ok f ↦ elim (get_key_value_data_for_filter (new_local f) (key_filter none (some name))) [
    | ok item ↦ ok item
    | err e ↦ err data_not_available
    | panic ↦ panic
  ]
  | _ ↦ err data_not_available
]

-- A value that is read needs the key, the value and, in it, the kind of value asked for.
abbrev pub read_value : {A : Type 0} → (KeyValueValue → Option A) → KeyValueData → Result (A × Bool)
read_value part item = elim item.key_id [
  | none ↦ err data_not_available
  | some id ↦ elim item.value [
    | none ↦ err data_not_available
    | some value ↦ elim (part value) [
      | none ↦ err data_not_available
      | some a ↦ ok (a, is_set item.is_value_changeable)
    ]
  ]
]

-- FailsafeConsumptionActivePowerLimit, FailsafeProductionActivePowerLimit
unfoldable pub failsafe_limit : Variant → LocalEntity → Result (ℤ × Bool)
unfolding key_data
failsafe_limit v entity = elim (key_data v.failsafe_key entity) [
  | ok item ↦ read_value (λ value. value.scaled_number) item
  | err e ↦ err e
  | panic ↦ panic
]

-- A duration that cannot be read as a time is not available.
abbrev pub readable : KeyValueValue → Option ℤ
readable value = elim value.duration [ none ↦ none | some d ↦ d ]

unfoldable pub get_failsafe_duration_minimum : LocalEntity → Result (ℤ × Bool)
unfolding key_data
get_failsafe_duration_minimum entity = elim (key_data failsafe_duration_minimum entity) [
  | ok item ↦ read_value readable item
  | err e ↦ err e
  | panic ↦ panic
]

abbrev pub set_key_value :
    UpdateData KeyValueData
    → LocalEntity
    → Name
    → KeyValueValue
    → Bool
    → LocalEntity × Result (Unit {0})
set_key_value update_data entity name value changeable =
    elim (new_feature entity.device_configuration) [
      | ok f ↦
          let (f', result) =
            update_key_value_data_for_filter update_data f
              (record { key_id = none; value = some value; is_value_changeable = some changeable })
              none (key_filter none (some name)) in
          (record entity { device_configuration = some f' }, result)
      | err e ↦ (entity, err e)
      | panic ↦ (entity, panic)
    ]

-- SetFailsafeConsumptionActivePowerLimit, SetFailsafeProductionActivePowerLimit
unfoldable pub set_failsafe_limit :
    Variant
    → (ℤ → ℤ)
    → UpdateData KeyValueData
    → LocalEntity
    → ℤ
    → Bool
    → LocalEntity × Result (Unit {0})
set_failsafe_limit v new_scaled_number update_data entity value changeable =
    set_key_value update_data entity v.failsafe_key
      (record {
        boolean = none;
        string = none;
        scaled_number = some (new_scaled_number value);
        duration = none;
      })
      changeable

-- time.Hour, in nanoseconds
abbrev pub hour : ℕ
hour = 3600000000000

-- `new_duration` is spine-go's `NewDurationType`.
unfoldable pub set_failsafe_duration_minimum :
    (ℤ → Option ℤ)
    → UpdateData KeyValueData
    → LocalEntity
    → ℤ
    → Bool
    → LocalEntity × Result (Unit {0})
set_failsafe_duration_minimum new_duration update_data entity duration changeable =
    if ltb_ℤ duration (pos (2 * hour)) || ltb_ℤ (pos (24 * hour)) duration
    then (entity, err (message "duration outside of allowed range"))
    else set_key_value update_data entity failsafe_duration_minimum
        (record {
          boolean = none;
          string = none;
          scaled_number = none;
          duration = some (new_duration duration);
        })
        changeable
