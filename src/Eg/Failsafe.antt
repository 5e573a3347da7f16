-- ===== src/Eg/Failsafe.antt =====
-- The failsafe values and the nominal maximum of a remote entity, its heartbeat, and
-- characteristicType, of usecases/eg/lpc and lpp, public.go.
pub mod Writes
use eebus_go.Prelude.{ℕ, ◌*◌, ◌==◌, if◌then◌else◌, Bool, false, ◌||◌, Option, none, some, [], ◌∷◌}
use eebus_go.Prelude.Int.{ℤ, pos, ltb_ℤ}
use eebus_go.Spine.{
  Name, KeyValueValue, KeyValueDescription, Characteristic, failsafe_duration_minimum,
  scaled_number_type, duration_type, entity_context, cem,
}
use eebus_go.Errors.{Result, ok, err, panic, message, data_not_available}
use eebus_go.Features.Filter.{new_remote}
use eebus_go.Features.DeviceConfiguration.{
  key_filter, get_key_value_descriptions_for_filter, get_key_value_data_for_filter,
}
use eebus_go.Features.ElectricalConnection.{get_characteristics_for_filter}
use eebus_go.Features.Client.{KeyValueCommand, write_key_values}
use eebus_go.UseCase.Remote.{RemoteEntity}
use eebus_go.UseCase.Base.{UseCaseBase}
use eebus_go.Cs.State.{Variant}
use eebus_go.Cs.Failsafe.{hour}
use eebus_go.Internal.Clients.{Remote, with_compatible, is_heartbeat_within_duration}

abbrev pub typed_key_filter : Name → Name → KeyValueDescription
typed_key_filter name type = record (key_filter none (some name)) { value_type = some type }

-- A value of the remote device configuration: every error is reported as one.
abbrev pub read_remote_value :
    {A : Type 0} → (KeyValueValue → Option A) → KeyValueDescription → Remote → Result A
read_remote_value part filter r = elim r.device_configuration [
  | none ↦ err data_not_available
  | some dc ↦ elim (get_key_value_data_for_filter (new_remote dc) filter) [
    | ok item ↦ elim item.value [
      | none ↦ err data_not_available
      | some value ↦ elim (part value) [ none ↦ err data_not_available | some a ↦ ok a ]
    ]
    | err e ↦ err data_not_available
    | panic ↦ panic
  ]
]

-- FailsafeConsumptionActivePowerLimit, FailsafeProductionActivePowerLimit
unfoldable pub remote_failsafe_limit :
    Variant → UseCaseBase → (RemoteEntity → Remote) → Option RemoteEntity → Result ℤ
remote_failsafe_limit v u remotes entity = with_compatible u remotes entity (λ e r.
    read_remote_value (λ value. value.scaled_number)
      (typed_key_filter v.failsafe_key scaled_number_type) r)

-- What follows the tests: the one description of the key names what is written.
unfoldable pub send_failsafe_limit : (ℤ → ℤ) → Name → Remote → ℤ → Result KeyValueCommand
send_failsafe_limit new_scaled_number key r value = elim r.device_configuration [
  | none ↦ err data_not_available
  | some dc ↦
      elim (get_key_value_descriptions_for_filter (new_remote dc) (key_filter none (some key))) [
        | ok (d ∷ []) ↦ write_key_values r.key_values (
            record {
              key_id = d.key_id;
              value = some (record {
                boolean = none;
                string = none;
                scaled_number = some (new_scaled_number value);
                duration = none;
              });
              is_value_changeable = none;
            }
            ∷ [])
        | _ ↦ err data_not_available
      ]
]

-- WriteFailsafeConsumptionActivePowerLimit, WriteFailsafeProductionActivePowerLimit
unfoldable pub write_remote_failsafe_limit :
    Variant
    → (ℤ → ℤ)
    → UseCaseBase
    → (RemoteEntity → Remote)
    → Option RemoteEntity
    → ℤ
    → Result KeyValueCommand
unfolding send_failsafe_limit
write_remote_failsafe_limit v new_scaled_number u remotes entity value =
    with_compatible u remotes entity
      (λ e r. send_failsafe_limit new_scaled_number v.failsafe_key r value)

-- The duration as it was received: a duration that cannot be read is an error of spine-go's.
abbrev pub remote_duration : Option ℤ → Result ℤ
remote_duration none = err (message "invalid duration")
remote_duration (some d) = ok d

-- FailsafeDurationMinimum
unfoldable pub remote_failsafe_duration_minimum :
    UseCaseBase → (RemoteEntity → Remote) → Option RemoteEntity → Result ℤ
remote_failsafe_duration_minimum u remotes entity = with_compatible u remotes entity (λ e r.
    elim (read_remote_value (λ value. value.duration)
      (typed_key_filter failsafe_duration_minimum duration_type) r) [
        | ok d ↦ remote_duration d
        | err e ↦ err e
        | panic ↦ panic
      ])

-- What follows the tests: the value of the key that is there names what is written.
unfoldable pub send_failsafe_duration : (ℤ → Option ℤ) → Remote → ℤ → Result KeyValueCommand
send_failsafe_duration new_duration r duration = elim r.device_configuration [
  | none ↦ err data_not_available
  | some dc ↦
      elim (get_key_value_data_for_filter (new_remote dc)
        (key_filter none (some failsafe_duration_minimum))) [
          | ok item ↦ write_key_values r.key_values (
              record {
                key_id = item.key_id;
                value = some (record {
                  boolean = none;
                  string = none;
                  scaled_number = none;
                  duration = some (new_duration duration);
                });
                is_value_changeable = none;
              }
              ∷ [])
          | err e ↦ err data_not_available
          | panic ↦ panic
        ]
]

abbrev pub is_outside : ℤ → Bool
is_outside duration = ltb_ℤ duration (pos (2 * hour)) || ltb_ℤ (pos (24 * hour)) duration

-- WriteFailsafeDurationMinimum
unfoldable pub write_remote_failsafe_duration_minimum :
    (ℤ → Option ℤ)
    → UseCaseBase
    → (RemoteEntity → Remote)
    → Option RemoteEntity
    → ℤ
    → Result KeyValueCommand
unfolding send_failsafe_duration
write_remote_failsafe_duration_minimum new_duration u remotes entity duration =
    with_compatible u remotes entity (λ e r.
      if is_outside duration
      then err (message "duration outside of allowed range")
      else send_failsafe_duration new_duration r duration)

-- IsHeartbeatWithinDuration
unfoldable pub is_remote_heartbeat_within_duration :
    (RemoteEntity → Remote) → Option RemoteEntity → ℕ → Bool
unfolding is_heartbeat_within_duration
is_remote_heartbeat_within_duration remotes none now = false
is_remote_heartbeat_within_duration remotes (some entity) now =
    elim (remotes entity).device_diagnosis [
      | none ↦ false
      | some content ↦ is_heartbeat_within_duration content now 120000000000
    ]

-- characteristicType
unfoldable pub remote_characteristic_type : Variant → Option RemoteEntity → Name
remote_characteristic_type v none = v.nominal_max
remote_characteristic_type v (some entity) =
    if entity.entity_type == cem then v.contractual_nominal_max else v.nominal_max

abbrev pub characteristic_filter : Option ℕ → Name → Characteristic
characteristic_filter id type = record {
  electrical_connection_id = id;
  parameter_id = id;
  characteristic_id = none;
  characteristic_context = some entity_context;
  characteristic_type = some type;
  unit = none;
  value = none;
}

-- ConsumptionNominalMax, ProductionNominalMax
unfoldable pub remote_nominal_max :
    Variant → UseCaseBase → (RemoteEntity → Remote) → Option RemoteEntity → Result ℤ
unfolding remote_characteristic_type
remote_nominal_max v u remotes entity = with_compatible u remotes entity (λ e r.
    elim r.remote_data.electrical_connection [
      | none ↦ err r.missing_error
      | some ec ↦
          elim (get_characteristics_for_filter (new_remote ec)
            (characteristic_filter none (remote_characteristic_type v (some e)))) [
              | ok [] ↦ err data_not_available
              | ok (c ∷ cs) ↦ elim c.value [ none ↦ err data_not_available | some x ↦ ok x ]
              | err error ↦ err error
              | panic ↦ panic
            ]
    ])
