-- ===== src/Cem/Evcc.antt =====
-- usecases/cem/evcc: the commissioning and configuration of an EV. (public.go, usecase.go, and
-- GetDataForFilter of features/internal/identification.go; ManufacturerData, which copies strings, is
-- left out)
pub mod Events
pub mod Responses
pub mod Silent
use eebus_go.Prelude.{
  ℕ, ◌==◌, if◌then◌else◌, not, Bool, true, false, Option, none, some, List, [], ◌∷◌, map,
}
use eebus_go.Prelude.Int.{ℤ, pos}
use eebus_go.Spine.{
  Name, OperatingState, normal_operation, standby, failure, finished, other_operating_state,
  DiagnosisState, Identification, KeyValueData, KeyValueValue, ScaledNumberSet, ScaledNumberRange,
  PermittedValueSet, ParameterDescription, ac_power_total, communications_standard,
  asymmetric_charging_supported, string_type, boolean_type, ev, ev_entity, identification,
  device_configuration, device_classification, device_diagnosis, electrical_connection,
  ev_commissioning_and_configuration,
}
use eebus_go.Errors.{Error, Result, ok, err, panic, data_not_available, no_compatible_entity, ◌>>=◌}
use eebus_go.Features.Filter.{new_remote, Copy, listed, search_filter_in_list}
use eebus_go.Features.Structs.{identification_struct}
use eebus_go.Features.DeviceConfiguration.{
  key_filter, get_key_value_descriptions_for_filter, get_key_value_data_for_filter,
}
use eebus_go.Features.ElectricalConnection.{
  ElectricalConnectionCommon, empty_parameter_description, parameter_filter,
  get_parameter_descriptions_for_filter, get_permitted_value_set_for_filter,
}
use eebus_go.UseCase.Remote.{RemoteEntity, EntityAddress}
use eebus_go.UseCase.Base.{UseCaseScenario, UseCaseBase}
use eebus_go.UseCase.Features.{add_client_features}
use eebus_go.Internal.Clients.{with_compatible}
use eebus_go.Cem.Commissioning.{RemoteVehicle, of_state}

-- ucapi.EVChargeStateType
pub data ChargeState : Type 0 where
  charge_unknown unplugged charge_error charge_paused charge_active charge_finished : ChargeState

-- NewEVCC: `event_cb` says whether a callback is given.
abbrev pub new_evcc : Bool → UseCaseBase
new_evcc event_cb = record {
  use_case_name = ev_commissioning_and_configuration;
  use_case_scenarios =
      record { scenario = 1; server_features = [] }
      ∷ record { scenario = 2; server_features = device_configuration ∷ [] }
      ∷ record { scenario = 3; server_features = device_configuration ∷ [] }
      ∷ record { scenario = 4; server_features = identification ∷ [] }
      ∷ record { scenario = 5; server_features = device_classification ∷ [] }
      ∷ record { scenario = 6; server_features = electrical_connection ∷ [] }
      ∷ record { scenario = 7; server_features = device_diagnosis ∷ [] }
      ∷ record { scenario = 8; server_features = [] }
      ∷ [];
  event_cb = event_cb;
  available_entity_scenarios = [];
  valid_actor_types = ev ∷ [];
  valid_entity_types = ev_entity ∷ [];
  all_entity_types_valid = false;
}

-- AddFeatures; the callbacks for results that it adds are left out.
abbrev pub evcc_add_features : (Name → Name → Bool) → Result (Unit {0})
evcc_add_features can_add =
    (add_client_features can_add (
      device_configuration ∷ identification ∷ device_classification ∷ electrical_connection
      ∷ device_diagnosis ∷ [])).1

-- the switch of ChargeState
abbrev pub charge_state_of : Option OperatingState → Result ChargeState
charge_state_of none = err data_not_available
charge_state_of (some normal_operation) = ok charge_active
charge_state_of (some standby) = ok charge_paused
charge_state_of (some failure) = ok charge_error
charge_state_of (some finished) = ok charge_finished
charge_state_of (some _) = ok charge_unknown

-- ChargeState (With an error, it also returns unplugged or unknown.)
unfoldable pub charge_state :
    (RemoteEntity → RemoteVehicle) → Option RemoteEntity → Result ChargeState
charge_state remotes none = ok unplugged
charge_state remotes (some entity) =
    if not (entity.entity_type == ev_entity)
    then ok unplugged
    else (let r = remotes entity in
        of_state r.clients.missing_error r.diagnosis
          (λ state. charge_state_of state.operating_state))

-- EVConnected: `remote_devices` is RemoteDeviceForSki, with `Entity` of the device, and `is_same`
-- the comparison of two entities. An entity has a device.
unfoldable pub is_ev_connected :
    (ℕ → Option (List ℕ → Option RemoteEntity))
    → (RemoteEntity → RemoteEntity → Bool)
    → (RemoteEntity → RemoteVehicle)
    → Option RemoteEntity
    → Result Bool
unfolding charge_state
is_ev_connected remote_devices is_same remotes none = ok false
is_ev_connected remote_devices is_same remotes (some entity) =
    elim (charge_state remotes (some entity)) [
      | err e ↦ ok false
      | panic ↦ panic
      | ok state ↦ elim (remote_devices entity.device.ski) [
        | none ↦ ok false
        | some entity_at ↦ elim entity.address [
          | none ↦ panic
          | some address ↦ elim (entity_at address.entity) [
            | none ↦ ok false
            | some found ↦ ok (is_same found entity)
          ]
        ]
      ]
    ]

-- deviceConfigurationValueForKeyName
unfoldable pub device_configuration_value_for_key_name :
    UseCaseBase
    → (RemoteEntity → RemoteVehicle)
    → Option RemoteEntity
    → Name
    → Name
    → Result KeyValueData
device_configuration_value_for_key_name u remotes entity key type =
    with_compatible u remotes entity (λ e r. elim r.clients.device_configuration [
      | none ↦ err data_not_available
      | some dc ↦
          get_key_value_descriptions_for_filter (new_remote dc) (key_filter none (some key))
          >>= (λ descriptions.
              get_key_value_data_for_filter (new_remote dc)
                (record (key_filter none (some key)) { value_type = some type }))
    ])

-- A field of the value of an item; any error is ErrDataNotAvailable.
abbrev pub of_value : {A : Type 0} → Result KeyValueData → (KeyValueValue → Option A) → Result A
of_value panic field = panic
of_value (err e) field = err data_not_available
of_value (ok item) field = elim item.value [
  | none ↦ err data_not_available
  | some value ↦ elim (field value) [ none ↦ err data_not_available | some a ↦ ok a ]
]

-- An item of the identifications, where `none` is the empty text.
pub record IdentificationItem : Type 0 where
  pub value_type : Option Name
  pub value : Option Name

-- GetDataForFilter of IdentificationCommon
unfoldable pub identifications_for_filter :
    Copy Identification → Identification → Result (List Identification)
identifications_for_filter (listed items) filter = ok (search_filter_in_list items filter)
identifications_for_filter _ filter = err data_not_available

-- The minimum, the maximum and the standby power of a set of values; 0 where one is not set.
abbrev pub value_or_zero : Option ℤ → ℤ
value_or_zero none = pos 0
value_or_zero (some v) = v

abbrev pub first_or_zero : List ℤ → ℤ
first_or_zero [] = pos 0
first_or_zero (v ∷ vs) = v

abbrev pub power_limits_of : ScaledNumberSet → Result (ℤ × ℤ × ℤ)
power_limits_of s = go s.range
  where
    go : List ScaledNumberRange → Result (ℤ × ℤ × ℤ)
    go (range ∷ []) = ok (value_or_zero range.min, value_or_zero range.max, first_or_zero s.value)
    go _ = err data_not_available

-- What follows the search for the permitted values.
abbrev pub power_limits_of_sets : Result (List PermittedValueSet) → Result (ℤ × ℤ × ℤ)
power_limits_of_sets (ok (data_set ∷ rest)) = elim data_set.permitted_value_set [
  | some (set ∷ []) ↦ power_limits_of set
  | _ ↦ err data_not_available
]
power_limits_of_sets panic = panic
power_limits_of_sets _ = err data_not_available

unfoldable pub power_limits : ElectricalConnectionCommon → Result (ℤ × ℤ × ℤ)
power_limits ec =
    elim (get_parameter_descriptions_for_filter ec
      (record empty_parameter_description { scope_type = some ac_power_total })) [
        | ok (d ∷ ds) ↦ elim d.parameter_id [
          | none ↦ err data_not_available
          | some id ↦
              power_limits_of_sets
                (get_permitted_value_set_for_filter ec (parameter_filter (some id)))
        ]
        | panic ↦ panic
        | _ ↦ err data_not_available
      ]

abbrev pub is_standby : Option OperatingState → Bool
is_standby (some standby) = true
is_standby _ = false

module _ (u : UseCaseBase) (remotes : RemoteEntity → RemoteVehicle)
    (entity : Option RemoteEntity) where
  -- CommunicationStandard (With an error, it also returns "unknown".)
  unfoldable pub communication_standard : Result Name
  unfolding device_configuration_value_for_key_name
  communication_standard = with_compatible u remotes entity (λ e r.
      of_value
        (device_configuration_value_for_key_name u remotes entity communications_standard
          string_type)
        (λ value. value.string))

  -- AsymmetricChargingSupport
  unfoldable pub asymmetric_charging_support : Result Bool
  unfolding device_configuration_value_for_key_name
  asymmetric_charging_support = with_compatible u remotes entity (λ e r.
      of_value
        (device_configuration_value_for_key_name u remotes entity asymmetric_charging_supported
          boolean_type)
        (λ value. value.boolean))

  -- Identifications
  unfoldable pub ev_identifications : Result (List IdentificationItem)
  unfolding identifications_for_filter
  ev_identifications = with_compatible u remotes entity (λ e r. elim r.identification [
    | none ↦ err data_not_available
    | some copy ↦
        identifications_for_filter copy (record {
          identification_id = none;
          identification_type = none;
          identification_value = none;
        })
        >>= (λ items. ok (
            map
              (λ (item : Identification). record {
                value_type = item.identification_type;
                value = item.identification_value;
              })
              items))
  ])

  -- ChargingPowerLimits
  unfoldable pub charging_power_limits : Result (ℤ × ℤ × ℤ)
  unfolding power_limits
  charging_power_limits = with_compatible u remotes entity (λ e r.
      elim r.clients.remote_data.electrical_connection [
        | none ↦ err data_not_available
        | some ec ↦ power_limits (new_remote ec)
      ])

  -- IsInSleepMode
  unfoldable pub is_in_sleep_mode : Result Bool
  is_in_sleep_mode = with_compatible u remotes entity (λ e r.
      of_state r.clients.missing_error r.diagnosis (λ state. ok (is_standby state.operating_state)))
