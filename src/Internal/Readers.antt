-- ===== src/Internal/Readers.antt =====
-- What the use cases that read measurements share: the filters, the ways in which the code reads a
-- value, and the handling of measurement events. (usecases/ma, and vabd, vapd, evsoc, evcem of
-- usecases/cem)
pub mod Validity
use eebus_go.Prelude.{
  if◌then◌else◌, is_some, holds, not, Bool, true, false, ◌&&◌, Option, none, some, List, [], ◌∷◌,
  ◌++◌, map,
}
use eebus_go.Prelude.Int.{ℤ}
use eebus_go.Spine.{
  Name, MeasurementDescription, electricity, normal, scaled_number_type, measurement,
  electrical_connection, device_configuration, measurement_description_list_data,
  measurement_constraints_list_data, measurement_list_data,
  electrical_connection_description_list_data,
  electrical_connection_parameter_description_list_data,
  device_configuration_key_value_description_list_data, device_configuration_key_value_list_data,
}
use eebus_go.Errors.{Error, Result, ok, err, panic, data_not_available, data_invalid}
use eebus_go.Features.Filter.{new_remote}
use eebus_go.Features.Measurement.{
  MeasurementFeature, get_data_for_filter, check_event_payload_data_for_filter,
}
use eebus_go.Features.DeviceConfiguration
use eebus_go.Features.DeviceConfiguration.{
  key_filter, get_key_value_descriptions_for_filter, get_key_value_data_for_filter,
}
use eebus_go.Features.Requests.{Call, subscribe_once, request_logged}
use eebus_go.UseCase.Remote.{EventPayload}
use eebus_go.UseCase.Base.{UseCaseBase}
use eebus_go.Internal.Clients.{Remote, ClientEffect, report_if, where_present}
use eebus_go.Internal.Measurement.{measurement_phase_specific_data_for_filter}

abbrev pub measured : Name → Name → MeasurementDescription
measured type scope = record {
  measurement_id = none;
  measurement_type = some type;
  commodity_type = some electricity;
  unit = none;
  scope_type = some scope;
}

abbrev pub scope_filter : Name → MeasurementDescription
scope_filter scope = record {
  measurement_id = none;
  measurement_type = none;
  commodity_type = none;
  unit = none;
  scope_type = some scope;
}

-- The first item with its value, where `checked` says whether a state that is set has to be normal,
-- and `failure` is the error of a measurement feature that is not there.
unfoldable pub first_value :
    Bool → Error → Option MeasurementFeature → MeasurementDescription → Result ℤ
first_value checked failure feature filter = elim feature [
  | none ↦ err failure
  | some m ↦ elim (get_data_for_filter (new_remote m) filter) [
    | ok (x ∷ xs) ↦ elim x.value [
      | none ↦ err data_not_available
      | some value ↦
          if checked && (is_some x.value_state && not (holds x.value_state normal))
          then err data_invalid
          else ok value
    ]
    | panic ↦ panic
    | _ ↦ err data_not_available
  ]
]

-- The values of the phases, or of all items.
abbrev pub values_of_phases :
    Remote → MeasurementDescription → Option Name → Option (List Name) → Result (List ℤ)
values_of_phases r filter direction phases =
    measurement_phase_specific_data_for_filter r.measurement r.remote_data.electrical_connection
      filter direction phases

-- `if len(values) != 1 { return 0, api.ErrDataNotAvailable }; return values[0], nil`
abbrev pub single : Result (List ℤ) → Result ℤ
single (ok (value ∷ [])) = ok value
single (ok _) = err data_not_available
single (err e) = err e
single panic = panic

-- A number under a key, whose descriptions have to be there, with any error of theirs.
unfoldable pub scaled_value : Error → Remote → Name → Result ℤ
scaled_value failure r key = elim r.device_configuration [
  | none ↦ err failure
  | some dc ↦
      elim (get_key_value_descriptions_for_filter (new_remote dc) (key_filter none (some key))) [
        | ok ds ↦
            elim (get_key_value_data_for_filter (new_remote dc)
              (record (key_filter none (some key)) { value_type = some scaled_number_type })) [
                | ok item ↦ elim item.value [
                  | none ↦ err data_not_available
                  | some value ↦ elim value.scaled_number [
                    | none ↦ err data_not_available
                    | some n ↦ ok n
                  ]
                ]
                | err e ↦ err data_not_available
                | panic ↦ panic
              ]
        | err e ↦ err e
        | panic ↦ panic
      ]
]

-- What a device configuration is asked when an entity is connected.
abbrev pub connect_configuration : Remote → List Call
connect_configuration r = where_present r.device_configuration (
    subscribe_once (r.client device_configuration)
    ++ request_logged (r.client device_configuration)
        device_configuration_key_value_description_list_data none)

-- What an electrical connection and a measurement are asked.
abbrev pub connect_measurement : Remote → List Call
connect_measurement r =
    where_present r.remote_data.electrical_connection (
      subscribe_once (r.client electrical_connection)
      ++ request_logged (r.client electrical_connection) electrical_connection_description_list_data
          none
      ++ request_logged (r.client electrical_connection)
          electrical_connection_parameter_description_list_data none)
    ++ where_present r.measurement (
        subscribe_once (r.client measurement)
        ++ request_logged (r.client measurement) measurement_description_list_data none
        ++ request_logged (r.client measurement) measurement_constraints_list_data none)

abbrev pub request_key_values : Remote → List Call
request_key_values r =
    where_present r.device_configuration
      (request_logged (r.client device_configuration) device_configuration_key_value_list_data none)

abbrev pub request_measurements : Remote → List Call
request_measurements r =
    where_present r.measurement (request_logged (r.client measurement) measurement_list_data none)

-- The tests of a measurement update, one after the other: a scope, and the event that is reported.
unfoldable pub report_scopes :
    {E : Type 0}
    → UseCaseBase
    → MeasurementFeature
    → EventPayload
    → List (Name × E)
    → List (ClientEffect E)
report_scopes u m payload [] = []
report_scopes u m payload ((scope, name) ∷ scopes) =
    report_if u
      (check_event_payload_data_for_filter (new_remote m) payload.content (scope_filter scope)) name
      payload
    ++ report_scopes u m payload scopes

unfoldable pub measurement_data_update :
    {E : Type 0} → UseCaseBase → Remote → EventPayload → List (Name × E) → List (ClientEffect E)
unfolding report_scopes
measurement_data_update u r payload scopes = elim r.measurement [
  | none ↦ []
  | some m ↦ report_scopes u m payload scopes
]

-- An update of the values under a key, with a type of value if one is asked for.
unfoldable pub key_data_update :
    {E : Type 0}
    → UseCaseBase
    → Remote
    → EventPayload
    → Name
    → Option Name
    → E
    → List (ClientEffect E)
key_data_update u r payload key type name = elim r.device_configuration [
  | none ↦ []
  | some dc ↦
      report_if u
        (DeviceConfiguration.check_event_payload_data_for_filter (new_remote dc) payload.content
          (record (key_filter none (some key)) { value_type = type }))
        name payload
]
