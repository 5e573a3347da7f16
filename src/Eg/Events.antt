-- ===== src/Eg/Events.antt =====
-- HandleEvent of usecases/eg/lpc and lpp, events.go. The use cases keep no state of their own: a
-- handler makes calls of the client features and reports events.
pub mod Silent
use eebus_go.Prelude.{if◌then◌else◌, not, Bool, ◌&&◌, Option, none, some, List, [], ◌∷◌, ◌++◌, map}
use eebus_go.Spine.{
  PayloadData, load_control_limits, key_values, characteristics, limit_description_data,
  key_value_description_data, load_control, device_configuration, device_diagnosis,
  electrical_connection, failsafe_duration_minimum, load_control_limit_list_data,
  load_control_limit_description_list_data, device_configuration_key_value_list_data,
  device_configuration_key_value_description_list_data, device_diagnosis_heartbeat_data,
  electrical_connection_characteristic_list_data,
}
use eebus_go.Errors.{ok}
use eebus_go.Features.Filter.{new_remote}
use eebus_go.Features.LoadControl.{LoadControlFeature, get_limit_descriptions_for_filter}
use eebus_go.Features.LoadControl
use eebus_go.Features.DeviceConfiguration
use eebus_go.Features.DeviceConfiguration.{DeviceConfigurationFeature, key_filter}
use eebus_go.Features.ElectricalConnection.Payload.{
  check_event_payload_data_for_filter_description_list,
}
use eebus_go.Features.Requests.{
  Selectors, limit_description_selectors, limit_selectors, characteristic_selectors, Call,
  subscribe_once, bind_once, request_logged,
}
use eebus_go.UseCase.Remote.{RemoteEntity, EventPayload, is_data_update}
use eebus_go.UseCase.Base.{UseCaseBase, is_compatible_entity_type}
use eebus_go.UseCase.Events.{is_entity_added}
use eebus_go.Cs.State.{Variant}
use eebus_go.Cs.Events.{is_heartbeat}
use eebus_go.Internal.Clients.{Remote, ClientEffect, call, report, report_if, where_present}
use eebus_go.Eg.Limit.{remote_limit_filter}
use eebus_go.Eg.Failsafe.{remote_characteristic_type, characteristic_filter}

-- The events of types.go that the handlers report.
pub data EgEvent : Type 0 where
  limit_updated failsafe_limit_updated failsafe_duration_updated : EgEvent
  heartbeat_updated nominal_max_updated : EgEvent

abbrev pub EgEffect : Type 0
EgEffect = ClientEffect EgEvent

-- connected
unfoldable pub connected : Variant → RemoteEntity → Remote → List Call
connected v entity r =
    where_present r.remote_data.load_control (
      subscribe_once (r.client load_control)
      ++ bind_once (r.client load_control)
      ++ request_logged (r.client load_control) load_control_limit_description_list_data
          (some (limit_description_selectors (remote_limit_filter v))))
    ++ where_present r.device_configuration (
        subscribe_once (r.client device_configuration)
        ++ bind_once (r.client device_configuration)
        ++ request_logged (r.client device_configuration)
            device_configuration_key_value_description_list_data none)
    ++ where_present r.device_diagnosis (
        subscribe_once (r.client device_diagnosis)
        ++ request_logged (r.client device_diagnosis) device_diagnosis_heartbeat_data none)
    ++ where_present r.remote_data.electrical_connection (
        subscribe_once (r.client electrical_connection)
        ++ request_logged (r.client electrical_connection)
            electrical_connection_characteristic_list_data
            (some (
              characteristic_selectors
                (characteristic_filter none (remote_characteristic_type v (some entity))))))

-- The selector of the first description that fits, if there is one.
abbrev pub limit_selector : Variant → LoadControlFeature → Option Selectors
limit_selector v lc =
    elim (get_limit_descriptions_for_filter (new_remote lc) (remote_limit_filter v)) [
      | ok (d ∷ ds) ↦ some (limit_selectors d.limit_id)
      | _ ↦ none
    ]

-- loadControlLimitDescriptionDataUpdate
unfoldable pub limit_description_data_update : Variant → Remote → List Call
limit_description_data_update v r = elim r.remote_data.load_control [
  | none ↦ []
  | some lc ↦
      request_logged (r.client load_control) load_control_limit_list_data (limit_selector v lc)
]

-- loadControlLimitDataUpdate
unfoldable pub limit_data_update : Variant → UseCaseBase → Remote → EventPayload → List EgEffect
limit_data_update v u r payload = elim r.remote_data.load_control [
  | none ↦ []
  | some lc ↦
      report_if u
        (LoadControl.check_event_payload_data_for_filter (new_remote lc) payload.content
          (remote_limit_filter v))
        limit_updated payload
]

-- configurationDescriptionDataUpdate
unfoldable pub configuration_description_data_update : Remote → List Call
configuration_description_data_update r =
    where_present r.device_configuration
      (request_logged (r.client device_configuration) device_configuration_key_value_list_data none)

-- configurationDataUpdate
unfoldable pub remote_configuration_data_update :
    Variant → UseCaseBase → Remote → EventPayload → List EgEffect
remote_configuration_data_update v u r payload = elim r.device_configuration [
  | none ↦ []
  | some dc ↦
      report_if u
        (DeviceConfiguration.check_event_payload_data_for_filter (new_remote dc) payload.content
          (key_filter none (some v.failsafe_key)))
        failsafe_limit_updated payload
      ++ report_if u
          (DeviceConfiguration.check_event_payload_data_for_filter (new_remote dc) payload.content
            (key_filter none (some failsafe_duration_minimum)))
          failsafe_duration_updated payload
]

-- electricalConnectionCharacteristicDataUpdate: the ids 0 are fixed.
unfoldable pub characteristic_data_update :
    Variant → UseCaseBase → RemoteEntity → Remote → EventPayload → List EgEffect
characteristic_data_update v u entity r payload = elim r.remote_data.electrical_connection [
  | none ↦ []
  | some ec ↦
      report_if u
        (check_event_payload_data_for_filter_description_list (new_remote ec) payload.content
          (characteristic_filter (some 0) (remote_characteristic_type v (some entity))))
        nominal_max_updated payload
]

-- The switch over the type of the data.
unfoldable pub handle_data :
    Variant → UseCaseBase → RemoteEntity → Remote → EventPayload → PayloadData → List EgEffect
unfolding limit_description_data_update limit_data_update configuration_description_data_update
    remote_configuration_data_update characteristic_data_update
handle_data v u entity r payload limit_description_data =
    map call (limit_description_data_update v r)
handle_data v u entity r payload (load_control_limits _) = limit_data_update v u r payload
handle_data v u entity r payload key_value_description_data =
    map call (configuration_description_data_update r)
handle_data v u entity r payload (key_values _) = remote_configuration_data_update v u r payload
handle_data v u entity r payload (characteristics _) =
    characteristic_data_update v u entity r payload
handle_data v u entity r payload _ = []

-- HandleEvent
unfoldable pub handle_remote_event :
    Variant → UseCaseBase → (RemoteEntity → Remote) → EventPayload → List EgEffect
unfolding is_entity_added is_heartbeat connected handle_data
handle_remote_event v u remotes payload = elim payload.entity [
  | none ↦ []
  | some entity ↦
      if not (is_compatible_entity_type u (some entity))
      then []
      else if is_entity_added payload
      then map call (connected v entity (remotes entity))
      else if is_heartbeat payload && u.event_cb
      then report heartbeat_updated payload ∷ []
      else if is_data_update payload
      then handle_data v u entity (remotes entity) payload payload.content
      else []
]
