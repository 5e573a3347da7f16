-- ===== src/Cs/Events.antt =====
-- HandleEvent of usecases/cs/lpc and lpp, events.go, with IsDeviceConnected and IsHeartbeat of
-- usecases/internal. The use case embeds a UseCaseBase `u`, which knows the compatible entities.
pub mod Heartbeat
use eebus_go.Prelude.{
  ℕ, ◌==◌, if◌then◌else◌, any, holds, is_some, not, Bool, true, false, ◌&&◌, ◌||◌, Option, none,
  some, List, [], ◌∷◌, ◌++◌,
}
use eebus_go.Spine.{
  Name, PayloadData, load_control_limits, key_values, heartbeat, server_role, load_control,
  device_diagnosis, device_configuration, failsafe_duration_minimum, load_control_limit_list_data,
  device_configuration_key_value_list_data, device_diagnosis_heartbeat_data, write_classifier,
  notify_classifier,
}
use eebus_go.Errors.{ok}
use eebus_go.Features.Filter.{new_local}
use eebus_go.Features.LoadControl
use eebus_go.Features.DeviceConfiguration
use eebus_go.UseCase.Remote.{
  RemoteFeature, RemoteEntity, DeviceView, LocalFeature, EventPayload, is_device_change,
  is_binding_change, is_data_change, is_add, is_update,
}
use eebus_go.UseCase.Base.{UseCaseBase, is_compatible_entity_type}
use eebus_go.Internal.LocalEntity.{new_feature}
use eebus_go.Cs.State.{
  Variant, EventName, data_update_limit, data_update_failsafe_limit,
  data_update_failsafe_duration_minimum, data_update_heartbeat, Effect, data_event, subscribe,
  request_heartbeat, Limitation,
}
use eebus_go.Cs.Limit.{limit_filter}

unfoldable pub is_device_connected : EventPayload → Bool
is_device_connected payload =
    is_some payload.device && is_device_change payload.event_type && is_add payload.change_type

abbrev pub is_heartbeat_data : PayloadData → Bool
is_heartbeat_data heartbeat = true
is_heartbeat_data _ = false

unfoldable pub is_heartbeat : EventPayload → Bool
is_heartbeat payload =
    is_heartbeat_data payload.content
    && payload.function == device_diagnosis_heartbeat_data
    && is_data_change payload.event_type
    && is_update payload.change_type
    && holds payload.cmd_classifier notify_classifier

-- The client side of DeviceDiagnosis: whether the local entity has the client feature, and
-- spine-go's `HasSubscriptionToRemote`.
pub record DiagnosisClient : Type 0 where
  pub has_client : Bool
  pub has_subscription : RemoteEntity → Bool

-- `FeatureOfTypeAndRole(DeviceDiagnosis, server)` is not nil
abbrev pub has_diagnosis : RemoteEntity → Bool
has_diagnosis entity =
    any (λ (f : RemoteFeature). f.feature_type == device_diagnosis && f.role == server_role)
      entity.features

-- The part that deviceConnected and subscribeHeartbeatWorkaround share: client.NewDeviceDiagnosis,
-- with its NewFeature, and what follows its success.
unfoldable pub use_diagnosis :
    DiagnosisClient → Limitation → Option RemoteEntity → Limitation × List Effect
use_diagnosis c e none = (e, [])
use_diagnosis c e (some entity) =
    if c.has_client && has_diagnosis entity
    then (
      record e { heartbeat_diag = some entity },
      (if c.has_subscription entity then [] else subscribe entity ∷ [])
          ++ request_heartbeat entity ∷ [],
    )
    else (e, [])

-- The loop over the entities of the device.
unfoldable pub device_diag_entities : UseCaseBase → List RemoteEntity → List RemoteEntity
device_diag_entities u [] = []
device_diag_entities u (entity ∷ entities) =
    let rest = device_diag_entities u entities in
    if not (is_compatible_entity_type u (some entity))
    then rest
    else if has_diagnosis entity
    then entity ∷ rest
    else rest

unfoldable pub device_connected :
    UseCaseBase → DiagnosisClient → Limitation → EventPayload → Limitation × List Effect
unfolding device_diag_entities use_diagnosis
device_connected u c e payload = elim payload.device [
  | none ↦ (e, [])
  | some view ↦ elim (device_diag_entities u view.entities) [
    | [] ↦ (e, [])
    | x ∷ xs ↦ elim xs [
      | [] ↦ use_diagnosis c e (some x)
      | y ∷ ys ↦ (record e { heartbeat_keo_workaround = true }, [])
    ]
  ]
]

unfoldable pub subscribe_heartbeat_workaround :
    DiagnosisClient → Limitation → EventPayload → Limitation × List Effect
unfolding use_diagnosis
subscribe_heartbeat_workaround c e payload =
    if e.heartbeat_keo_workaround then use_diagnosis c e payload.entity else (e, [])

-- `if … && e.EventCB != nil { e.EventCB(payload.Ski, payload.Device, payload.Entity, name) }`
abbrev pub report : Limitation → Bool → EventName → EventPayload → List Effect
report e test name payload = if test && e.event_cb then data_event name payload ∷ [] else []

unfoldable pub load_control_limit_data_update : Variant → Limitation → EventPayload → List Effect
load_control_limit_data_update v e payload = elim (new_feature e.entity.load_control) [
  | ok lc ↦
      report e
        (LoadControl.check_event_payload_data_for_filter (new_local lc) payload.content
          (limit_filter v))
        data_update_limit payload
  | _ ↦ []
]

unfoldable pub configuration_data_update : Variant → Limitation → EventPayload → List Effect
configuration_data_update v e payload = elim (new_feature e.entity.device_configuration) [
  | ok dc ↦
      report e
        (DeviceConfiguration.check_event_payload_data_for_filter (new_local dc) payload.content
          (DeviceConfiguration.key_filter none (some v.failsafe_key)))
        data_update_failsafe_limit payload
      ++ report e
          (DeviceConfiguration.check_event_payload_data_for_filter (new_local dc) payload.content
            (DeviceConfiguration.key_filter none (some failsafe_duration_minimum)))
          data_update_failsafe_duration_minimum payload
  | _ ↦ []
]

-- `payload.LocalFeature == serverF`, where `serverF` is the server feature of a type, or nil.
abbrev pub is_server_feature : Option LocalFeature → Name → Bool → Bool
is_server_feature none type present = not present
is_server_feature (some f) type present =
    present && f.of_entity && f.feature_type == type && f.role == server_role

-- The switch over the type of the data.
unfoldable pub handle_write : Variant → Limitation → EventPayload → PayloadData → List Effect
unfolding load_control_limit_data_update configuration_data_update
handle_write v e payload (load_control_limits _) =
    if payload.function == load_control_limit_list_data
      && is_server_feature payload.local_feature load_control (is_some e.entity.load_control)
    then load_control_limit_data_update v e payload
    else []
handle_write v e payload (key_values _) =
    if payload.function == device_configuration_key_value_list_data
      && is_server_feature payload.local_feature device_configuration
          (is_some e.entity.device_configuration)
    then configuration_data_update v e payload
    else []
handle_write v e payload _ = []

-- A binding to a LoadControl server is added.
abbrev pub is_load_control_binding : EventPayload → Bool
is_load_control_binding payload =
    is_binding_change payload.event_type
    && is_add payload.change_type
    && elim payload.local_feature [
      | none ↦ false
      | some f ↦ f.feature_type == load_control && f.role == server_role
    ]

-- `payload` is an update that a write of the remote made.
abbrev pub is_write : EventPayload → Bool
is_write payload =
    is_data_change payload.event_type
    && is_update payload.change_type
    && holds payload.cmd_classifier write_classifier

unfoldable pub handle_event :
    Variant → UseCaseBase → DiagnosisClient → Limitation → EventPayload → Limitation × List Effect
unfolding is_device_connected device_connected subscribe_heartbeat_workaround is_heartbeat
    handle_write
handle_event v u c e payload =
    if is_device_connected payload
    then device_connected u c e payload
    else if not (is_compatible_entity_type u payload.entity)
    then (e, [])
    else if is_load_control_binding payload
    then subscribe_heartbeat_workaround c e payload
    else if is_heartbeat payload && e.event_cb
    then (e, data_event data_update_heartbeat payload ∷ [])
    else if is_write payload
    then (e, handle_write v e payload payload.content)
    else (e, [])
