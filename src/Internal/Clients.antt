-- ===== src/Internal/Clients.antt =====
-- What the use cases of a client see of a remote entity, and what their handlers of events do. The
-- use cases keep no state of their own: a handler makes calls of the client features and reports
-- events to the application.
use eebus_go.Prelude.{
  ℕ, if◌then◌else◌, not, ◌&&◌, map, List, [], ◌∷◌, ◌+◌, leb, Bool, false, Option, none, some,
}
use eebus_go.Spine.{Name}
use eebus_go.Errors.{Error, Result, err, no_compatible_entity}
use eebus_go.Features.Measurement.{MeasurementFeature}
use eebus_go.Features.DeviceConfiguration.{DeviceConfigurationFeature}
use eebus_go.Features.Requests.{Call, ClientFeature}
use eebus_go.Features.Client.{RemoteKeyValues}
use eebus_go.UseCase.Remote.{RemoteEntity, EventPayload, is_data_update}
use eebus_go.UseCase.Base.{UseCaseBase, is_compatible_entity_type}
use eebus_go.UseCase.Events.{is_entity_added}
use eebus_go.Internal.LoadControl.{RemoteData}

-- DeviceDiagnosisHeartbeatDataType, with `Timestamp`, and the result of its `GetTime`
pub record HeartbeatData : Type 0 where
  pub timestamp : Option (Option ℕ)

-- A feature is there if `client.New…` succeeds for the entity. `device_diagnosis` has the copy of the
-- heartbeat data, if there is such a copy. `missing_error` is the error
-- with which `client.New…` fails where it does, and `client` the helper of a feature type that is
-- made where it does not.
pub record Remote : Type 0 where
  pub remote_data : RemoteData
  pub device_configuration : Option DeviceConfigurationFeature
  pub measurement : Option MeasurementFeature
  pub key_values : RemoteKeyValues
  pub device_diagnosis : Option (Option HeartbeatData)
  pub missing_error : Error
  pub client : Name → ClientFeature

-- `if !e.IsCompatibleEntityType(entity) { return …, api.ErrNoCompatibleEntity }`
abbrev pub with_compatible :
    {R A : Type 0}
    → UseCaseBase
    → (RemoteEntity → R)
    → Option RemoteEntity
    → (RemoteEntity → R → Result A)
    → Result A
with_compatible u remotes none f = err no_compatible_entity
with_compatible u remotes (some entity) f =
    if is_compatible_entity_type u (some entity)
    then f entity (remotes entity)
    else err no_compatible_entity

-- IsHeartbeatWithinDuration of features/internal/devicediagnosis.go, at the time `now`: times and
-- durations are nanoseconds, and `now - duration ≤ time` is written without subtraction.
unfoldable pub is_heartbeat_within_duration : Option HeartbeatData → ℕ → ℕ → Bool
is_heartbeat_within_duration none now duration = false
is_heartbeat_within_duration (some content) now duration = elim content.timestamp [
  | none ↦ false
  | some timestamp ↦ elim timestamp [ none ↦ false | some time ↦ leb now (time + duration) ]
]

-- `call` is a call of a client feature, `report` one of `EventCB` with the ski, the device and the
-- entity of a payload; `E` are the events of a use case.
pub data ClientEffect (E : Type 0) : Type 0 where
  call : Call → ClientEffect E
  report : E → EventPayload → ClientEffect E

-- `if test && e.EventCB != nil { e.EventCB(…) }`
abbrev pub report_if : {E : Type 0} → UseCaseBase → Bool → E → EventPayload → List (ClientEffect E)
report_if u test name payload = if test && u.event_cb then report name payload ∷ [] else []

-- What a feature that is there is asked; nothing where it is not.
abbrev pub where_present : {S : Type 0} → Option S → List Call → List Call
where_present none calls = []
where_present (some s) calls = calls

-- The part that the handlers of client use cases share: an entity that is added is connected, an
-- update of data is handled by the type of its data.
unfoldable pub handle_client_event :
    {E : Type 0}
    → UseCaseBase
    → (RemoteEntity → Remote)
    → (RemoteEntity → Remote → List Call)
    → (Remote → EventPayload → List (ClientEffect E))
    → EventPayload
    → List (ClientEffect E)
unfolding is_entity_added
handle_client_event u remotes connect handle payload = elim payload.entity [
  | none ↦ []
  | some entity ↦
      if not (is_compatible_entity_type u (some entity))
      then []
      else if is_entity_added payload
      then map call (connect entity (remotes entity))
      else if is_data_update payload
      then handle (remotes entity) payload
      else []
]
