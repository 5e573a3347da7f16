-- ===== src/Cs/State.antt =====
-- The state of a limitation use case and what its operations do to the outside. (usecases/cs/lpc
-- and lpp, usecase.go)
use eebus_go.Prelude.{ℕ, String, Bool, if◌then◌else◌, Option}
use eebus_go.Prelude.Assoc.{Assoc}
use eebus_go.Spine.{Name, Message}
use eebus_go.UseCase.Remote.{RemoteEntity, EventPayload}
pub use eebus_go.UseCase.Limits.{LoadLimit}
use eebus_go.Internal.LocalEntity.{LocalEntity}

-- What differs between lpc and lpp.
pub record Variant : Type 0 where
  pub direction : Name
  pub failsafe_key : Name
  pub nominal_max : Name
  pub contractual_nominal_max : Name

-- The events of types.go.
pub data EventName : Type 0 where
  data_update_limit limit_write_approval_required configuration_write_approval_required : EventName
  data_update_failsafe_limit data_update_failsafe_duration_minimum data_update_heartbeat : EventName

-- What an operation does to the outside, in order. A call that the code starts as a goroutine
-- stands where it is started.
pub data Effect : Type 0 where
  -- `EventCB` with a device and an entity
  event : EventName → ℕ → ℕ → Effect
  -- `EventCB` with the ski, the device and the entity of a payload
  data_event : EventName → EventPayload → Effect
  -- a call of `EventCB` where none is set
  nil_callback : Effect
  -- `ApproveOrDenyWrite` of the load control or the device configuration feature
  answer_limit : Message → ℕ → Option String → Effect
  answer_configuration : Message → ℕ → Option String → Effect
  -- to the DeviceDiagnosis server of an entity
  subscribe : RemoteEntity → Effect
  request_heartbeat : RemoteEntity → Effect

-- LPC and LPP: `event_cb` says whether a callback is set, `heartbeat_diag` is the entity whose
-- DeviceDiagnosis server is used.
pub record Limitation : Type 0 where
  pub entity : LocalEntity
  pub event_cb : Bool
  pub pending_limits : Assoc Message
  pub pending_device_configs : Assoc Message
  pub heartbeat_diag : Option RemoteEntity
  pub heartbeat_keo_workaround : Bool

-- `e.EventCB(…)`, with no test for nil
abbrev pub call_event_cb : Limitation → EventName → Message → Effect
call_event_cb e name msg =
    if e.event_cb then event name msg.device_remote msg.entity_remote else nil_callback
