-- ===== src/Cs/ConfigurationApproval.antt =====
-- Incoming device configuration writes: deviceConfigurationWriteCB, PendingDeviceConfigurations
-- and ApproveOrDenyDeviceConfiguration of usecases/cs/lpc and lpp.
pub mod Steps
use eebus_go.Prelude.{
  ℕ, String, ◌==◌, if◌then◌else◌, Bool, true, false, Option, none, some, List, [], ◌∷◌,
}
use eebus_go.Prelude.Assoc.{Assoc, lookup, insert, erase}
use eebus_go.Spine.{Name, Message, failsafe_duration_minimum}
use eebus_go.Errors.{Result, ok, err, panic}
use eebus_go.Internal.Configuration.{
  counter_of, configuration_write_requires_approval, PendingDeviceConfiguration,
  group_pending_device_configurations,
}
use eebus_go.Cs.State.{
  Variant, Effect, answer_configuration, Limitation, call_event_cb,
  configuration_write_approval_required,
}
use eebus_go.Cs.Approval.{answer_of, is_pending}

-- approveOrDenyDeviceConfiguration
unfoldable pub answer_configuration_write : Message → Bool → String → Effect
answer_configuration_write msg approve reason =
    let r = answer_of approve reason in answer_configuration msg r.0 r.1

abbrev pub configs_to_approve : Variant → List Name
configs_to_approve v = v.failsafe_key ∷ failsafe_duration_minimum ∷ []

unfoldable pub device_configuration_write_cb :
    Variant → Limitation → Message → Limitation × List Effect
unfolding answer_configuration_write
device_configuration_write_cb v e msg =
    elim (configuration_write_requires_approval msg e.entity (configs_to_approve v)) [
      | ok true ↦ elim (counter_of msg) [
        | none ↦ (e, [])
        | some counter ↦ if is_pending e.pending_device_configs counter then (e, []) else (
          record e { pending_device_configs = insert counter msg e.pending_device_configs },
          call_event_cb e configuration_write_approval_required msg ∷ [],
        )
      ]
      | ok false ↦ (e, answer_configuration_write msg true "" ∷ [])
      | _ ↦ (e, [])
    ]

unfoldable pub pending_device_configurations : Limitation → Assoc (List PendingDeviceConfiguration)
pending_device_configurations e =
    group_pending_device_configurations e.pending_device_configs e.entity

unfoldable pub approve_or_deny_device_configuration :
    Limitation → ℕ → Bool → String → Limitation × List Effect
unfolding answer_configuration_write
approve_or_deny_device_configuration e msg_counter approve reason =
    elim (lookup msg_counter e.pending_device_configs) [
      | none ↦ (e, [])
      | some msg ↦ (
        record e { pending_device_configs = erase msg_counter e.pending_device_configs },
        answer_configuration_write msg approve reason ∷ [],
      )
    ]
