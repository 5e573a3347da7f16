-- ===== src/Cs/Lpc.antt =====
-- usecases/cs/lpc: LPC is the limitation of power consumption. Each operation is that of the
-- controllable system, under the names of lpc.
use eebus_go.Prelude.{ℕ, String, Bool, false, Option, List, [], ◌∷◌}
use eebus_go.Prelude.Int.{ℤ}
use eebus_go.Prelude.Assoc.{Assoc}
use eebus_go.Spine.{
  Name, TimePeriod, LimitData, KeyValueData, Characteristic, Message, consume, device_diagnosis,
  energy_guard, grid_guard, cem, limitation_of_power_consumption,
  failsafe_consumption_active_power_limit, power_consumption_nominal_max,
  contractual_consumption_nominal_max,
}
use eebus_go.Errors.{Result}
use eebus_go.Features.LoadControl.{LoadControlFeature}
use eebus_go.Features.Server.{UpdateData}
use eebus_go.UseCase.Remote.{EventPayload}
use eebus_go.UseCase.Base.{UseCaseScenario, UseCaseBase}
use eebus_go.Internal.LocalEntity.{LocalEntity}
use eebus_go.Internal.Configuration.{PendingDeviceConfiguration}
use eebus_go.Cs.State.{Variant, Effect, Limitation, LoadLimit}
use eebus_go.Cs.Limit.{load_control_server_and_limit_id, current_limit, set_limit}
use eebus_go.Cs.Approval.{load_control_write_cb, approve_or_deny_limit, pending_limits}
use eebus_go.Cs.ConfigurationApproval.{
  device_configuration_write_cb, pending_device_configurations,
  approve_or_deny_device_configuration,
}
use eebus_go.Cs.Failsafe.{
  failsafe_limit, set_failsafe_limit, get_failsafe_duration_minimum, set_failsafe_duration_minimum,
}
use eebus_go.Cs.NominalMax.{characteristic_type, get_nominal_max, set_nominal_max}
use eebus_go.Cs.Events.{DiagnosisClient, handle_event}
use eebus_go.Cs.AddFeatures.{SpineLocal, add_features}

abbrev pub lpc_variant : Variant
lpc_variant = record {
  direction = consume;
  failsafe_key = failsafe_consumption_active_power_limit;
  nominal_max = power_consumption_nominal_max;
  contractual_nominal_max = contractual_consumption_nominal_max;
}

abbrev pub lpc_scenario : ℕ → List Name → UseCaseScenario
lpc_scenario number features = record { scenario = number; server_features = features }

-- NewLPC: `event_cb` says whether a callback is given.
abbrev pub new_lpc : Bool → UseCaseBase
new_lpc event_cb = record {
  use_case_name = limitation_of_power_consumption;
  use_case_scenarios =
      lpc_scenario 1 []
      ∷ lpc_scenario 2 []
      ∷ lpc_scenario 3 (device_diagnosis ∷ [])
      ∷ lpc_scenario 4 []
      ∷ [];
  event_cb = event_cb;
  available_entity_scenarios = [];
  valid_actor_types = energy_guard ∷ [];
  valid_entity_types = grid_guard ∷ cem ∷ [];
  all_entity_types_valid = false;
}

abbrev pub lpc_load_control_server_and_limit_id : LocalEntity → Result (LoadControlFeature × ℕ)
lpc_load_control_server_and_limit_id = load_control_server_and_limit_id lpc_variant

abbrev pub consumption_limit : LocalEntity → Result LoadLimit
consumption_limit = current_limit lpc_variant

abbrev pub set_consumption_limit :
    (ℤ → ℤ)
    → (ℤ → TimePeriod)
    → UpdateData LimitData
    → LocalEntity
    → LoadLimit
    → LocalEntity × Result (Unit {0})
set_consumption_limit = set_limit lpc_variant

abbrev pub pending_consumption_limits : Limitation → Assoc LoadLimit
pending_consumption_limits = pending_limits lpc_variant

abbrev pub approve_or_deny_consumption_limit :
    Limitation → ℕ → Bool → String → Limitation × List Effect
approve_or_deny_consumption_limit = approve_or_deny_limit

abbrev pub lpc_load_control_write_cb : Limitation → Message → Limitation × List Effect
lpc_load_control_write_cb = load_control_write_cb lpc_variant

abbrev pub lpc_device_configuration_write_cb : Limitation → Message → Limitation × List Effect
lpc_device_configuration_write_cb = device_configuration_write_cb lpc_variant

abbrev pub lpc_pending_device_configurations : Limitation → Assoc (List PendingDeviceConfiguration)
lpc_pending_device_configurations = pending_device_configurations

abbrev pub lpc_approve_or_deny_device_configuration :
    Limitation → ℕ → Bool → String → Limitation × List Effect
lpc_approve_or_deny_device_configuration = approve_or_deny_device_configuration

abbrev pub failsafe_consumption_active_power_limit_of : LocalEntity → Result (ℤ × Bool)
failsafe_consumption_active_power_limit_of = failsafe_limit lpc_variant

abbrev pub set_failsafe_consumption_active_power_limit :
    (ℤ → ℤ) → UpdateData KeyValueData → LocalEntity → ℤ → Bool → LocalEntity × Result (Unit {0})
set_failsafe_consumption_active_power_limit = set_failsafe_limit lpc_variant

abbrev pub lpc_failsafe_duration_minimum : LocalEntity → Result (ℤ × Bool)
lpc_failsafe_duration_minimum = get_failsafe_duration_minimum

abbrev pub lpc_characteristic_type : LocalEntity → Name
lpc_characteristic_type = characteristic_type lpc_variant

abbrev pub consumption_nominal_max : LocalEntity → Result ℤ
consumption_nominal_max = get_nominal_max lpc_variant

abbrev pub set_consumption_nominal_max :
    (ℤ → ℤ) → UpdateData Characteristic → LocalEntity → ℤ → LocalEntity × Result (Unit {0})
set_consumption_nominal_max = set_nominal_max lpc_variant

abbrev pub lpc_handle_event :
    UseCaseBase → DiagnosisClient → Limitation → EventPayload → Limitation × List Effect
lpc_handle_event = handle_event lpc_variant

abbrev pub lpc_set_failsafe_duration_minimum :
    (ℤ → Option ℤ)
    → UpdateData KeyValueData
    → LocalEntity
    → ℤ
    → Bool
    → LocalEntity × Result (Unit {0})
lpc_set_failsafe_duration_minimum = set_failsafe_duration_minimum

abbrev pub lpc_add_features : SpineLocal → LocalEntity → LocalEntity × Result (Unit {0})
lpc_add_features = add_features lpc_variant
