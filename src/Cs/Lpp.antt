-- ===== src/Cs/Lpp.antt =====
-- usecases/cs/lpp: LPP is the limitation of power production. Each operation is that of the
-- controllable system, under the names of lpp.
use eebus_go.Prelude.{ℕ, String, Bool, false, Option, List, [], ◌∷◌}
use eebus_go.Prelude.Int.{ℤ}
use eebus_go.Prelude.Assoc.{Assoc}
use eebus_go.Spine.{
  Name, TimePeriod, LimitData, KeyValueData, Characteristic, Message, produce, device_diagnosis,
  energy_guard, grid_guard, cem, limitation_of_power_production,
  failsafe_production_active_power_limit, power_production_nominal_max,
  contractual_production_nominal_max,
}
use eebus_go.Errors.{Result}
use eebus_go.Features.LoadControl.{LoadControlFeature}
use eebus_go.Features.Server.{UpdateData}
use eebus_go.UseCase.Remote.{EventPayload}
use eebus_go.UseCase.Base.{UseCaseScenario, UseCaseBase}
use eebus_go.Internal.LocalEntity.{LocalEntity}
use eebus_go.Internal.Configuration.{PendingDeviceConfiguration}
use eebus_go.Cs.State.{Variant, Effect, Limitation, LoadLimit}
use eebus_go.Cs.Limit.{load_control_server_and_limit_id, current_limit, set_limit}
use eebus_go.Cs.Approval.{load_control_write_cb, approve_or_deny_limit, pending_limits}
use eebus_go.Cs.ConfigurationApproval.{
  device_configuration_write_cb, pending_device_configurations,
  approve_or_deny_device_configuration,
}
use eebus_go.Cs.Failsafe.{
  failsafe_limit, set_failsafe_limit, get_failsafe_duration_minimum, set_failsafe_duration_minimum,
}
use eebus_go.Cs.NominalMax.{characteristic_type, get_nominal_max, set_nominal_max}
use eebus_go.Cs.Events.{DiagnosisClient, handle_event}
use eebus_go.Cs.AddFeatures.{SpineLocal, add_features}

abbrev pub lpp_variant : Variant
lpp_variant = record {
  direction = produce;
  failsafe_key = failsafe_production_active_power_limit;
  nominal_max = power_production_nominal_max;
  contractual_nominal_max = contractual_production_nominal_max;
}

abbrev pub lpp_scenario : ℕ → List Name → UseCaseScenario
lpp_scenario number features = record { scenario = number; server_features = features }

-- NewLPP: `event_cb` says whether a callback is given.
abbrev pub new_lpp : Bool → UseCaseBase
new_lpp event_cb = record {
  use_case_name = limitation_of_power_production;
  use_case_scenarios =
      lpp_scenario 1 []
      ∷ lpp_scenario 2 []
      ∷ lpp_scenario 3 (device_diagnosis ∷ [])
      ∷ lpp_scenario 4 []
      ∷ [];
  event_cb = event_cb;
  available_entity_scenarios = [];
  valid_actor_types = energy_guard ∷ [];
  valid_entity_types = grid_guard ∷ cem ∷ [];
  all_entity_types_valid = false;
}

abbrev pub lpp_load_control_server_and_limit_id : LocalEntity → Result (LoadControlFeature × ℕ)
lpp_load_control_server_and_limit_id = load_control_server_and_limit_id lpp_variant

abbrev pub production_limit : LocalEntity → Result LoadLimit
production_limit = current_limit lpp_variant

abbrev pub set_production_limit :
    (ℤ → ℤ)
    → (ℤ → TimePeriod)
    → UpdateData LimitData
    → LocalEntity
    → LoadLimit
    → LocalEntity × Result (Unit {0})
set_production_limit = set_limit lpp_variant

abbrev pub pending_production_limits : Limitation → Assoc LoadLimit
pending_production_limits = pending_limits lpp_variant

abbrev pub approve_or_deny_production_limit :
    Limitation → ℕ → Bool → String → Limitation × List Effect
approve_or_deny_production_limit = approve_or_deny_limit

abbrev pub lpp_load_control_write_cb : Limitation → Message → Limitation × List Effect
lpp_load_control_write_cb = load_control_write_cb lpp_variant

abbrev pub lpp_device_configuration_write_cb : Limitation → Message → Limitation × List Effect
lpp_device_configuration_write_cb = device_configuration_write_cb lpp_variant

abbrev pub lpp_pending_device_configurations : Limitation → Assoc (List PendingDeviceConfiguration)
lpp_pending_device_configurations = pending_device_configurations

abbrev pub lpp_approve_or_deny_device_configuration :
    Limitation → ℕ → Bool → String → Limitation × List Effect
lpp_approve_or_deny_device_configuration = approve_or_deny_device_configuration

abbrev pub failsafe_production_active_power_limit_of : LocalEntity → Result (ℤ × Bool)
failsafe_production_active_power_limit_of = failsafe_limit lpp_variant

abbrev pub set_failsafe_production_active_power_limit :
    (ℤ → ℤ) → UpdateData KeyValueData → LocalEntity → ℤ → Bool → LocalEntity × Result (Unit {0})
set_failsafe_production_active_power_limit = set_failsafe_limit lpp_variant

abbrev pub lpp_failsafe_duration_minimum : LocalEntity → Result (ℤ × Bool)
lpp_failsafe_duration_minimum = get_failsafe_duration_minimum

abbrev pub lpp_characteristic_type : LocalEntity → Name
lpp_characteristic_type = characteristic_type lpp_variant

abbrev pub production_nominal_max : LocalEntity → Result ℤ
production_nominal_max = get_nominal_max lpp_variant

abbrev pub set_production_nominal_max :
    (ℤ → ℤ) → UpdateData Characteristic → LocalEntity → ℤ → LocalEntity × Result (Unit {0})
set_production_nominal_max = set_nominal_max lpp_variant

abbrev pub lpp_handle_event :
    UseCaseBase → DiagnosisClient → Limitation → EventPayload → Limitation × List Effect
lpp_handle_event = handle_event lpp_variant

abbrev pub lpp_set_failsafe_duration_minimum :
    (ℤ → Option ℤ)
    → UpdateData KeyValueData
    → LocalEntity
    → ℤ
    → Bool
    → LocalEntity × Result (Unit {0})
lpp_set_failsafe_duration_minimum = set_failsafe_duration_minimum

abbrev pub lpp_add_features : SpineLocal → LocalEntity → LocalEntity × Result (Unit {0})
lpp_add_features = add_features lpp_variant
