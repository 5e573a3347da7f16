-- ===== src/Cem/Oscev.antt =====
-- usecases/cem/oscev: optimization of self consumption during the charging of an EV.
-- The entities that are added are connected by opev.
use eebus_go.Prelude.{if◌then◌else◌, not, Bool, Option, some, none, List, []}
use eebus_go.Prelude.Int.{ℤ}
use eebus_go.Spine.{
  Name, PayloadData, load_control_limits, permitted_value_sets, recommendation, self_consumption,
  optimization_of_self_consumption_during_ev_charging,
}
use eebus_go.Errors.{Result}
use eebus_go.Features.ElectricalConnection.PhaseLimits.{CurrentLimits}
use eebus_go.Features.Client.{LimitCommand}
use eebus_go.UseCase.Remote.{RemoteEntity, EventPayload, is_data_update}
use eebus_go.UseCase.Base.{UseCaseBase, is_compatible_entity_type}
use eebus_go.UseCase.Limits.{LoadLimitsPhase}
use eebus_go.Internal.Clients.{Remote, ClientEffect}
use eebus_go.Cem.Charging.{
  ChargingVariant, ChargingEvent, new_charging, charging_add_features, current_limits,
  charging_limits, write_charging_limits, ev_limit_data_update, ev_permitted_values_update,
}

abbrev pub oscev_variant : ChargingVariant
oscev_variant = record {
  use_case = optimization_of_self_consumption_during_ev_charging;
  category = recommendation;
  scope = self_consumption;
}

abbrev pub new_oscev : Bool → UseCaseBase
new_oscev = new_charging oscev_variant

abbrev pub oscev_add_features : (Name → Name → Bool) → Result (Unit {0})
oscev_add_features = charging_add_features

abbrev pub oscev_current_limits :
    UseCaseBase → (RemoteEntity → Remote) → Option RemoteEntity → Result CurrentLimits
oscev_current_limits = current_limits oscev_variant

abbrev pub oscev_load_control_limits :
    UseCaseBase → (RemoteEntity → Remote) → Option RemoteEntity → Result (List LoadLimitsPhase)
oscev_load_control_limits = charging_limits oscev_variant

abbrev pub oscev_write_load_control_limits :
    (ℤ → ℤ)
    → UseCaseBase
    → (RemoteEntity → Remote)
    → Option RemoteEntity
    → List LoadLimitsPhase
    → Result LimitCommand
oscev_write_load_control_limits = write_charging_limits oscev_variant

abbrev pub oscev_limit_data_update :
    UseCaseBase → Remote → EventPayload → List (ClientEffect ChargingEvent)
oscev_limit_data_update = ev_limit_data_update oscev_variant

abbrev pub oscev_permitted_values_update :
    UseCaseBase → Remote → EventPayload → List (ClientEffect ChargingEvent)
oscev_permitted_values_update = ev_permitted_values_update

-- The switch over the type of the data.
unfoldable pub oscev_handle_data :
    UseCaseBase → Remote → EventPayload → PayloadData → List (ClientEffect ChargingEvent)
unfolding ev_limit_data_update ev_permitted_values_update
oscev_handle_data u r payload (permitted_value_sets _) = oscev_permitted_values_update u r payload
oscev_handle_data u r payload (load_control_limits _) = oscev_limit_data_update u r payload
oscev_handle_data u r payload _ = []

-- HandleEvent
unfoldable pub oscev_handle_event :
    UseCaseBase → (RemoteEntity → Remote) → EventPayload → List (ClientEffect ChargingEvent)
unfolding oscev_handle_data
oscev_handle_event u remotes payload = elim payload.entity [
  | none ↦ []
  | some entity ↦
      if not (is_compatible_entity_type u (some entity))
      then []
      else if is_data_update payload
      then oscev_handle_data u (remotes entity) payload payload.content
      else []
]
