-- ===== src/Cem/Opev.antt =====
-- usecases/cem/opev: overload protection by the curtailment of the charging current of an EV.
use eebus_go.Prelude.{Bool, Option, List, [], map}
use eebus_go.Prelude.Int.{ℤ}
use eebus_go.Spine.{
  Name, PayloadData, limit_description_data, load_control_limits, permitted_value_sets, obligation,
  overload_protection, overload_protection_by_ev_charging_current_curtailment,
}
use eebus_go.Errors.{Result}
use eebus_go.Features.ElectricalConnection.PhaseLimits.{CurrentLimits}
use eebus_go.Features.Client.{LimitCommand}
use eebus_go.UseCase.Remote.{RemoteEntity, EventPayload}
use eebus_go.UseCase.Base.{UseCaseBase}
use eebus_go.UseCase.Limits.{LoadLimitsPhase}
use eebus_go.Internal.Clients.{Remote, ClientEffect, call, handle_client_event}
use eebus_go.Cem.Charging.{
  ChargingVariant, ChargingEvent, new_charging, charging_add_features, current_limits,
  charging_limits, write_charging_limits, ev_connected, ev_limit_description_data_update,
  ev_limit_data_update, ev_permitted_values_update,
}

abbrev pub opev_variant : ChargingVariant
opev_variant = record {
  use_case = overload_protection_by_ev_charging_current_curtailment;
  category = obligation;
  scope = overload_protection;
}

abbrev pub new_opev : Bool → UseCaseBase
new_opev = new_charging opev_variant

abbrev pub opev_add_features : (Name → Name → Bool) → Result (Unit {0})
opev_add_features = charging_add_features

abbrev pub opev_current_limits :
    UseCaseBase → (RemoteEntity → Remote) → Option RemoteEntity → Result CurrentLimits
opev_current_limits = current_limits opev_variant

abbrev pub opev_load_control_limits :
    UseCaseBase → (RemoteEntity → Remote) → Option RemoteEntity → Result (List LoadLimitsPhase)
opev_load_control_limits = charging_limits opev_variant

abbrev pub opev_write_load_control_limits :
    (ℤ → ℤ)
    → UseCaseBase
    → (RemoteEntity → Remote)
    → Option RemoteEntity
    → List LoadLimitsPhase
    → Result LimitCommand
opev_write_load_control_limits = write_charging_limits opev_variant

abbrev pub opev_limit_data_update :
    UseCaseBase → Remote → EventPayload → List (ClientEffect ChargingEvent)
opev_limit_data_update = ev_limit_data_update opev_variant

abbrev pub opev_permitted_values_update :
    UseCaseBase → Remote → EventPayload → List (ClientEffect ChargingEvent)
opev_permitted_values_update = ev_permitted_values_update

-- The switch over the type of the data.
unfoldable pub opev_handle_data :
    UseCaseBase → Remote → EventPayload → PayloadData → List (ClientEffect ChargingEvent)
unfolding ev_limit_data_update ev_permitted_values_update
opev_handle_data u r payload (permitted_value_sets _) = opev_permitted_values_update u r payload
opev_handle_data u r payload limit_description_data = map call (ev_limit_description_data_update r)
opev_handle_data u r payload (load_control_limits _) = opev_limit_data_update u r payload
opev_handle_data u r payload _ = []

-- HandleEvent
unfoldable pub opev_handle_event :
    UseCaseBase → (RemoteEntity → Remote) → EventPayload → List (ClientEffect ChargingEvent)
unfolding opev_handle_data
opev_handle_event u remotes payload =
    handle_client_event u remotes ev_connected (λ r p. opev_handle_data u r p p.content) payload
