-- ===== src/Examples/Charging.antt =====
-- Overload protection at an EV.
use eebus_go.Prelude.{ℕ, All, Any, ◌≡◌, refl, true, none, some, List, [], ◌∷◌}
use eebus_go.Prelude.Int.{pos}
use eebus_go.Spine.{
  LimitDescription, LimitData, max_value_limit, obligation, recommendation, ampere,
  overload_protection, self_consumption, phase_a, ev_entity,
}
use eebus_go.Errors.{ok}
use eebus_go.Features.Filter.{listed, search_filter_in_list, feature_data_copy_of_type}
use eebus_go.Features.LoadControl.{
  LoadControlFeature, empty_limit_description, get_limit_descriptions_for_filter,
  get_limit_data_for_filter, get_limit_data_for_id,
}
use eebus_go.Features.ElectricalConnection.{
  get_parameter_descriptions_for_filter, get_permitted_value_set_for_filter,
}
use eebus_go.Features.ElectricalConnection.Adjust.{
  adjust_value_to_be_within_permitted_values_for_parameter_id,
}
use eebus_go.Features.Client.{LimitCommand, write_limit_data}
use eebus_go.UseCase.Remote.{RemoteEntity}
use eebus_go.UseCase.Base.{is_compatible_entity_type}
use eebus_go.UseCase.Limits.{LoadLimitsPhase}
use eebus_go.Internal.LoadControl.{
  match_descriptions, phase_write, phase_writes, write_load_control_phase_limits,
}
use eebus_go.Internal.Clients.{Remote}
use eebus_go.Cem.Charging.{write_charging_limits}
use eebus_go.Cem.Charging.Writing.{IsOfUseCase, write_charging_limits_lem}
use eebus_go.Cem.Opev.{opev_variant, new_opev}
use eebus_go.Examples.Data.{stored_limit, same_number}
use eebus_go.Examples.RemoteData.{remote_connection}
use eebus_go.Examples.GuardData.{remotes}

abbrev protection : LimitDescription
protection = record empty_limit_description {
  limit_id = some 3;
  limit_type = some max_value_limit;
  limit_category = some obligation;
  measurement_id = some 50;
  unit = some ampere;
  scope_type = some overload_protection;
}

-- The EV also describes a limit of self consumption.
abbrev ev_descriptions : List LimitDescription
ev_descriptions =
    record protection {
      limit_id = some 4;
      limit_category = some recommendation;
      scope_type = some self_consumption;
    }
    ∷ protection
    ∷ []

abbrev ev_limits : LoadControlFeature
ev_limits = record {
  limit_descriptions = listed ev_descriptions;
  limits = listed (stored_limit 3 16 ∷ stored_limit 4 16 ∷ []);
}

abbrev vehicle : RemoteEntity
vehicle = record {
  address = some (record { device = some 70; entity = 1 ∷ 1 ∷ [] });
  entity_type = ev_entity;
  device = record { ski = 5; address = some 70 };
  features = [];
}

abbrev ev_remotes : RemoteEntity → Remote
ev_remotes e = record (remotes e) {
  remote_data = record {
    load_control = some ev_limits;
    electrical_connection = some remote_connection;
    limits = record { write_partial = true; update_data = λ xs d. none };
  };
}

abbrev asked : List LoadLimitsPhase
asked = record { phase = phase_a; is_changeable = true; is_active = true; value = pos 32 } ∷ []

abbrev command : LimitCommand
command = record {
  limits =
      record {
        limit_id = some 3;
        is_limit_changeable = none;
        is_limit_active = some true;
        time_period = none;
        value = some (pos 16);
      }
      ∷ [];
  filters = some none;
}

compatible : is_compatible_entity_type (new_opev true) (some vehicle) ≡ true
unfolding is_compatible_entity_type
compatible = refl

sent :
    write_charging_limits opev_variant same_number (new_opev true) ev_remotes (some vehicle) asked
    ≡ ok command
unfolding write_charging_limits write_load_control_phase_limits write_limit_data phase_writes
    phase_write match_descriptions adjust_value_to_be_within_permitted_values_for_parameter_id
    get_permitted_value_set_for_filter get_parameter_descriptions_for_filter
    get_limit_descriptions_for_filter get_limit_data_for_id get_limit_data_for_filter
    feature_data_copy_of_type search_filter_in_list is_compatible_entity_type
sent = refl

write_charging_limits_lem_example :
    All
      (λ (x : LimitData).
        (id : ℕ) × (x.limit_id ≡ some id)
        × Any
            (λ (d : LimitDescription). (d.limit_id ≡ some id) × IsOfUseCase opev_variant d)
            ev_descriptions)
      command.limits
write_charging_limits_lem_example =
    write_charging_limits_lem opev_variant same_number (new_opev true) ev_remotes vehicle asked
      ev_limits remote_connection ev_descriptions command compatible refl refl refl refl sent
