-- ===== src/Examples/Guards.antt =====
-- The energy guard at a heat pump: its limit, its failsafe duration and its nominal maximum.
use eebus_go.Prelude.{◌*◌, ◌≡◌, refl, true, none, some, [], ◌∷◌, arith}
use eebus_go.Prelude.Int.{pos}
use eebus_go.Prelude.Assoc.{lookup}
use eebus_go.Spine.{Message, consume, failsafe_duration_minimum, characteristics}
use eebus_go.Errors.{ok}
use eebus_go.Features.Filter.{
  listed, new_local, new_remote, search_filter_in_list, feature_data_copy_of_type,
}
use eebus_go.Features.LoadControl.{get_limit_descriptions_for_filter, get_limit_data_for_filter}
use eebus_go.Features.DeviceConfiguration.{
  key_filter, get_key_value_descriptions_for_filter, get_key_value_data_for_filter,
}
use eebus_go.Features.ElectricalConnection.{get_characteristics_for_filter}
use eebus_go.Features.Client.{LimitCommand, write_limit_data}
use eebus_go.Internal.LoadControl.{new_limit, write_load_control_limit}
use eebus_go.UseCase.Remote.{EventPayload, data_change, update}
use eebus_go.UseCase.Base.{is_compatible_entity_type}
use eebus_go.Cs.State.{event, answer_limit, limit_write_approval_required}
use eebus_go.Cs.Limit.{limit_filter, current_limit}
use eebus_go.Cs.Limit.RoundTrip.{Places}
use eebus_go.Cs.Approval.{load_control_write_cb, approve_or_deny_limit}
use eebus_go.Cs.Failsafe.{hour}
use eebus_go.Cs.Lpc.{lpc_variant}
use eebus_go.Eg.Limit.{remote_limit_filter, remote_limit, write_remote_limit}
use eebus_go.Eg.Limit.Reading.{remote_limit-current_limit}
use eebus_go.Eg.Limit.Exchange.{
  current_limit-write_remote_limit, write_remote_limit-load_control_write_cb,
}
use eebus_go.Eg.Failsafe.{
  characteristic_filter, remote_characteristic_type, remote_nominal_max,
  write_remote_failsafe_duration_minimum,
}
use eebus_go.Eg.Failsafe.Writes.{write_remote_failsafe_duration_minimum_iff}
use eebus_go.Eg.Events.{handle_remote_event}
use eebus_go.Eg.Events.Silent.{remote_nominal_max_not_reported}
use eebus_go.Examples.GuardData.{
  write_update, write_update-IsMerging, write_update-IsMergingWrite, nominal, connection, heat_pump,
  remotes, guard, compatible,
}
use eebus_go.Examples.Data.{
  limit_description, stored_limit, load_control, descriptions, device_configuration, entity,
  stored_duration, use_case, same_number, period, asked_limit,
}

fits :
    get_limit_descriptions_for_filter (new_remote load_control) (remote_limit_filter lpc_variant)
    ≡ ok (limit_description 3 consume ∷ [])
unfolding get_limit_descriptions_for_filter feature_data_copy_of_type search_filter_in_list
fits = refl

found :
    get_limit_descriptions_for_filter (new_local load_control) (limit_filter lpc_variant)
    ≡ ok (limit_description 3 consume ∷ [])
unfolding get_limit_descriptions_for_filter feature_data_copy_of_type search_filter_in_list
found = refl

place :
    Places 3
      (stored_limit 4 9000 ∷ stored_limit 3 4200 ∷ [])
      (stored_limit 4 9000 ∷ [])
      []
      (stored_limit 3 4200)
place = record { at = refl; carried = refl; first = (refl, tt) }

abbrev command : LimitCommand
command = record {
  limits = new_limit same_number period (some 3) asked_limit ∷ [];
  filters = some none;
}

sent :
    write_remote_limit lpc_variant same_number period guard remotes (some heat_pump) asked_limit
    ≡ ok command
unfolding write_remote_limit is_compatible_entity_type write_load_control_limit write_limit_data
    get_limit_data_for_filter get_limit_descriptions_for_filter feature_data_copy_of_type
    search_filter_in_list
sent = refl

remote_limit-current_limit_example :
    remote_limit lpc_variant guard remotes (some heat_pump) ≡ current_limit lpc_variant entity
remote_limit-current_limit_example =
    remote_limit-current_limit lpc_variant guard remotes heat_pump compatible refl refl refl fits
      refl entity refl found (λ x e z. ground (arith, e, z))

current_limit-write_remote_limit_example :
    current_limit lpc_variant (record entity {
      load_control = some (record load_control {
        limits = listed (
            stored_limit 4 9000
            ∷ record {
              limit_id = some 3;
              is_limit_changeable = some true;
              is_limit_active = some true;
              time_period = some (period (pos 3600));
              value = some (pos 2000);
            }
            ∷ []);
      });
    })
    ≡ ok asked_limit
current_limit-write_remote_limit_example =
    current_limit-write_remote_limit lpc_variant guard remotes heat_pump load_control descriptions
      (limit_description 3 consume) 3 (stored_limit 4 9000 ∷ stored_limit 3 4200 ∷ [])
      (stored_limit 4 9000 ∷ []) [] (stored_limit 3 4200) compatible refl refl refl refl fits refl
      refl place same_number period asked_limit command sent entity refl found write_update
      write_update-IsMerging write_update-IsMergingWrite (λ t. refl) none _ refl refl

-- The write as it comes in.
abbrev incoming : Message
incoming = record {
  request_header = some (some 12);
  load_control_limit_list_data = some command.limits;
  key_value_list_data = none;
  device_remote = 70;
  entity_remote = 1;
}

write_remote_limit-load_control_write_cb_example :
    let (s1, asked) = load_control_write_cb lpc_variant use_case incoming in
    let (s2, answered) = approve_or_deny_limit s1 12 true "" in
    (asked ≡ event limit_write_approval_required 70 1 ∷ [])
    × (lookup 12 s1.pending_limits ≡ some incoming)
    × (answered ≡ answer_limit incoming 0 none ∷ [])
unfolding lookup
write_remote_limit-load_control_write_cb_example =
    write_remote_limit-load_control_write_cb lpc_variant guard remotes heat_pump load_control
      descriptions (limit_description 3 consume) 3 (stored_limit 4 9000 ∷ stored_limit 3 4200 ∷ [])
      (stored_limit 4 9000 ∷ []) [] (stored_limit 3 4200) compatible refl refl refl refl fits refl
      refl place same_number period asked_limit command sent entity refl found use_case incoming 12
      refl refl refl refl

known_duration :
    get_key_value_data_for_filter
      (new_remote device_configuration)
      (key_filter none (some failsafe_duration_minimum))
    ≡ ok (stored_duration 0)
unfolding get_key_value_data_for_filter get_key_value_descriptions_for_filter
    feature_data_copy_of_type search_filter_in_list
known_duration = refl

write_remote_failsafe_duration_minimum_iff_example :
    write_remote_failsafe_duration_minimum
      (λ x. some x)
      guard
      remotes
      (some heat_pump)
      (pos (3 * hour))
    ≡ ok (record {
      values = record (stored_duration (3 * hour)) { is_value_changeable = none } ∷ [];
      partial = true;
    })
write_remote_failsafe_duration_minimum_iff_example =
    (write_remote_failsafe_duration_minimum_iff (λ x. some x) guard remotes heat_pump
        device_configuration (pos (3 * hour))
        (record {
          values = record (stored_duration (3 * hour)) { is_value_changeable = none } ∷ [];
          partial = true;
        })
        compatible refl refl).1
      (ground arith, ground arith, (stored_duration 0, known_duration, refl))

nominal_found :
    get_characteristics_for_filter
      (new_remote connection)
      (characteristic_filter none (remote_characteristic_type lpc_variant (some heat_pump)))
    ≡ ok (nominal ∷ [])
unfolding get_characteristics_for_filter remote_characteristic_type feature_data_copy_of_type
    search_filter_in_list
nominal_found = refl

nominal_not_at_0 :
    get_characteristics_for_filter
      (new_remote connection)
      (characteristic_filter (some 0) (remote_characteristic_type lpc_variant (some heat_pump)))
    ≡ ok []
unfolding get_characteristics_for_filter remote_characteristic_type feature_data_copy_of_type
    search_filter_in_list
nominal_not_at_0 = refl

abbrev nominal_update : EventPayload
nominal_update = record {
  ski = 5;
  event_type = data_change;
  change_type = update;
  device = none;
  entity = some heat_pump;
  content = characteristics (nominal ∷ []);
  local_feature = none;
  function = 0;
  cmd_classifier = none;
}

remote_nominal_max_not_reported_example :
    (remote_nominal_max lpc_variant guard remotes (some heat_pump) ≡ ok (pos 11000))
    × (handle_remote_event lpc_variant guard remotes nominal_update ≡ [])
remote_nominal_max_not_reported_example =
    remote_nominal_max_not_reported lpc_variant guard remotes heat_pump connection nominal []
      (nominal ∷ []) (pos 11000) nominal_update compatible refl nominal_found refl nominal_not_at_0
      refl refl refl
