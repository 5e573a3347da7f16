-- ===== src/Examples/Limits.antt =====
-- The limits, failsafe values and nominal maximum of an entity.
use eebus_go.Prelude.{◌*◌, ◌≡◌, refl, false, none, some, List, [], ◌∷◌, arith}
use eebus_go.Prelude.Int.{pos}
use eebus_go.Spine.{
  LimitDescription, produce, LimitData, Characteristic, consume, failsafe_duration_minimum,
}
use eebus_go.Errors.{ok, err, data_not_available}
use eebus_go.Features.Filter.{listed, new_local, search_filter_in_list, feature_data_copy_of_type}
use eebus_go.Features.LoadControl.{LoadControlFeature, get_limit_descriptions_for_filter}
use eebus_go.Features.DeviceConfiguration.{key_filter, get_key_value_descriptions_for_filter}
use eebus_go.Features.ElectricalConnection.{get_descriptions_for_filter}
use eebus_go.Features.Server.Ids.{max_id}
use eebus_go.Internal.ElectricalConnection.{get_electrical_connection_id}
use eebus_go.Cs.Limit.{limit_filter, current_limit, set_limit}
use eebus_go.Cs.Limit.Confusion.{ambiguous_set_limit-other}
use eebus_go.Cs.Limit.RoundTrip.{Places, current_limit-set_limit, set_limit-keeps_other}
use eebus_go.Cs.Failsafe.{hour, get_failsafe_duration_minimum, set_failsafe_duration_minimum}
use eebus_go.Cs.Failsafe.Ranges.{set_failsafe_duration_minimum_lem}
use eebus_go.Cs.NominalMax.{get_nominal_max, set_nominal_max, add_nominal_max}
use eebus_go.Cs.NominalMax.Ids.{nominal_max_unreachable}
use eebus_go.Cs.Lpc.{lpc_variant}
use eebus_go.Cs.Lpp.{lpp_variant}
use eebus_go.Examples.Updates.{
  append_update, append_update-IsAppending, merge_update, merge_update-IsMerging, replace_update,
  replace_update-IsOverwriting,
}
use eebus_go.Examples.Data.{
  limit_description, stored_limit, descriptions, load_control, key_description, stored_duration,
  device_configuration, electrical_connection, entity, same_number, period, asked_limit,
}

abbrev before : List LimitData
before = stored_limit 4 9000 ∷ []

place : Places 3 (stored_limit 4 9000 ∷ stored_limit 3 4200 ∷ []) before [] (stored_limit 3 4200)
place = record { at = refl; carried = refl; first = (refl, tt) }

consumption_found :
    get_limit_descriptions_for_filter (new_local load_control) (limit_filter lpc_variant)
    ≡ ok (limit_description 3 consume ∷ [])
unfolding get_limit_descriptions_for_filter feature_data_copy_of_type search_filter_in_list
consumption_found = refl

production_found :
    get_limit_descriptions_for_filter (new_local load_control) (limit_filter lpp_variant)
    ≡ ok (limit_description 4 2 ∷ [])
unfolding get_limit_descriptions_for_filter feature_data_copy_of_type search_filter_in_list
production_found = refl

current_limit-set_limit_example :
    let (entity', result) =
      set_limit lpc_variant same_number period merge_update entity asked_limit in
    (result ≡ ok tt) × (current_limit lpc_variant entity' ≡ ok asked_limit)
current_limit-set_limit_example =
    current_limit-set_limit lpc_variant entity load_control descriptions
      (limit_description 3 consume) 3 (stored_limit 4 9000 ∷ stored_limit 3 4200 ∷ []) before []
      (stored_limit 3 4200) refl refl consumption_found refl refl refl place merge_update
      merge_update-IsMerging same_number period (λ t. refl) asked_limit

set_limit-keeps_other_example :
    let (entity', result) =
      set_limit lpc_variant same_number period merge_update entity asked_limit in
    current_limit lpp_variant entity' ≡ current_limit lpp_variant entity
set_limit-keeps_other_example =
    set_limit-keeps_other lpc_variant entity load_control descriptions (limit_description 3 consume)
      3 (stored_limit 4 9000 ∷ stored_limit 3 4200 ∷ []) before [] (stored_limit 3 4200) refl refl
      consumption_found refl refl refl place merge_update merge_update-IsMerging same_number period
      (λ t. refl) asked_limit lpp_variant (limit_description 4 2) 4 production_found refl
      (λ e. ground arith)

-- Two descriptions of the consumption limit, and a production limit with the id 0.
abbrev doubled_descriptions : List LimitDescription
doubled_descriptions =
    limit_description 3 consume ∷ limit_description 5 consume ∷ limit_description 0 produce ∷ []

abbrev doubled : LoadControlFeature
doubled = record {
  limit_descriptions = listed doubled_descriptions;
  limits = listed (stored_limit 3 4200 ∷ stored_limit 0 9000 ∷ []);
}

doubled_found :
    get_limit_descriptions_for_filter (new_local doubled) (limit_filter lpc_variant)
    ≡ ok (limit_description 3 consume ∷ limit_description 5 consume ∷ [])
unfolding get_limit_descriptions_for_filter feature_data_copy_of_type search_filter_in_list
doubled_found = refl

produced_found :
    get_limit_descriptions_for_filter (new_local doubled) (limit_filter lpp_variant)
    ≡ ok (limit_description 0 produce ∷ [])
unfolding get_limit_descriptions_for_filter feature_data_copy_of_type search_filter_in_list
produced_found = refl

place_of_zero :
    Places 0
      (stored_limit 3 4200 ∷ stored_limit 0 9000 ∷ [])
      (stored_limit 3 4200 ∷ [])
      []
      (stored_limit 0 9000)
place_of_zero = record { at = refl; carried = refl; first = (refl, tt) }

ambiguous_set_limit-other_example :
    let unclear = record entity { load_control = some doubled } in
    let (entity', result) =
      set_limit lpc_variant same_number period merge_update unclear asked_limit in
    (current_limit lpc_variant unclear ≡ current_limit lpp_variant unclear)
    × (result ≡ ok tt)
    × (current_limit lpp_variant entity' ≡ ok asked_limit)
ambiguous_set_limit-other_example =
    ambiguous_set_limit-other lpc_variant lpp_variant
      (record entity { load_control = some doubled }) doubled
      (limit_description 3 consume ∷ limit_description 5 consume ∷ []) (limit_description 0 produce)
      refl doubled_found (λ e. ground arith) produced_found refl doubled_descriptions
      (stored_limit 3 4200 ∷ stored_limit 0 9000 ∷ []) (stored_limit 3 4200 ∷ []) []
      (stored_limit 0 9000) merge_update same_number period asked_limit refl refl refl place_of_zero
      merge_update-IsMerging (λ t. refl)

duration_found :
    get_key_value_descriptions_for_filter
      (new_local device_configuration)
      (key_filter none (some failsafe_duration_minimum))
    ≡ ok (key_description 1 failsafe_duration_minimum ∷ [])
unfolding get_key_value_descriptions_for_filter feature_data_copy_of_type search_filter_in_list
duration_found = refl

set_failsafe_duration_minimum_lem_example :
    let (entity', result) =
      set_failsafe_duration_minimum (λ x. some x) replace_update entity (pos (3 * hour)) false in
    (result ≡ ok tt) × (get_failsafe_duration_minimum entity' ≡ ok (pos (3 * hour), false))
set_failsafe_duration_minimum_lem_example =
    set_failsafe_duration_minimum_lem replace_update replace_update-IsOverwriting (λ x. some x)
      entity device_configuration (key_description 1 failsafe_duration_minimum) 1 [] []
      (stored_duration 0) refl duration_found refl refl tt refl (pos (3 * hour)) false refl

connection_id : get_electrical_connection_id entity ≡ 1
unfolding get_electrical_connection_id get_descriptions_for_filter feature_data_copy_of_type
    search_filter_in_list
connection_id = refl

nominal_max_unreachable_example :
    let (entity', result) = add_nominal_max lpc_variant append_update entity 50 in
    (result ≡ ok 0)
    × (get_nominal_max lpc_variant entity' ≡ err data_not_available)
    × (set_nominal_max lpc_variant same_number append_update entity' (pos 11000)
        ≡ (entity', err data_not_available))
unfolding max_id
nominal_max_unreachable_example =
    nominal_max_unreachable lpc_variant append_update
      (append_update-IsAppending (λ (c : Characteristic). c.characteristic_id)) entity
      electrical_connection 50 [] refl refl tt tt (λ e. ground (arith, connection_id)) same_number
      (pos 11000)
