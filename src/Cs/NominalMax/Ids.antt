-- ===== src/Cs/NominalMax/Ids.antt =====
-- Whether the nominal maximum is found under the ids that AddFeatures gave it.
use eebus_go.Prelude.{
  ℕ, holds, All, All-append, map, ◌≡◌, ◌≢◌, refl, false, Option, none, some, List, [], ◌∷◌, ◌++◌,
  arith,
}
use eebus_go.Prelude.Int.{ℤ}
use eebus_go.Spine.{Characteristic, entity_context, watt}
use eebus_go.Errors.{ok, err, data_not_available}
use eebus_go.Features.Filter.{listed, feature_data_copy_of_type, search_filter_in_list}
use eebus_go.Features.Structs.{characteristic_struct}
use eebus_go.Features.ElectricalConnection.{
  ElectricalConnectionFeature, get_characteristics_for_filter,
}
use eebus_go.Features.Server.{UpdateData, updated}
use eebus_go.Features.Server.Ids.{max_id, NoLargest, AllBelow, max_id-AllBelow}
use eebus_go.Features.Server.Laws.{IsAppending}
use eebus_go.Features.Server.ElectricalConnection.{add_characteristic}
use eebus_go.Internal.LocalEntity.{LocalEntity}
use eebus_go.Internal.ElectricalConnection.{
  get_electrical_connection_id, get_parameter_id_for_ac_power_total_measurement,
}
use eebus_go.Cs.State.{Variant}
use eebus_go.Cs.NominalMax.{
  characteristic_type, nominal_max_filter, get_nominal_max, set_nominal_max, add_nominal_max,
}

-- No characteristic of a list stands under the electrical connection 0.
abbrev pub NoneUnderZero : List Characteristic → Type 0
NoneUnderZero = All (λ (c : Characteristic). holds c.electrical_connection_id 0 ≡ false)

search_none :
    (v : Variant) (entity : LocalEntity) (cs : List Characteristic)
    → NoneUnderZero cs
    → search_filter_in_list cs (nominal_max_filter v entity) ≡ []
unfolding search_filter_in_list
search_none v entity [] h = refl
search_none v entity (c ∷ cs) h = ground (arith, h.0, search_none v entity cs h.1)

ids_of : List Characteristic → List (Option ℕ)
ids_of = map (λ c. c.characteristic_id)

All-new :
    (m : ℕ) (cs : List Characteristic)
    → AllBelow m (ids_of cs)
    → All (λ (y : Characteristic). y.characteristic_id ≢ some m) cs
unfolding ids_of
All-new m [] h = tt
All-new m (c ∷ cs) h = ((λ e. absurd (omega (arith, h.0 m e))), All-new m cs h.1)

module _ (v : Variant) (update_data : UpdateData Characteristic)
    (law : IsAppending (λ (c : Characteristic). c.characteristic_id) update_data)
    (entity : LocalEntity) (f : ElectricalConnectionFeature) (measurement_id : ℕ)
    (cs : List Characteristic) (has_feature : entity.electrical_connection ≡ some f)
    (has_list : f.characteristics ≡ listed cs)
    (no_largest : NoLargest (map (λ (c : Characteristic). c.characteristic_id) cs))
    (elsewhere : NoneUnderZero cs) (not_zero : get_electrical_connection_id entity ≢ 0) where
  connection : ℕ
  connection = get_electrical_connection_id entity

  char_id : ℕ
  char_id = max_id (ids_of cs) 0

  new_characteristic : Characteristic
  new_characteristic = record {
    electrical_connection_id = some connection;
    parameter_id =
        some (get_parameter_id_for_ac_power_total_measurement entity connection measurement_id);
    characteristic_id = some char_id;
    characteristic_context = some entity_context;
    characteristic_type = some (characteristic_type v entity);
    unit = some watt;
    value = none;
  }

  entity_after : LocalEntity
  entity_after = record entity {
    electrical_connection =
        some (record f { characteristics = listed (cs ++ new_characteristic ∷ []) });
  }

  stored :
      update_data f.characteristics (new_characteristic ∷ []) none
      ≡ updated (listed (cs ++ new_characteristic ∷ []))
  unfolding new_characteristic char_id ids_of
  stored = rw has_list (
      law.appends (listed cs) new_characteristic
        (All-new char_id cs (max_id-AllBelow (ids_of cs) 0 no_largest).1))

  added : add_nominal_max v update_data entity measurement_id ≡ (entity_after, ok char_id)
  unfolding add_nominal_max add_characteristic entity_after new_characteristic char_id connection
      ids_of
  added = ground (arith, has_feature, has_list, stored)

  still_elsewhere : NoneUnderZero (cs ++ new_characteristic ∷ [])
  unfolding new_characteristic connection
  still_elsewhere =
      All-append (λ (c : Characteristic). holds c.electrical_connection_id 0 ≡ false) cs _ elsewhere
        (ground (arith, not_zero), tt)

  nothing : search_filter_in_list (cs ++ new_characteristic ∷ []) (nominal_max_filter v entity) ≡ []
  nothing = search_none v entity (cs ++ new_characteristic ∷ []) still_elsewhere

  get_none : get_nominal_max v entity_after ≡ err data_not_available
  unfolding get_nominal_max get_characteristics_for_filter feature_data_copy_of_type entity_after
      characteristic_type
  get_none = ground (arith, nothing)

  set_none :
      (new_scaled_number : ℤ → ℤ) (value : ℤ)
      → set_nominal_max v new_scaled_number update_data entity_after value
        ≡ (entity_after, err data_not_available)
  unfolding set_nominal_max get_characteristics_for_filter feature_data_copy_of_type entity_after
      characteristic_type
  set_none new_scaled_number value = ground (arith, nothing)

  -- Where the consuming AC connection of the local entity has an id other than 0, and no
  -- characteristic stands under the connection 0 yet, adding the features of the use case succeeds
  -- and its characteristic stands under that connection, but then the nominal maximum can neither
  -- be read nor set: both report that no data is available, and setting it changes nothing.
  pub nominal_max_unreachable :
      (new_scaled_number : ℤ → ℤ) (value : ℤ)
      → let (entity', result) = add_nominal_max v update_data entity measurement_id in
        (result ≡ ok (max_id (map (λ (c : Characteristic). c.characteristic_id) cs) 0))
        × (get_nominal_max v entity' ≡ err data_not_available)
        × (set_nominal_max v new_scaled_number update_data entity' value
            ≡ (entity', err data_not_available))
  unfolding char_id ids_of
  nominal_max_unreachable new_scaled_number value =
      rw added (refl, get_none, set_none new_scaled_number value)
