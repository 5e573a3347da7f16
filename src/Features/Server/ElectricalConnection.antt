-- ===== src/Features/Server/ElectricalConnection.antt =====
-- features/server/electricalconnection.go, but GetOrAddIdForDescription
use eebus_go.Prelude.{ℕ, is_some, if◌then◌else◌, ◌&&◌, not, Option, none, some, List, [], ◌∷◌, map}
use eebus_go.Spine.{
  Name, ConnectionDescription, ParameterDescription, PermittedValueSet, Characteristic,
}
use eebus_go.Errors.{Result, ok, err, panic, message, data_not_available, ◌>>=◌}
use eebus_go.Features.Filter.{new_local}
use eebus_go.Features.ElectricalConnection.{
  ElectricalConnectionFeature, empty_parameter_description, get_parameter_descriptions_for_filter,
  get_characteristics_for_filter,
}
use eebus_go.Features.Server.{DeleteFilter, updated, refused, UpdateData}
use eebus_go.Features.Server.Ids.{max_id}
use eebus_go.Features.Server.LoadControl.{or_empty, delete_filter}
use eebus_go.Features.Server.DeviceConfiguration.{list_of}

unfoldable pub add_description :
    UpdateData ConnectionDescription
    → ElectricalConnectionFeature
    → ConnectionDescription
    → ElectricalConnectionFeature × Result (Unit {0})
add_description update_data f description = elim description.electrical_connection_id [
  | none ↦ (f, err (message "missing id data"))
  | some id ↦ elim (update_data f.descriptions (description ∷ []) none) [
    | updated descriptions' ↦ (record f { descriptions = descriptions' }, ok tt)
    | refused text ↦ (f, err (message text))
  ]
]

-- The parameter ids are counted for each electrical connection.
unfoldable pub add_parameter_description :
    UpdateData ParameterDescription
    → ElectricalConnectionFeature
    → ParameterDescription
    → ElectricalConnectionFeature × Option ℕ
unfolding max_id
add_parameter_description update_data f description =
    if is_some description.electrical_connection_id && not (is_some description.parameter_id)
    then (let parameters = or_empty (
          get_parameter_descriptions_for_filter (new_local f) (record empty_parameter_description {
            electrical_connection_id = description.electrical_connection_id;
          })) in
        let parameter_id =
          max_id (map (λ (d : ParameterDescription). d.parameter_id) parameters) 0 in
        elim (update_data f.parameters
          (record description { parameter_id = some parameter_id } ∷ []) none) [
            | updated parameters' ↦ (record f { parameters = parameters' }, some parameter_id)
            | refused text ↦ (f, none)
          ])
    else (f, none)

unfoldable pub add_characteristic :
    UpdateData Characteristic
    → ElectricalConnectionFeature
    → Characteristic
    → ElectricalConnectionFeature × Result ℕ
unfolding max_id
add_characteristic update_data f datum =
    if is_some datum.electrical_connection_id && is_some datum.parameter_id
    then elim datum.characteristic_id [
      | some id ↦ (f, err (message "characteristic id must not be set"))
      | none ↦ elim (list_of f.characteristics) [
        | ok known ↦
            let char_id = max_id (map (λ (c : Characteristic). c.characteristic_id) known) 0 in
            elim (update_data f.characteristics
              (record datum { characteristic_id = some char_id } ∷ []) none) [
                | updated characteristics' ↦
                    (record f { characteristics = characteristics' }, ok char_id)
                | refused text ↦ (f, err (message text))
              ]
        | err e ↦ (f, err e)
        | panic ↦ (f, panic)
      ]
    ]
    else (f, err (message "missing id data"))

-- The elements to delete select by the characteristic id.
abbrev pub characteristic_delete : Option ℕ → Option (List Name) → Option DeleteFilter
characteristic_delete id none = none
characteristic_delete id (some elements) = some (record { selector = id; elements = some elements })

unfoldable pub update_characteristic :
    UpdateData Characteristic
    → ElectricalConnectionFeature
    → Characteristic
    → Option (List Name)
    → ElectricalConnectionFeature × Result (Unit {0})
update_characteristic update_data f datum delete_elements =
    if is_some datum.characteristic_id
      && is_some datum.electrical_connection_id
      && is_some datum.parameter_id
    then elim (get_characteristics_for_filter (new_local f) (record {
      electrical_connection_id = datum.electrical_connection_id;
      parameter_id = datum.parameter_id;
      characteristic_id = datum.characteristic_id;
      characteristic_context = none;
      characteristic_type = none;
      unit = none;
      value = none;
    })) [
      | ok (c ∷ []) ↦
          elim (update_data f.characteristics (datum ∷ [])
            (characteristic_delete datum.characteristic_id delete_elements)) [
              | updated characteristics' ↦ (record f { characteristics = characteristics' }, ok tt)
              | refused text ↦ (f, err (message text))
            ]
      | _ ↦ (f, err (message "no matching element found"))
    ]
    else (f, err (message "missing id data"))

-- The loop over the data: each filter has to fit exactly one parameter description, whose ids the
-- data takes.
unfoldable pub resolve_permitted :
    ElectricalConnectionFeature
    → List (PermittedValueSet × ParameterDescription)
    → Result (List PermittedValueSet)
resolve_permitted f [] = ok []
resolve_permitted f ((datum, filter) ∷ rest) =
    let resolved = resolve_permitted f rest in
    elim (get_parameter_descriptions_for_filter (new_local f) filter) [
      | ok (description ∷ []) ↦ do
        permitted ← resolved
        ok (
            record datum {
              electrical_connection_id = description.electrical_connection_id;
              parameter_id = description.parameter_id;
            }
            ∷ permitted)
      | _ ↦ err data_not_available
    ]

unfoldable pub update_permitted_value_set_for_filters :
    UpdateData PermittedValueSet
    → ElectricalConnectionFeature
    → List (PermittedValueSet × ParameterDescription)
    → Option (Option ℕ)
    → Option (List Name)
    → ElectricalConnectionFeature × Result (Unit {0})
unfolding resolve_permitted
update_permitted_value_set_for_filters update_data f data_list selector elements =
    elim (resolve_permitted f data_list) [
      | ok permitted ↦
          elim (update_data f.permitted_values permitted (delete_filter selector elements)) [
            | updated permitted' ↦ (record f { permitted_values = permitted' }, ok tt)
            | refused text ↦ (f, err (message text))
          ]
      | err e ↦ (f, err e)
      | panic ↦ (f, panic)
    ]

-- The ids of the electrical connection and of the parameter select the description.
abbrev pub ids_filter : ℕ → ℕ → ParameterDescription
ids_filter connection parameter = record empty_parameter_description {
  electrical_connection_id = some connection;
  parameter_id = some parameter;
}

unfoldable pub update_permitted_value_set_for_ids :
    UpdateData PermittedValueSet
    → ElectricalConnectionFeature
    → List (PermittedValueSet × ℕ × ℕ)
    → ElectricalConnectionFeature × Result (Unit {0})
update_permitted_value_set_for_ids update_data f data_list =
    update_permitted_value_set_for_filters update_data f
      (map (λ (item : PermittedValueSet × ℕ × ℕ). (item.0, ids_filter item.1 item.2)) data_list)
      none none
