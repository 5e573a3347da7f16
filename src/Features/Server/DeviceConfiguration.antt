-- ===== src/Features/Server/DeviceConfiguration.antt =====
-- features/server/deviceconfiguration.go
use eebus_go.Prelude.{ℕ, Option, none, some, List, [], ◌∷◌, map}
use eebus_go.Spine.{KeyValueDescription, KeyValueData}
use eebus_go.Errors.{Result, ok, err, panic, message, data_not_available}
use eebus_go.Features.Filter.{Copy, no_data, listed, new_local}
use eebus_go.Features.DeviceConfiguration.{
  DeviceConfigurationFeature, key_filter, get_key_value_descriptions_for_filter,
}
use eebus_go.Features.Server.{updated, refused, UpdateData}
use eebus_go.Features.Server.Ids.{max_id}

-- `if err != nil { data = &…ListDataType{} }`, and the read of the list, which is a panic where the
-- data set is nil without an error.
abbrev pub list_of : {A : Type 0} → Copy A → Result (List A)
list_of (listed xs) = ok xs
list_of no_data = panic
list_of _ = ok []

unfoldable pub add_key_value_description :
    UpdateData KeyValueDescription
    → DeviceConfigurationFeature
    → KeyValueDescription
    → DeviceConfigurationFeature × Result (Option ℕ)
unfolding max_id
add_key_value_description update_data f description = elim (list_of f.descriptions) [
  | ok descriptions ↦
      let key_id = max_id (map (λ (d : KeyValueDescription). d.key_id) descriptions) 0 in
      elim (update_data f.descriptions (record description { key_id = some key_id } ∷ []) none) [
        | updated descriptions' ↦ (record f { descriptions = descriptions' }, ok (some key_id))
        | refused text ↦ (f, ok none)
      ]
  | err e ↦ (f, err e)
  | panic ↦ (f, panic)
]

unfoldable pub update_key_value_data_for_filter :
    UpdateData KeyValueData
    → DeviceConfigurationFeature
    → KeyValueData
    → Option (List ℕ)
    → KeyValueDescription
    → DeviceConfigurationFeature × Result (Unit {0})
update_key_value_data_for_filter update_data f datum delete_elements filter =
    elim (get_key_value_descriptions_for_filter (new_local f) filter) [
      | ok (description ∷ []) ↦
          elim (update_data f.values (record datum { key_id = description.key_id } ∷ [])
            (elim delete_elements [
              | none ↦ none
              | some elements ↦
                  some (record { selector = description.key_id; elements = some elements })
            ])) [
              | updated values' ↦ (record f { values = values' }, ok tt)
              | refused text ↦ (f, err (message text))
            ]
      | ok _ ↦ (f, err data_not_available)
      | err e ↦ (f, err e)
      | panic ↦ (f, panic)
    ]

unfoldable pub update_key_value_data_for_key_id :
    UpdateData KeyValueData
    → DeviceConfigurationFeature
    → KeyValueData
    → Option (List ℕ)
    → ℕ
    → DeviceConfigurationFeature × Result (Unit {0})
update_key_value_data_for_key_id update_data f datum delete_elements key_id =
    update_key_value_data_for_filter update_data f datum delete_elements
      (key_filter (some key_id) none)
