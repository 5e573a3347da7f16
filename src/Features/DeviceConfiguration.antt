-- ===== src/Features/DeviceConfiguration.antt =====
-- features/internal/deviceconfiguration.go: reading device configuration keys and values.
pub mod Payload
use eebus_go.Prelude.{
  ℕ, ◌==◌, if◌then◌else◌, any, is_some, same_value, Bool, true, false, ◌&&◌, ◌||◌, Option, none,
  some, List, [], ◌∷◌,
}
use eebus_go.Spine.{Name, KeyValueDescription, KeyValueData, PayloadData, key_values}
use eebus_go.Errors.{Result, ok, err, panic, data_not_available, ◌>>=◌}
use eebus_go.Features.Filter.{
  Copy, Common, feature_data_copy_of_type, available, search_filter_in_list,
}
use eebus_go.Features.Structs.{key_value_description_struct}

-- The data of a DeviceConfiguration feature.
pub record DeviceConfigurationFeature : Type 0 where
  pub descriptions : Copy KeyValueDescription
  pub values : Copy KeyValueData

abbrev pub DeviceConfigurationCommon : Type 0
DeviceConfigurationCommon = Common DeviceConfigurationFeature

abbrev pub key_filter : Option ℕ → Option Name → KeyValueDescription
key_filter id name = record { key_id = id; key_name = name; value_type = none; unit = none }

unfoldable pub get_key_value_descriptions_for_filter :
    DeviceConfigurationCommon → KeyValueDescription → Result (List KeyValueDescription)
get_key_value_descriptions_for_filter d filter = do
  data_list ← available (feature_data_copy_of_type d (λ f. f.descriptions))
  ok (search_filter_in_list data_list filter)

unfoldable pub get_key_value_description_fo_key_id :
    DeviceConfigurationCommon → ℕ → Result KeyValueDescription
get_key_value_description_fo_key_id d key_id =
    elim (get_key_value_descriptions_for_filter d (key_filter (some key_id) none)) [
      | ok (x ∷ []) ↦ ok x
      | _ ↦ err data_not_available
    ]

-- The loop over the values; `*description.KeyId` is read only for an item with a key.
unfoldable pub find_key_value : Option ℕ → List KeyValueData → Result KeyValueData
find_key_value key [] = err data_not_available
find_key_value key (item ∷ items) =
    let rest = find_key_value key items in
    elim item.key_id [
      | none ↦ rest
      | some k ↦ elim key [ none ↦ panic | some j ↦ if k == j then ok item else rest ]
    ]

unfoldable pub get_key_value_data_for_filter :
    DeviceConfigurationCommon → KeyValueDescription → Result KeyValueData
unfolding find_key_value
get_key_value_data_for_filter d filter = elim (get_key_value_descriptions_for_filter d filter) [
  | ok (description ∷ ds) ↦ do
    data_list ← available (feature_data_copy_of_type d (λ f. f.values))
    find_key_value description.key_id data_list
  | _ ↦ err data_not_available
]

unfoldable pub get_key_value_data_for_key_id : DeviceConfigurationCommon → ℕ → Result KeyValueData
get_key_value_data_for_key_id d key_id =
    get_key_value_data_for_filter d (key_filter (some key_id) none)

-- One turn of the inner loop: `&&` binds tighter than `||`.
abbrev pub key_matches : KeyValueDescription → KeyValueData → Bool
key_matches desc item =
    is_some item.key_id && same_value item.key_id desc.key_id || is_some item.value

unfoldable pub check_event_payload_data_for_filter :
    DeviceConfigurationCommon → PayloadData → KeyValueDescription → Bool
check_event_payload_data_for_filter d (key_values data_list) filter =
    elim (get_key_value_descriptions_for_filter d filter) [
      | ok descs ↦ any (λ desc. is_some desc.key_id && any (key_matches desc) data_list) descs
      | _ ↦ false
    ]
check_event_payload_data_for_filter d _ filter = false
