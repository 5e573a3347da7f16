-- ===== src/Features/LoadControl.antt =====
-- features/internal/loadcontrol.go: reading load control limits and their descriptions.
pub mod Lookup
use eebus_go.Prelude.{
  ℕ, ◌==◌, if◌then◌else◌, length, any, is_empty, is_some, same_value, Bool, true, false, ◌&&◌, ◌||◌,
  Option, none, some, List, [], ◌∷◌,
}
use eebus_go.Spine.{LimitDescription, LimitData, PayloadData, load_control_limits}
use eebus_go.Errors.{Result, ok, err, data_not_available, ◌>>=◌}
use eebus_go.Features.Filter.{
  Copy, Common, feature_data_copy_of_type, available, search_filter_in_list, collect,
}
use eebus_go.Features.Structs.{limit_description_struct, limit_data_struct}

-- The data of a LoadControl feature.
pub record LoadControlFeature : Type 0 where
  pub limit_descriptions : Copy LimitDescription
  pub limits : Copy LimitData

abbrev pub LoadControlCommon : Type 0
LoadControlCommon = Common LoadControlFeature

abbrev pub empty_limit_description : LimitDescription
empty_limit_description = record {
  limit_id = none;
  limit_type = none;
  limit_category = none;
  limit_direction = none;
  measurement_id = none;
  unit = none;
  scope_type = none;
}

abbrev pub limit_id_filter : Option ℕ → LimitDescription
limit_id_filter id = record empty_limit_description { limit_id = id }

abbrev pub limit_data_filter : Option ℕ → LimitData
limit_data_filter id = record {
  limit_id = id;
  is_limit_changeable = none;
  is_limit_active = none;
  time_period = none;
  value = none;
}

unfoldable pub get_limit_descriptions_for_filter :
    LoadControlCommon → LimitDescription → Result (List LimitDescription)
get_limit_descriptions_for_filter l filter = do
  data_list ← available (feature_data_copy_of_type l (λ f. f.limit_descriptions))
  ok (search_filter_in_list data_list filter)

unfoldable pub get_limit_description_for_id : LoadControlCommon → ℕ → Result LimitDescription
get_limit_description_for_id l id =
    elim (get_limit_descriptions_for_filter l (limit_id_filter (some id))) [
      | ok (d ∷ []) ↦ ok d
      | _ ↦ err data_not_available
    ]

unfoldable pub get_limit_data_for_filter :
    LoadControlCommon → LimitDescription → Result (List LimitData)
get_limit_data_for_filter l filter = elim (get_limit_descriptions_for_filter l filter) [
  | ok (d ∷ ds) ↦ do
    data_list ← available (feature_data_copy_of_type l (λ f. f.limits))
    ok (
        collect (λ desc. search_filter_in_list data_list (limit_data_filter desc.limit_id))
          (d ∷ ds))
  | _ ↦ err data_not_available
]

unfoldable pub get_limit_data_for_id : LoadControlCommon → ℕ → Result LimitData
get_limit_data_for_id l id = elim (get_limit_data_for_filter l (limit_id_filter (some id))) [
  | ok (x ∷ xs) ↦ ok x
  | _ ↦ err data_not_available
]

-- One turn of the inner loop: a value for the limit of the description.
abbrev pub limit_matches : LimitDescription → LimitData → Bool
limit_matches desc item = same_value item.limit_id desc.limit_id && is_some item.value

-- The error of `GetLimitDescriptionsForFilter` is dropped, and its result is then nil.
unfoldable pub check_event_payload_data_for_filter :
    LoadControlCommon → PayloadData → LimitDescription → Bool
check_event_payload_data_for_filter l (load_control_limits data_list) filter =
    elim (get_limit_descriptions_for_filter l filter) [
      | ok descs ↦ any (λ desc. any (limit_matches desc) data_list) descs
      | _ ↦ false
    ]
check_event_payload_data_for_filter l _ filter = false
