-- ===== src/Features/Measurement.antt =====
-- features/internal/measurement.go: reading measurements and their descriptions.
use eebus_go.Prelude.{
  ℕ, any, is_some, same_value, Bool, false, ◌&&◌, Option, none, some, List, [], ◌∷◌,
}
use eebus_go.Spine.{MeasurementDescription, MeasurementData, PayloadData, measurements}
use eebus_go.Errors.{Result, ok, err, data_not_available, ◌>>=◌}
use eebus_go.Features.Filter.{
  Copy, Common, feature_data_copy_of_type, available, search_filter_in_list, collect,
}
use eebus_go.Features.Structs.{measurement_description_struct, measurement_data_struct}

-- The data of a Measurement feature.
pub record MeasurementFeature : Type 0 where
  pub descriptions : Copy MeasurementDescription
  pub measurements : Copy MeasurementData

abbrev pub MeasurementCommon : Type 0
MeasurementCommon = Common MeasurementFeature

abbrev pub measurement_id_filter : Option ℕ → MeasurementDescription
measurement_id_filter id = record {
  measurement_id = id;
  measurement_type = none;
  commodity_type = none;
  unit = none;
  scope_type = none;
}

abbrev pub measurement_data_filter : Option ℕ → MeasurementData
measurement_data_filter id = record { measurement_id = id; value = none; value_state = none }

unfoldable pub get_descriptions_for_filter :
    MeasurementCommon → MeasurementDescription → Result (List MeasurementDescription)
get_descriptions_for_filter m filter = do
  data_list ← available (feature_data_copy_of_type m (λ f. f.descriptions))
  ok (search_filter_in_list data_list filter)

unfoldable pub get_description_for_id : MeasurementCommon → ℕ → Result MeasurementDescription
get_description_for_id m id =
    elim (get_descriptions_for_filter m (measurement_id_filter (some id))) [
      | ok (d ∷ []) ↦ ok d
      | _ ↦ err data_not_available
    ]

unfoldable pub get_data_for_filter :
    MeasurementCommon → MeasurementDescription → Result (List MeasurementData)
get_data_for_filter m filter = elim (get_descriptions_for_filter m filter) [
  | ok (d ∷ ds) ↦ do
    data_list ← available (feature_data_copy_of_type m (λ f. f.measurements))
    ok (
        collect
          (λ desc. search_filter_in_list data_list (measurement_data_filter desc.measurement_id))
          (d ∷ ds))
  | _ ↦ err data_not_available
]

unfoldable pub get_data_for_id : MeasurementCommon → ℕ → Result MeasurementData
get_data_for_id m id = elim (get_data_for_filter m (measurement_id_filter (some id))) [
  | ok (x ∷ xs) ↦ ok x
  | _ ↦ err data_not_available
]

-- One turn of the inner loop: a value for the measurement of the description.
abbrev pub measurement_matches : MeasurementDescription → MeasurementData → Bool
measurement_matches desc item =
    same_value item.measurement_id desc.measurement_id && is_some item.value

unfoldable pub check_event_payload_data_for_filter :
    MeasurementCommon → PayloadData → MeasurementDescription → Bool
check_event_payload_data_for_filter m (measurements data_list) filter =
    elim (get_descriptions_for_filter m filter) [
      | ok descs ↦
          any (λ desc. is_some desc.measurement_id && any (measurement_matches desc) data_list)
            descs
      | _ ↦ false
    ]
check_event_payload_data_for_filter m _ filter = false
