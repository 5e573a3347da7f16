-- ===== src/Features/ElectricalConnection/Payload.antt =====
-- CheckEventPayloadDataForFilter and CheckEventPayloadDataForFilterDescriptionList of
-- features/internal/electricalconnection.go.
use eebus_go.Prelude.{
  ℕ, any, is_empty, same_value, not, Any, Any-map, Bool-cases, Option-cases, ◌≡◌, ◌↔◌, inl, inr,
  Bool, true, false, ◌&&◌, some, List, [], ◌∷◌, arith,
}
use eebus_go.Spine.{
  ParameterDescription, PermittedValueSet, Characteristic, PayloadData, permitted_value_sets,
  characteristics,
}
use eebus_go.Errors.{ok}
use eebus_go.Features.ElectricalConnection.{
  ElectricalConnectionCommon, get_parameter_descriptions_for_filter, get_characteristics_for_filter,
}
use eebus_go.Features.ElectricalConnection.Adjust.{sets_of}

-- One turn of the inner loop: permitted values for the parameter of the description.
abbrev pub parameter_matches : ParameterDescription → PermittedValueSet → Bool
parameter_matches desc item =
    same_value item.parameter_id desc.parameter_id && not (is_empty (sets_of item))

unfoldable pub check_event_payload_data_for_filter :
    ElectricalConnectionCommon → PayloadData → ParameterDescription → Bool
check_event_payload_data_for_filter e (permitted_value_sets data_list) filter =
    elim (get_parameter_descriptions_for_filter e filter) [
      | ok descs ↦ any (λ desc. any (parameter_matches desc) data_list) descs
      | _ ↦ false
    ]
check_event_payload_data_for_filter e _ filter = false

abbrev pub characteristic_matches : Characteristic → Characteristic → Bool
characteristic_matches desc item = same_value item.parameter_id desc.parameter_id

unfoldable pub check_event_payload_data_for_filter_description_list :
    ElectricalConnectionCommon → PayloadData → Characteristic → Bool
check_event_payload_data_for_filter_description_list e (characteristics data_list) filter =
    elim (get_characteristics_for_filter e filter) [
      | ok descs ↦ any (λ desc. any (characteristic_matches desc) data_list) descs
      | _ ↦ false
    ]
check_event_payload_data_for_filter_description_list e _ filter = false

Any-of_any : {A : Type 0} (p : A → Bool) (xs : List A) → any p xs ≡ true → Any (λ x. p x ≡ true) xs
Any-of_any p [] h = cc
Any-of_any p (x ∷ xs) h = elim (Bool-cases (p x)) [
  | inl e ↦ inl e
  | inr e ↦ inr (Any-of_any p xs (ground (arith, h, e)))
]

any_of_Any : {A : Type 0} (p : A → Bool) (xs : List A) → Any (λ x. p x ≡ true) xs → any p xs ≡ true
any_of_Any p [] h = absurd h
any_of_Any p (x ∷ xs) (inl e) = ground (arith, e)
any_of_Any p (x ∷ xs) (inr h) = ground (arith, any_of_Any p xs h)

-- Permitted values of the parameter of a description.
abbrev pub IsPermittedFor : ParameterDescription → PermittedValueSet → Type 0
IsPermittedFor desc item =
    (id : ℕ) × (item.parameter_id ≡ some id)
    × (desc.parameter_id ≡ some id)
    × (is_empty (sets_of item) ≡ false)

matches-IsPermittedFor :
    (desc : ParameterDescription) (item : PermittedValueSet)
    → parameter_matches desc item ≡ true
    → IsPermittedFor desc item
matches-IsPermittedFor desc item h = elim (Option-cases item.parameter_id) [
  | inl n ↦ absurd (ground (arith, h, n))
  | inr (id, e) ↦ (id, e, ground (arith, h, e), ground (arith, h))
]

matches_of_IsPermittedFor :
    (desc : ParameterDescription) (item : PermittedValueSet)
    → IsPermittedFor desc item
    → parameter_matches desc item ≡ true
matches_of_IsPermittedFor desc item (id, e, f, g) = ground (arith, e, f, g)

checks :
    (e : ElectricalConnectionCommon) (data_list : List PermittedValueSet)
    (filter : ParameterDescription) (descs : List ParameterDescription)
    → get_parameter_descriptions_for_filter e filter ≡ ok descs
    → check_event_payload_data_for_filter e (permitted_value_sets data_list) filter
      ≡ any (λ (desc : ParameterDescription). any (parameter_matches desc) data_list) descs
unfolding check_event_payload_data_for_filter
checks e data_list filter descs found = ground (arith, found)

-- An update of permitted values is reported exactly when it holds a set of values, not empty, of a
-- parameter whose description fits the filter.
pub check_event_payload_data_for_filter_iff :
    (e : ElectricalConnectionCommon) (data_list : List PermittedValueSet)
    (filter : ParameterDescription) (descs : List ParameterDescription)
    → get_parameter_descriptions_for_filter e filter ≡ ok descs
    → (check_event_payload_data_for_filter e (permitted_value_sets data_list) filter ≡ true)
      ↔ Any (λ (desc : ParameterDescription). Any (IsPermittedFor desc) data_list) descs
check_event_payload_data_for_filter_iff e data_list filter descs found =
    rw (checks e data_list filter descs found) (
      (λ h.
          Any-map _ _ descs
            (λ desc k.
              Any-map _ _ data_list (matches-IsPermittedFor desc)
                (Any-of_any (parameter_matches desc) data_list k))
            (Any-of_any _ descs h)),
      λ h. any_of_Any _ descs (
          Any-map _ _ descs
            (λ desc k.
              any_of_Any (parameter_matches desc) data_list
                (Any-map _ _ data_list (matches_of_IsPermittedFor desc) k))
            h),
    )
