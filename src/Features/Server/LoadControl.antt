-- ===== src/Features/Server/LoadControl.antt =====
-- features/server/loadcontrol.go
pub mod Added
pub mod Merging
use eebus_go.Prelude.{ℕ, is_some, if◌then◌else◌, Option, none, some, List, [], ◌∷◌, map}
use eebus_go.Spine.{LimitDescription, LimitData}
use eebus_go.Errors.{Result, ok, err, panic, message, data_not_available, ◌>>=◌}
use eebus_go.Features.Filter.{Copy, new_local}
use eebus_go.Features.LoadControl.{
  LoadControlFeature, empty_limit_description, limit_id_filter, get_limit_descriptions_for_filter,
}
use eebus_go.Features.Server.{DeleteFilter, Update, updated, refused, UpdateData}
use eebus_go.Features.Server.Ids.{max_id}

-- `data, err := l.GetLimitDescriptionsForFilter(…); if err != nil { data = … {} }`
abbrev pub or_empty : {A : Type 0} → Result (List A) → List A
or_empty (ok xs) = xs
or_empty _ = []

unfoldable pub add_limit_description :
    UpdateData LimitDescription
    → LoadControlFeature
    → LimitDescription
    → LoadControlFeature × Option ℕ
unfolding max_id
add_limit_description update_data f description = elim description.limit_id [
  | some id ↦ (f, none)
  | none ↦
      let descriptions =
        or_empty (get_limit_descriptions_for_filter (new_local f) empty_limit_description) in
      let limit_id = max_id (map (λ (d : LimitDescription). d.limit_id) descriptions) 0 in
      elim (update_data f.limit_descriptions (record description { limit_id = some limit_id } ∷ [])
        none) [
          | updated descriptions' ↦ (record f { limit_descriptions = descriptions' }, some limit_id)
          | refused text ↦ (f, none)
        ]
]

-- The loop over the data: each filter has to fit exactly one description, whose id the data takes.
unfoldable pub resolve_limits :
    LoadControlFeature → List (LimitData × LimitDescription) → Result (List LimitData)
resolve_limits f [] = ok []
resolve_limits f ((datum, filter) ∷ rest) =
    let resolved = resolve_limits f rest in
    elim (get_limit_descriptions_for_filter (new_local f) filter) [
      | ok (description ∷ []) ↦ do
        limit_data ← resolved
        ok (record datum { limit_id = description.limit_id } ∷ limit_data)
      | _ ↦ err data_not_available
    ]

-- The elements are looked at only where there is a selector.
abbrev pub delete_filter : Option (Option ℕ) → Option (List ℕ) → Option DeleteFilter
delete_filter none elements = none
delete_filter (some id) elements = some (record { selector = id; elements = elements })

unfoldable pub update_limit_data_for_filters :
    UpdateData LimitData
    → LoadControlFeature
    → List (LimitData × LimitDescription)
    → Option (Option ℕ)
    → Option (List ℕ)
    → LoadControlFeature × Result (Unit {0})
unfolding resolve_limits
update_limit_data_for_filters update_data f data_list selector elements =
    elim (resolve_limits f data_list) [
      | ok limit_data ↦ elim (update_data f.limits limit_data (delete_filter selector elements)) [
        | updated limits' ↦ (record f { limits = limits' }, ok tt)
        | refused text ↦ (f, err (message text))
      ]
      | err e ↦ (f, err e)
      | panic ↦ (f, panic)
    ]

unfoldable pub update_limit_data_for_ids :
    UpdateData LimitData
    → LoadControlFeature
    → List (LimitData × ℕ)
    → LoadControlFeature × Result (Unit {0})
update_limit_data_for_ids update_data f data_list =
    update_limit_data_for_filters update_data f
      (map (λ (item : LimitData × ℕ). (item.0, limit_id_filter (some item.1))) data_list) none none
