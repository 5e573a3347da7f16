-- ===== src/Cs/AddFeatures/Limit.antt =====
-- The limit that AddFeatures adds.
use eebus_go.Prelude.{
  ℕ, any, find?, All, map, ◌≡◌, ◌≢◌, refl, ap, ◌∙◌, true, false, none, some, List, [], ◌∷◌, ◌++◌,
  arith,
}
use eebus_go.Prelude.Int.{pos}
use eebus_go.Spine.{LimitDescription, LimitData, watt}
use eebus_go.Errors.{ok}
use eebus_go.Features.Filter.{listed, new_local, feature_data_copy_of_type, search_filter_in_list}
use eebus_go.Features.Filter.Matching.{search-append}
use eebus_go.Features.Structs.{limit_description_struct}
use eebus_go.Features.LoadControl.{
  LoadControlFeature, limit_id_filter, get_limit_descriptions_for_filter,
}
use eebus_go.Features.LoadControl.Lookup.{describes, carries, descriptions_by_id}
use eebus_go.Features.Server.{updated}
use eebus_go.Features.Server.Ids.{max_id, NoLargest}
use eebus_go.Features.Server.Laws.{known, IsAppending}
use eebus_go.Features.Server.LoadControl.{
  add_limit_description, update_limit_data_for_filters, update_limit_data_for_ids,
}
use eebus_go.Features.Server.LoadControl.Added.{add_limit_description_lem, describes-added}
use eebus_go.Internal.LocalEntity.{LocalEntity}
use eebus_go.Internal.Measurement.{get_power_total_measurement_id}
use eebus_go.Cs.State.{Variant}
use eebus_go.Cs.Limit.{limit_filter, current_limit}
use eebus_go.Cs.Limit.Reading.{current_limit_lem}
use eebus_go.Cs.AddFeatures.{SpineLocal, add_limit}

find-fresh :
    (id : ℕ) (xs : List LimitData) (x : LimitData)
    → All (λ (y : LimitData). y.limit_id ≢ some id) xs
    → x.limit_id ≡ some id
    → find? (carries id) (xs ++ x ∷ []) ≡ some x
find-fresh id [] x h e = ground arith
find-fresh id (y ∷ ys) x h e = ground (arith, h.0, find-fresh id ys x h.1 e)

module _ (v : Variant) (spine : SpineLocal) (entity : LocalEntity) (f : LoadControlFeature)
    (has_feature : entity.load_control ≡ some f) (accepted : spine.callback_refused ≡ none)
    (law : IsAppending (λ (d : LimitDescription). d.limit_id) spine.limit_descriptions)
    (limits_law : IsAppending (λ (x : LimitData). x.limit_id) spine.limits)
    (no_largest : NoLargest
      (map (λ (d : LimitDescription). d.limit_id) (known f.limit_descriptions)))
    (unfit : search_filter_in_list (known f.limit_descriptions) (limit_filter v) ≡ [])
    (fresh : All
      (λ (x : LimitData).
        x.limit_id
        ≢ some (max_id (map (λ (d : LimitDescription). d.limit_id) (known f.limit_descriptions)) 0))
      (known f.limits)) where
  id : ℕ
  id = max_id (map (λ (d : LimitDescription). d.limit_id) (known f.limit_descriptions)) 0

  asked : LimitDescription
  asked = record (limit_filter v) {
    measurement_id = some (get_power_total_measurement_id entity);
    unit = some watt;
  }

  added : LimitDescription
  added = record asked { limit_id = some id }

  new : LimitData
  new = record {
    limit_id = some id;
    is_limit_changeable = some true;
    is_limit_active = some false;
    time_period = none;
    value = some (spine.new_scaled_number (pos 0));
  }

  descriptions : List LimitDescription
  descriptions = known f.limit_descriptions ++ added ∷ []

  described : LoadControlFeature
  described = record f { limit_descriptions = listed descriptions }

  feature_after : LoadControlFeature
  feature_after = record described { limits = listed (known f.limits ++ new ∷ []) }

  entity_after : LocalEntity
  entity_after = record entity { load_control = some feature_after }

  description_added : add_limit_description spine.limit_descriptions f asked ≡ (described, some id)
  unfolding described descriptions added asked id
  description_added = add_limit_description_lem spine.limit_descriptions law f asked refl no_largest

  found_by_id :
      get_limit_descriptions_for_filter (new_local described) (limit_id_filter (some id))
      ≡ ok (added ∷ [])
  unfolding added asked descriptions described id
  found_by_id =
      descriptions_by_id (new_local described) copied id
      ∙ ap ok (describes-added spine.limit_descriptions law f asked refl no_largest)
    where
      copied :
          feature_data_copy_of_type (new_local described) (λ g. g.limit_descriptions)
          ≡ listed descriptions
      copied = unfold feature_data_copy_of_type in refl

  stored : spine.limits f.limits (new ∷ []) none ≡ updated (listed (known f.limits ++ new ∷ []))
  unfolding new id
  stored = limits_law.appends f.limits new fresh

  add_limit_lem : add_limit v spine entity ≡ (entity_after, ok tt)
  unfolding add_limit update_limit_data_for_ids update_limit_data_for_filters entity_after
      feature_after described new added asked
  add_limit_lem = ground (arith, has_feature, accepted, description_added, found_by_id, stored)

  found :
      get_limit_descriptions_for_filter (new_local feature_after) (limit_filter v) ≡ ok (added ∷ [])
  unfolding get_limit_descriptions_for_filter feature_data_copy_of_type feature_after described
      descriptions
  found =
      ground (
        arith,
        search-append (known f.limit_descriptions) (added ∷ []) (limit_filter v),
        unfit,
        fits,
      )
    where
      fits : search_filter_in_list (added ∷ []) (limit_filter v) ≡ added ∷ []
      fits = unfold search_filter_in_list added asked in ground arith

  described_id : any (describes id) descriptions ≡ true
  unfolding descriptions added
  described_id = ends (known f.limit_descriptions)
    where
      ends : (ds : List LimitDescription) → any (describes id) (ds ++ added ∷ []) ≡ true
      ends [] = ground arith
      ends (d ∷ ds) = ground (arith, ends ds)

  -- On an entity whose load control feature has no description yet that fits the use case, the
  -- limit that AddFeatures adds is there afterwards, and is the limit of the use case: it is 0, can
  -- be changed, is not active and has no duration. The data sets are to append what is new, and no
  -- limit carries the next id yet.
  pub current_limit-add_limit :
      let (entity', result) = add_limit v spine entity in
      (result ≡ ok tt)
      × (current_limit v entity'
          ≡ ok (record {
            duration = pos 0;
            is_changeable = true;
            is_active = false;
            value = spine.new_scaled_number (pos 0);
            delete_duration = false;
          }))
  unfolding feature_data_copy_of_type entity_after feature_after described descriptions new added id
  current_limit-add_limit = rw add_limit_lem (
    refl,
    ground (
      arith,
      current_limit_lem v entity_after refl refl refl found,
      described_id,
      find-fresh id (known f.limits) new fresh refl,
    ),
  )
