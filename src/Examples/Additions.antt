-- ===== src/Examples/Additions.antt =====
-- Adding limits and their descriptions to a local entity.
use eebus_go.Prelude.{ℕ, ◌+◌, ◌^◌, ◌<◌, ◌≡◌, refl, true, false, none, some, [], ◌∷◌, arith}
use eebus_go.Prelude.Int.{pos}
use eebus_go.Spine.{LimitDescription, LimitData}
use eebus_go.Errors.{ok}
use eebus_go.Features.Filter.{listed, search_filter_in_list}
use eebus_go.Features.LoadControl.{LoadControlFeature}
use eebus_go.Features.Server.Ids.{max_id}
use eebus_go.Cs.Limit.{current_limit}
use eebus_go.Cs.AddFeatures.{SpineLocal, add_limit}
use eebus_go.Cs.AddFeatures.Limit.{current_limit-add_limit}
use eebus_go.Cs.Lpc.{lpc_variant}
use eebus_go.Examples.Updates.{append_update, append_update-IsAppending}
use eebus_go.Examples.Data.{limit_description, stored_limit, entity, same_number}

abbrev spine : SpineLocal
spine = record {
  limit_descriptions = append_update;
  limits = append_update;
  key_descriptions = append_update;
  key_values = append_update;
  characteristics = append_update;
  can_add_load_control = true;
  callback_refused = none;
  new_scaled_number = same_number;
  new_duration = λ x. some x;
}

-- The production limit is there, with the id 4, and the consumption limit is not.
abbrev production_only : LoadControlFeature
production_only = record {
  limit_descriptions = listed (limit_description 4 2 ∷ []);
  limits = listed (stored_limit 4 9000 ∷ []);
}

no_largest_id : (id : ℕ) → some 4 ≡ some id → id + 1 < 2 ^ 64
no_largest_id id e = ground arith

current_limit-add_limit_example :
    let (entity', result) =
      add_limit lpc_variant spine (record entity { load_control = some production_only }) in
    (result ≡ ok tt)
    × (current_limit lpc_variant entity'
        ≡ ok (record {
          duration = pos 0;
          is_changeable = true;
          is_active = false;
          value = pos 0;
          delete_duration = false;
        }))
unfolding max_id search_filter_in_list
current_limit-add_limit_example =
    current_limit-add_limit lpc_variant spine
      (record entity { load_control = some production_only }) production_only refl refl
      (append_update-IsAppending (λ (d : LimitDescription). d.limit_id))
      (append_update-IsAppending (λ (x : LimitData). x.limit_id)) (no_largest_id, tt) refl
      ((λ e. ground arith), tt)
