-- ===== src/Cs/AddFeatures/Refused.antt =====
-- AddFeatures where the description of its limit cannot be added.
use eebus_go.Prelude.{String, true, ◌≡◌, refl, Option, none, some, arith}
use eebus_go.Errors.{panic}
use eebus_go.Features.LoadControl.{LoadControlFeature}
use eebus_go.Features.Server.{refused}
use eebus_go.Features.Server.LoadControl.{add_limit_description}
use eebus_go.Internal.LocalEntity.{LocalEntity}
use eebus_go.Cs.State.{Variant}
use eebus_go.Cs.AddFeatures.{SpineLocal, or_new, new_load_control, add_limit, add_features}

-- A local entity that can have the feature, which accepts the callback and refuses every update of its limit descriptions.
abbrev pub refusing : String → SpineLocal → SpineLocal
refusing text spine = record spine {
  can_add_load_control = true;
  callback_refused = none;
  limit_descriptions = λ c xs d. refused text;
}

-- Where the write approval callback is accepted, but the data set of the limit descriptions refuses
-- its update, AddFeatures ends in a panic, not in an error, after the load control feature is added.
pub add_features_refused :
    (v : Variant) (spine : SpineLocal) (entity : LocalEntity) (text : String)
    → add_features v (refusing text spine) entity
      ≡ (record entity { load_control = some (or_new entity.load_control new_load_control) }, panic)
unfolding add_features add_limit add_limit_description
add_features_refused v spine entity text = go entity.load_control refl
  where
    go :
        (o : Option LoadControlFeature)
        → entity.load_control ≡ o
        → add_features v (refusing text spine) entity ≡ (
          record entity { load_control = some (or_new entity.load_control new_load_control) },
          panic,
        )
    go none e = ground (arith, e)
    go (some f) e = ground (arith, e)
