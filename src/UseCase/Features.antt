-- ===== src/UseCase/Features.antt =====
-- The part of AddFeatures that the use cases of a client share: features are added to the local
-- entity, in order, up to the first that cannot be added. `GetOrAddFeature` is spine-go's:
-- `can_add` says for which types and roles it does not return nil.
use eebus_go.Prelude.{if◌then◌else◌, Bool, List, [], ◌∷◌}
use eebus_go.Spine.{Name, client_role}
use eebus_go.Errors.{Result, ok, err, panic, message}

-- The loop over the client features: those that were asked for, and the result.
unfoldable pub add_client_features :
    (Name → Name → Bool) → List Name → List Name × Result (Unit {0})
add_client_features can_add [] = ([], ok tt)
add_client_features can_add (feature ∷ features) =
    let (asked, result) = add_client_features can_add features in
    if can_add feature client_role
    then (feature ∷ asked, result)
    else (feature ∷ [], err (message "could not add feature"))

-- One more feature, of a role, after the loop.
unfoldable pub add_feature_after :
    (Name → Name → Bool) → Name → Name → List Name × Result (Unit {0}) → Result (Unit {0})
add_feature_after can_add feature role (asked, ok u) =
    if can_add feature role then ok tt else err (message "could not add feature")
add_feature_after can_add feature role (asked, err e) = err e
add_feature_after can_add feature role (asked, panic) = panic
