-- ===== src/Cem/Charging/Writing.antt =====
-- Which limits of an EV the charging use cases write.
use eebus_go.Prelude.{
  ℕ, All, Any, Any-map, Bool-cases, ◌≡◌, inl, inr, true, some, List, [], ◌∷◌, arith,
}
use eebus_go.Prelude.Int.{ℤ}
use eebus_go.Spine.{LimitDescription, LimitData}
use eebus_go.Errors.{ok}
use eebus_go.Features.Filter.{
  listed, new_remote, feature_data_copy_of_type, match_fields, search_filter_in_item,
  search_filter_in_list,
}
use eebus_go.Features.Structs.{limit_description_struct}
use eebus_go.Features.LoadControl.{LoadControlFeature, get_limit_descriptions_for_filter}
use eebus_go.Features.ElectricalConnection.{ElectricalConnectionFeature}
use eebus_go.Features.Client.{LimitCommand}
use eebus_go.UseCase.Remote.{RemoteEntity}
use eebus_go.UseCase.Base.{UseCaseBase, is_compatible_entity_type}
use eebus_go.UseCase.Limits.{LoadLimitsPhase}
use eebus_go.Internal.LoadControl.Writes.{
  IsOfMeasurement, IsPermittedWrite, write_load_control_phase_limits_lem,
}
use eebus_go.Internal.Clients.{Remote}
use eebus_go.Cem.Charging.{ChargingVariant, charging_filter, write_charging_limits}

-- A description of a limit of the use case.
abbrev pub IsOfUseCase : ChargingVariant → LimitDescription → Type 0
IsOfUseCase v d = (d.limit_category ≡ some v.category) × (d.scope_type ≡ some v.scope)

fits-IsOfUseCase :
    (v : ChargingVariant) (d : LimitDescription)
    → search_filter_in_item d (charging_filter v) ≡ true
    → IsOfUseCase v d
unfolding search_filter_in_item match_fields
fits-IsOfUseCase v d h = (ground (arith, h), ground (arith, h))

-- A limit of the use case among descriptions, under an id.
abbrev IsIn : ChargingVariant → ℕ → List LimitDescription → Type 0
IsIn v id ds = Any (λ d. (d.limit_id ≡ some id) × IsOfUseCase v d) ds

search-IsIn :
    (v : ChargingVariant) (id : ℕ) (ds : List LimitDescription)
    → Any (λ d. d.limit_id ≡ some id) (search_filter_in_list ds (charging_filter v))
    → IsIn v id ds
unfolding search_filter_in_list
search-IsIn v id [] h = absurd h
search-IsIn v id (d ∷ ds) h = elim (Bool-cases (search_filter_in_item d (charging_filter v))) [
  | inr e ↦ inr (search-IsIn v id ds (rw e at h))
  | inl e ↦ elim (rw e at h) [
    | inl here ↦ inl (here, fits-IsOfUseCase v d e)
    | inr there ↦ inr (search-IsIn v id ds there)
  ]
]

-- Every limit that overload protection, or the optimization of self consumption, writes to an EV that
-- supports partial writes has an id under which the EV describes a limit of this use case, that is of
-- its category and its scope.
pub write_charging_limits_lem :
    (v : ChargingVariant) (new_scaled_number : ℤ → ℤ) (u : UseCaseBase)
    (remotes : RemoteEntity → Remote) (e : RemoteEntity) (limits : List LoadLimitsPhase)
    (lc : LoadControlFeature) (ec : ElectricalConnectionFeature) (ds : List LimitDescription)
    (command : LimitCommand)
    → is_compatible_entity_type u (some e) ≡ true
    → (remotes e).remote_data.load_control ≡ some lc
    → (remotes e).remote_data.electrical_connection ≡ some ec
    → (remotes e).remote_data.limits.write_partial ≡ true
    → lc.limit_descriptions ≡ listed ds
    → write_charging_limits v new_scaled_number u remotes (some e) limits ≡ ok command
    → All
        (λ (x : LimitData).
          (id : ℕ) × (x.limit_id ≡ some id)
          × Any (λ (d : LimitDescription). (d.limit_id ≡ some id) × IsOfUseCase v d) ds)
        command.limits
unfolding write_charging_limits get_limit_descriptions_for_filter feature_data_copy_of_type
write_charging_limits_lem v new_scaled_number u remotes e limits lc ec ds command compatible has_lc
      has_ec partial ds_listed sent =
    let permitted =
      write_load_control_phase_limits_lem new_scaled_number (remotes e).remote_data
        (charging_filter v) limits lc ec command has_lc has_ec partial
        (ground (arith, compatible, sent)) in
    go command.limits permitted
  where
    one :
        (x : LimitData) (asked : List LoadLimitsPhase)
        → Any
            (λ l.
              IsPermittedWrite new_scaled_number
                (new_remote lc)
                (new_remote ec)
                (charging_filter v)
                l
                x)
            asked
        → (id : ℕ) × (x.limit_id ≡ some id) × IsIn v id ds
    one x [] h = absurd h
    one x (l ∷ ls) (inr h) = one x ls h
    one x (l ∷ ls) (inl h) =
        let searched : h.descs ≡ search_filter_in_list ds (charging_filter v) =
          ground (arith, h.found, ds_listed) in
        let described =
          Any-map _ _ h.descs
            (λ (d : LimitDescription)
                (k : (d.limit_id ≡ some h.id) × IsOfMeasurement h.parameter d).
              k.0)
            h.is_described in
        (h.id, h.has_id, search-IsIn v h.id ds (rw searched at described))

    go :
        (xs : List LimitData)
        → All
            (λ x.
              Any
                (λ l.
                  IsPermittedWrite new_scaled_number
                    (new_remote lc)
                    (new_remote ec)
                    (charging_filter v)
                    l
                    x)
                limits)
            xs
        → All (λ x. (id : ℕ) × (x.limit_id ≡ some id) × IsIn v id ds) xs
    go [] h = tt
    go (x ∷ xs) h = (one x limits h.0, go xs h.1)
