-- ===== src/Features/ElectricalConnection/Adjust.antt =====
-- AdjustValueToBeWithinPermittedValuesForParameterId of features/internal/electricalconnection.go.
pub mod Stated
use eebus_go.Prelude.{
  ◌∙◌, ℕ, if◌then◌else◌, ◌≡◌, refl, Bool, true, false, ◌&&◌, none, some, List, [], ◌∷◌, arith,
}
use eebus_go.Prelude.Int.{ℤ, pos, ltb_ℤ, ◌≤ℤ◌}
use eebus_go.Spine.{ScaledNumberRange, ScaledNumberSet, PermittedValueSet}
use eebus_go.Errors.{ok}
use eebus_go.Features.ElectricalConnection.{
  ElectricalConnectionCommon, parameter_filter, overwrite, get_permitted_value_set_for_filter,
}

-- The variables of the loop over the sets.
pub record Permitted : Type 0 where
  pub default_value : ℤ
  pub min_value : ℤ
  pub max_value : ℤ
  pub has_default_value : Bool
  pub has_range : Bool

abbrev pub initial : Permitted
initial = record {
  default_value = pos 0;
  min_value = pos 0;
  max_value = pos 0;
  has_default_value = false;
  has_range = false;
}

-- `if len(element.Value) > 0`
abbrev pub with_value : List ℤ → Permitted → Permitted
with_value [] p = p
with_value (v ∷ vs) p = record p { default_value = v; has_default_value = true }

-- `if len(element.Range) > 0`
abbrev pub with_range : List ScaledNumberRange → Permitted → Permitted
with_range [] p = p
with_range (r ∷ rs) p = record p {
  min_value = overwrite r.min p.min_value;
  max_value = overwrite r.max p.max_value;
  has_range = true;
}

unfoldable pub summary : List ScaledNumberSet → Permitted → Permitted
summary [] p = p
summary (element ∷ elements) p =
    summary elements (with_range element.range (with_value element.value p))

-- `if hasRange { … }`
unfoldable pub clamp : Permitted → ℤ → ℤ
clamp p value =
    if p.has_range
    then (let value' =
          if p.has_default_value && ltb_ℤ value p.min_value then p.default_value else value in
        if ltb_ℤ p.max_value value' then p.max_value else value')
    else value

abbrev pub sets_of : PermittedValueSet → List ScaledNumberSet
sets_of d = elim d.permitted_value_set [ none ↦ [] | some sets ↦ sets ]

unfoldable pub adjust_value_to_be_within_permitted_values_for_parameter_id :
    ElectricalConnectionCommon → ℤ → ℕ → ℤ
unfolding clamp summary
adjust_value_to_be_within_permitted_values_for_parameter_id e value parameter_id =
    elim (get_permitted_value_set_for_filter e (parameter_filter (some parameter_id))) [
      | ok (d ∷ []) ↦ clamp (summary (sets_of d) initial) value
      | _ ↦ value
    ]

clamp-le : (p : Permitted) (v : ℤ) → p.has_range ≡ true → clamp p v ≤ℤ p.max_value
unfolding clamp
clamp-le p v h = ground arith

clamp_within : (p : Permitted) (v : ℤ) → p.min_value ≤ℤ v → v ≤ℤ p.max_value → clamp p v ≡ v
unfolding clamp
clamp_within p v lo hi = ground arith

clamp_idempotent :
    (p : Permitted) (v : ℤ) → p.min_value ≤ℤ p.max_value → clamp p (clamp p v) ≡ clamp p v
unfolding clamp
clamp_idempotent p v h = ground arith

module _ (e : ElectricalConnectionCommon) (parameter_id : ℕ) {d : PermittedValueSet}
    (found : get_permitted_value_set_for_filter e (parameter_filter (some parameter_id))
      ≡ ok (d ∷ [])) where
  pub adjust_by_clamp :
      (value : ℤ)
      → adjust_value_to_be_within_permitted_values_for_parameter_id e value parameter_id
        ≡ clamp (summary (sets_of d) initial) value
  unfolding adjust_value_to_be_within_permitted_values_for_parameter_id
  adjust_by_clamp value = ground (arith, found)

  -- Where one permitted value set is found and it has a range, the adjusted value does not exceed
  -- the maximum that the loop over the sets ends with.
  pub adjust_bounds :
      (value : ℤ)
      → (summary (sets_of d) initial).has_range ≡ true
      → adjust_value_to_be_within_permitted_values_for_parameter_id e value parameter_id
        ≤ℤ (summary (sets_of d) initial).max_value
  adjust_bounds value h =
      rw (adjust_by_clamp value) (clamp-le (summary (sets_of d) initial) value h)

  -- Where one permitted value set is found, a value from its minimum to its maximum is not changed.
  pub adjust_within :
      (value : ℤ)
      → (summary (sets_of d) initial).min_value ≤ℤ value
      → value ≤ℤ (summary (sets_of d) initial).max_value
      → adjust_value_to_be_within_permitted_values_for_parameter_id e value parameter_id ≡ value
  adjust_within value lo hi =
      rw (adjust_by_clamp value) (clamp_within (summary (sets_of d) initial) value lo hi)

  -- Where one permitted value set is found whose minimum is at most its maximum, adjusting a value
  -- twice is adjusting it once.
  pub adjust_idempotent :
      (value : ℤ)
      → (summary (sets_of d) initial).min_value ≤ℤ (summary (sets_of d) initial).max_value
      → let adjust =
          λ (v : ℤ). adjust_value_to_be_within_permitted_values_for_parameter_id e v parameter_id in
        adjust (adjust value) ≡ adjust value
  adjust_idempotent value h =
      rw
        (
          adjust_by_clamp
              (adjust_value_to_be_within_permitted_values_for_parameter_id e value parameter_id),
          adjust_by_clamp value,
        )
        (clamp_idempotent (summary (sets_of d) initial) value h)

abbrev NoMaximum : List ScaledNumberRange → Type 0
NoMaximum [] = Unit
NoMaximum (r ∷ rs) = r.max ≡ none

-- No set has a first range that states its maximum.
abbrev pub StatesNoMaximum : List ScaledNumberSet → Type 0
StatesNoMaximum [] = Unit
StatesNoMaximum (s ∷ ss) = NoMaximum s.range × StatesNoMaximum ss

max_value-step :
    (vs : List ℤ) (rs : List ScaledNumberRange) (p : Permitted)
    → NoMaximum rs
    → (with_range rs (with_value vs p)).max_value ≡ p.max_value
max_value-step [] [] p h = refl
max_value-step (v ∷ vs) [] p h = refl
max_value-step [] (r ∷ rs) p h = rw h
max_value-step (v ∷ vs) (r ∷ rs) p h = rw h

max_value-summary :
    (sets : List ScaledNumberSet) (p : Permitted)
    → StatesNoMaximum sets
    → (summary sets p).max_value ≡ p.max_value
unfolding summary
max_value-summary [] p h = refl
max_value-summary (s ∷ ss) p h = max_value-summary ss _ h.1 ∙ max_value-step s.value s.range p h.0

-- Where the ranges of the one permitted value set that is found state no maximum, every value is
-- adjusted to at most 0, as if the maximum were 0.
pub adjust_no_maximum :
    (e : ElectricalConnectionCommon) (parameter_id : ℕ) {d : PermittedValueSet}
    → get_permitted_value_set_for_filter e (parameter_filter (some parameter_id)) ≡ ok (d ∷ [])
    → StatesNoMaximum (sets_of d)
    → (summary (sets_of d) initial).has_range ≡ true
    → (value : ℤ)
    → adjust_value_to_be_within_permitted_values_for_parameter_id e value parameter_id ≤ℤ pos 0
adjust_no_maximum e parameter_id {d} found h r value =
    let bound = adjust_bounds e parameter_id found value r in
    rw (max_value-summary (sets_of d) initial h) at bound
