-- ===== src/Features/ElectricalConnection/Adjust/Stated.antt =====
-- How a value is adjusted, by what the permitted value sets state: a description that does not run
-- through the loop over the sets.
use eebus_go.Prelude.{
  if◌then◌else◌, is_empty, not, All, ◌≡◌, Bool, Option, none, some, List, [], ◌∷◌, ◌++◌,
}
use eebus_go.Prelude.Int.{ℤ, pos, ltb_ℤ}
use eebus_go.Spine.{ScaledNumberRange, ScaledNumberSet}
use eebus_go.Features.ElectricalConnection.Adjust.{Permitted, with_value, with_range}

-- What one set states: its first value as the default, and the bounds of its first range.
abbrev pub stated_default : ScaledNumberSet → Option ℤ
stated_default s = go s.value
  where
    go : List ℤ → Option ℤ
    go [] = none
    go (v ∷ vs) = some v

abbrev pub stated_min : ScaledNumberSet → Option ℤ
stated_min s = go s.range
  where
    go : List ScaledNumberRange → Option ℤ
    go [] = none
    go (r ∷ rs) = r.min

abbrev pub stated_max : ScaledNumberSet → Option ℤ
stated_max s = go s.range
  where
    go : List ScaledNumberRange → Option ℤ
    go [] = none
    go (r ∷ rs) = r.max

abbrev pub has_range : ScaledNumberSet → Bool
has_range s = not (is_empty s.range)

-- The number that the last of the sets with such a number states, or none where no set does.
abbrev pub IsLast : (ScaledNumberSet → Option ℤ) → List ScaledNumberSet → Option ℤ → Type 0
IsLast stated sets none = All (λ s. stated s ≡ none) sets
IsLast stated sets (some v) =
    (before : List ScaledNumberSet) × (s : ScaledNumberSet) × (after : List ScaledNumberSet) × (sets
      ≡ before ++ s ∷ after)
    × (stated s ≡ some v)
    × All (λ (t : ScaledNumberSet). stated t ≡ none) after

-- A bound that is not stated is 0.
abbrev pub or_zero : Option ℤ → ℤ
or_zero none = pos 0
or_zero (some v) = v

-- A value below the minimum becomes the default, if there is one, and not the minimum.
abbrev pub raised : Option ℤ → ℤ → ℤ → ℤ
raised none lo value = value
raised (some default) lo value = if ltb_ℤ value lo then default else value

abbrev pub at_most : ℤ → ℤ → ℤ
at_most hi value = if ltb_ℤ hi value then hi else value

-- One turn of the loop.
abbrev turn : ScaledNumberSet → Permitted → Permitted
turn s p = with_range s.range (with_value s.value p)

abbrev kept_or : {A : Type 0} → (ℤ → A) → Option ℤ → A → A
kept_or g none old = old
kept_or g (some v) old = g v
