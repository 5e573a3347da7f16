-- ===== src/Eg/Limit/Taken.antt =====
-- What a limit that is written changes at the entity that takes it: the limit that it carries the id
-- of, and what is read of it then.
use eebus_go.Prelude.{
  ℕ, if◌then◌else◌, find?, find?-holds, filter, holds, Option-cases, append-nil, head?, is_set,
  zero, suc, ◌≡◌, sym, ap, ◌∙◌, inl, inr, Bool, true, false, Option, none, some, List, [], ◌∷◌,
  arith,
}
use eebus_go.Prelude.Int.{ℤ, pos, negsuc, ltb_ℤ}
use eebus_go.Spine.{LimitDescription, LimitData}
use eebus_go.Errors.{ok}
use eebus_go.Features.Filter.{listed, new_remote, feature_data_copy_of_type}
use eebus_go.Features.Structs.{limit_data_struct}
use eebus_go.Features.LoadControl.{
  LoadControlFeature, get_limit_descriptions_for_filter, get_limit_data_for_filter,
}
use eebus_go.Features.LoadControl.Lookup.{carries, search_described}
use eebus_go.UseCase.Limits.{LoadLimit}
use eebus_go.Cs.Limit.{duration_of, limit_of}
use eebus_go.Features.Filter.Keyed.{head?-filter}

-- The one limit that carries an id.
pub only-carries :
    (id : ℕ) (xs : List LimitData) (x : LimitData)
    → filter (carries id) xs ≡ x ∷ []
    → x.limit_id ≡ some id
only-carries id xs x h =
    let first : find? (carries id) xs ≡ some x = sym (head?-filter (carries id) xs) ∙ ap head? h in
    let carried : holds x.limit_id id ≡ true = find?-holds (carries id) xs x first in
    elim (Option-cases x.limit_id) [
      | inl n ↦ absurd (ground (arith, n, carried))
      | inr (i, e) ↦ ground (arith, e, carried)
    ]

pub current_data :
    (lc : LoadControlFeature) (example : LimitDescription) (xs : List LimitData)
    (d : LimitDescription) (id : ℕ)
    → lc.limits ≡ listed xs
    → get_limit_descriptions_for_filter (new_remote lc) example ≡ ok (d ∷ [])
    → d.limit_id ≡ some id
    → get_limit_data_for_filter (new_remote lc) example ≡ ok (filter (carries id) xs)
unfolding get_limit_data_for_filter feature_data_copy_of_type get_limit_descriptions_for_filter
current_data lc example xs d id xs_listed fits has_id =
    rw (fits, xs_listed, search_described id xs d (ground (arith, has_id)), append-nil)

-- The duration that stands at the controllable system after the write: a limit without a duration
-- of its own removes the old one only where that is asked for.
abbrev pub taken_duration : LoadLimit → LimitData → Option ℤ
taken_duration limit old =
    if ltb_ℤ (pos 0) limit.duration
    then some limit.duration
    else if limit.delete_duration
    then none
    else duration_of old

abbrev pub ends : Option ℤ → Bool
ends (some (pos zero)) = true
ends _ = false

-- The limit that the controllable system then reads.
abbrev pub taken_limit : (ℤ → ℤ) → LoadLimit → LimitData → LoadLimit
taken_limit new_scaled_number limit old = record {
  duration = elim (taken_duration limit old) [ none ↦ pos 0 | some t ↦ t ];
  is_changeable = is_set old.is_limit_changeable;
  is_active = if ends (taken_duration limit old) then false else limit.is_active;
  value = new_scaled_number limit.value;
  delete_duration = false;
}

pub limit_of_lem :
    (x : LimitData) (value : ℤ) (o : Option ℤ)
    → duration_of x ≡ o
    → limit_of x value ≡ record {
      duration = elim o [ none ↦ pos 0 | some t ↦ t ];
      is_changeable = is_set x.is_limit_changeable;
      is_active = if ends o then false else is_set x.is_limit_active;
      value = value;
      delete_duration = false;
    }
limit_of_lem x value none h = ground (arith, h)
limit_of_lem x value (some (pos zero)) h = ground (arith, h)
limit_of_lem x value (some (pos (suc n))) h = ground (arith, h)
limit_of_lem x value (some (negsuc n)) h = ground (arith, h)
