-- ===== src/Features/Server/LoadControl/Merging.antt =====
-- What `UpdateData` of spine-go is relied on for where a limit is written that is there already:
-- the elements of the delete filter are removed from the limit that its selector names, and then
-- the fields that the data sets overwrite its fields. Other limits are kept.
use eebus_go.Prelude.{ℕ, holds, All, ◌≡◌, false, Option, none, some, List, [], ◌∷◌, ◌++◌}
use eebus_go.Spine.{LimitData}
use eebus_go.Features.Filter.{listed}
use eebus_go.Features.Server.{updated, UpdateData}

abbrev pub overwritten {ℓ} : {A : Type ℓ} → Option A → Option A → Option A
overwritten old none = old
overwritten old (some new) = some new

abbrev pub merged : LimitData → LimitData → LimitData
merged old new = record {
  limit_id = overwritten old.limit_id new.limit_id;
  is_limit_changeable = overwritten old.is_limit_changeable new.is_limit_changeable;
  is_limit_active = overwritten old.is_limit_active new.is_limit_active;
  time_period = overwritten old.time_period new.time_period;
  value = overwritten old.value new.value;
}

-- `period` is the element that stands for the time period.
pub record IsMerging (period : ℕ) (update_data : UpdateData LimitData) : Type 0 where
  pub merges :
      (before after : List LimitData) (old new : LimitData) (id : ℕ)
      → All (λ (x : LimitData). holds x.limit_id id ≡ false) before
      → old.limit_id ≡ some id
      → new.limit_id ≡ some id
      → update_data
          (listed (before ++ old ∷ after))
          (new ∷ [])
          (some (record { selector = some id; elements = some (period ∷ []) }))
        ≡ updated (listed (before ++ merged (record old { time_period = none }) new ∷ after))

-- The same without a delete filter: no field is removed.
pub record IsMergingWrite (update_data : UpdateData LimitData) : Type 0 where
  pub merges_write :
      (before after : List LimitData) (old new : LimitData) (id : ℕ)
      → All (λ (x : LimitData). holds x.limit_id id ≡ false) before
      → old.limit_id ≡ some id
      → new.limit_id ≡ some id
      → update_data (listed (before ++ old ∷ after)) (new ∷ []) none
        ≡ updated (listed (before ++ merged old new ∷ after))
