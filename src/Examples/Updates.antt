-- ===== src/Examples/Updates.antt =====
-- Functions that do what is relied on of spine-go's `UpdateData`.
use eebus_go.Prelude.{
  ℕ, if◌then◌else◌, holds, All, ◌≡◌, refl, ap, true, false, Option, none, some, List, [], ◌∷◌, ◌++◌,
  arith,
}
use eebus_go.Spine.{LimitData, KeyValueData, time_period_element}
use eebus_go.Features.Filter.{listed}
use eebus_go.Features.Server.{updated, refused, UpdateData}
use eebus_go.Features.Server.Laws.{known, IsAppending}
use eebus_go.Features.Server.LoadControl.Merging.{IsMerging, merged}
use eebus_go.Cs.Failsafe.Ranges.{IsOverwriting}

abbrev pub append_update : {T : Type 0} → UpdateData T
append_update c xs none = updated (listed (known c ++ xs))
append_update c xs (some d) = refused "no delete filter is expected"

pub append_update-IsAppending : {T : Type 0} (key : T → Option ℕ) → IsAppending key append_update
append_update-IsAppending key = record { appends = λ c x h. refl }

abbrev pub merge_at : ℕ → LimitData → List LimitData → List LimitData
merge_at id new [] = []
merge_at id new (x ∷ xs) =
    let rest = merge_at id new xs in
    if holds x.limit_id id then merged (record x { time_period = none }) new ∷ xs else x ∷ rest

abbrev pub merge_update : UpdateData LimitData
merge_update (listed xs) (new ∷ []) (some d) = elim d.selector [
  | none ↦ updated (listed xs)
  | some id ↦ updated (listed (merge_at id new xs))
]
merge_update c xs d = refused "a limit and a delete filter are expected"

pub merge_at-placed :
    (before after : List LimitData) (old new : LimitData) (id : ℕ)
    → All (λ (x : LimitData). holds x.limit_id id ≡ false) before
    → old.limit_id ≡ some id
    → merge_at id new (before ++ old ∷ after)
      ≡ before ++ merged (record old { time_period = none }) new ∷ after
merge_at-placed [] after old new id h e =
    let here : holds old.limit_id id ≡ true = ground arith in rw here refl
merge_at-placed (x ∷ before) after old new id h e =
    rw h.0 (ap (λ (l : List LimitData). x ∷ l) (merge_at-placed before after old new id h.1 e))

pub merge_update-IsMerging : IsMerging time_period_element merge_update
merge_update-IsMerging = record {
  merges = λ before after old new id h e e'.
      ap (λ (l : List LimitData). updated (listed l)) (merge_at-placed before after old new id h e);
}

abbrev pub replace_at : ℕ → KeyValueData → List KeyValueData → List KeyValueData
replace_at key new [] = []
replace_at key new (x ∷ xs) =
    let rest = replace_at key new xs in if holds x.key_id key then new ∷ xs else x ∷ rest

abbrev pub replace_update : UpdateData KeyValueData
replace_update (listed xs) (new ∷ []) none = elim new.key_id [
  | none ↦ updated (listed xs)
  | some key ↦ updated (listed (replace_at key new xs))
]
replace_update c xs d = refused "one value is expected"

replace_at-placed :
    (before after : List KeyValueData) (old new : KeyValueData) (key : ℕ)
    → All (λ (x : KeyValueData). holds x.key_id key ≡ false) before
    → old.key_id ≡ some key
    → replace_at key new (before ++ old ∷ after) ≡ before ++ new ∷ after
replace_at-placed [] after old new key h e =
    let here : holds old.key_id key ≡ true = ground arith in rw here refl
replace_at-placed (x ∷ before) after old new key h e =
    rw h.0
      (ap (λ (l : List KeyValueData). x ∷ l) (replace_at-placed before after old new key h.1 e))

pub replace_update-IsOverwriting : IsOverwriting replace_update
replace_update-IsOverwriting = record {
  overwrites = λ before after old key value changeable h e.
      ap (λ (l : List KeyValueData). updated (listed l))
        (replace_at-placed before after old _ key h e);
}
