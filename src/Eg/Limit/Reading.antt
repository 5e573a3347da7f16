-- ===== src/Eg/Limit/Reading.antt =====
-- The limit of a remote entity as the energy guard reads it, and as the entity itself reads it.
use eebus_go.Prelude.{
  ℕ, zero, suc, if◌then◌else◌, any, find?, find?-holds, holds, Bool-cases, Option-cases, ◌≡◌, ◌≢◌,
  refl, inl, inr, true, Option, none, some, List, [], ◌∷◌, arith,
}
use eebus_go.Prelude.Int.{ℤ, pos, negsuc}
use eebus_go.Spine.{LimitDescription, LimitData}
use eebus_go.Errors.{Result, ok, err, data_not_available}
use eebus_go.Features.Filter.{listed, new_local, new_remote, feature_data_copy_of_type}
use eebus_go.Features.LoadControl.{LoadControlFeature, get_limit_descriptions_for_filter}
use eebus_go.Features.LoadControl.Lookup.{describes, carries, get_limit_data_for_id_lem}
use eebus_go.UseCase.Remote.{RemoteEntity}
use eebus_go.UseCase.Base.{UseCaseBase, is_compatible_entity_type}
use eebus_go.UseCase.Limits.{LoadLimit}
use eebus_go.Internal.LocalEntity.{LocalEntity}
use eebus_go.Cs.State.{Variant}
use eebus_go.Cs.Limit.{limit_filter, duration_of, limit_of, current_limit}
use eebus_go.Cs.Limit.Reading.{reported, current_limit_lem}
use eebus_go.Internal.Clients.{Remote}
use eebus_go.Eg.Limit.{remote_limit_filter, remote_limit_of, read_remote_limit, remote_limit}

-- The limit that is found under an id, as the energy guard reports it.
abbrev pub remote_reported : Option LimitData → Result LoadLimit
remote_reported none = err data_not_available
remote_reported (some x) = elim x.value [
  | none ↦ err data_not_available
  | some value ↦ ok (remote_limit_of x value)
]

same_limit :
    (x : LimitData) (value : ℤ) (o : Option ℤ)
    → duration_of x ≡ o
    → o ≢ some (pos 0)
    → limit_of x value ≡ remote_limit_of x value
same_limit x value none h running = ground (arith, h)
same_limit x value (some (pos zero)) h running = absurd (running refl)
same_limit x value (some (pos (suc n))) h running = ground (arith, h)
same_limit x value (some (negsuc n)) h running = ground (arith, h)

reported-agrees :
    (id : ℕ) (x : LimitData)
    → holds x.limit_id id ≡ true
    → duration_of x ≢ some (pos 0)
    → remote_reported (some x) ≡ reported (some x)
reported-agrees id x h running = elim (Option-cases x.limit_id) [
  | inl n ↦ absurd (ground (arith, h, n))
  | inr (i, e) ↦ elim (Option-cases x.value) [
    | inl n ↦ ground (arith, e, n)
    | inr (value, f) ↦
        let g : limit_of x value ≡ remote_limit_of x value =
          same_limit x value (duration_of x) refl running in
        ground (arith, e, f, g)
  ]
]

module _ (v : Variant) (u : UseCaseBase) (remotes : RemoteEntity → Remote) (e : RemoteEntity)
    {lc : LoadControlFeature} {ds : List LimitDescription} {xs : List LimitData}
    (compatible : is_compatible_entity_type u (some e) ≡ true)
    (copied : (remotes e).remote_data.load_control ≡ some lc)
    (ds_listed : lc.limit_descriptions ≡ listed ds) (xs_listed : lc.limits ≡ listed xs)
    {d : LimitDescription} {id : ℕ}
    (fits : get_limit_descriptions_for_filter (new_remote lc) (remote_limit_filter v) ≡ ok (d ∷ []))
    (has_id : d.limit_id ≡ some id) where
  pub remote_limit_lem :
      remote_limit v u remotes (some e)
      ≡ remote_reported (if any (describes id) ds then find? (carries id) xs else none)
  unfolding remote_limit read_remote_limit feature_data_copy_of_type
  remote_limit_lem = ground (
    arith,
    compatible,
    copied,
    fits,
    has_id,
    get_limit_data_for_id_lem (new_remote lc) ds_listed xs_listed id,
  )

  agree :
      (o : Option LimitData)
      → (if any (describes id) ds then find? (carries id) xs else none) ≡ o
      → ((x : LimitData) → find? (carries id) xs ≡ some x → duration_of x ≢ some (pos 0))
      → remote_reported o ≡ reported o
  agree none h running = refl
  agree (some x) h running = elim (Bool-cases (any (describes id) ds)) [
    | inr n ↦ absurd (ground (arith, h, n))
    | inl e ↦
        let g : find? (carries id) xs ≡ some x = ground (arith, h, e) in
        reported-agrees id x (find?-holds (carries id) xs x g) (running x g)
  ]

  -- Where the copy of the remote entity's load control data is up to date, and one description with
  -- an id fits the use case at both sides, the energy guard reads the limit, or the error, that the
  -- controllable system reads, unless the limit's duration is 0, which makes it inactive at the
  -- controllable system only.
  pub remote_limit-current_limit :
      (entity : LocalEntity)
      → entity.load_control ≡ some lc
      → get_limit_descriptions_for_filter (new_local lc) (limit_filter v) ≡ ok (d ∷ [])
      → ((x : LimitData) → find? (carries id) xs ≡ some x → duration_of x ≢ some (pos 0))
      → remote_limit v u remotes (some e) ≡ current_limit v entity
  remote_limit-current_limit entity has_feature found running = ground (
    arith,
    has_id,
    remote_limit_lem,
    current_limit_lem v entity has_feature ds_listed xs_listed found,
    agree _ refl running,
  )
