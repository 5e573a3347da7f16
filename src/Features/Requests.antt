-- ===== src/Features/Requests.antt =====
-- features/client/feature.go: what a client helper asks of a remote feature. The calls go to
-- spine-go; where one fails, its error is logged by the use cases and nothing else.
use eebus_go.Prelude.{ℕ, if◌then◌else◌, not, Bool, ◌&&◌, Option, none, some, List, [], ◌∷◌}
use eebus_go.Spine.{Name, LimitDescription, Characteristic, generic}
use eebus_go.Errors.{Result, ok, err, panic, message}

-- spineapi.OperationsInterface, as far as it is read here
pub record Operation : Type 0 where
  pub read : Bool
  pub read_partial : Bool
  pub write_partial : Bool

-- The selectors that use cases give to a read, with the fields they set.
pub data Selectors : Type 0 where
  limit_description_selectors : LimitDescription → Selectors
  limit_selectors : Option ℕ → Selectors
  characteristic_selectors : Characteristic → Selectors

-- A call of the local feature, on the remote feature of its type: `SubscribeToRemote`,
-- `BindToRemote`, and `RequestRemoteData` of a function.
pub data Call : Type 0 where
  subscribe_to bind_to : Name → Call
  read_data : Name → Option Selectors → Call

-- Feature: the remote feature's operations, and what spine-go knows of subscription and binding.
pub record ClientFeature : Type 0 where
  pub feature_type : Name
  pub operations : Name → Option Operation
  pub has_subscription : Bool
  pub has_binding : Bool

-- The features of a type and a role that two entities have: `FeatureOfTypeAndRole` of the local
-- entity, `FeatureByEntityTypeAndRole` of the device of the remote one.
pub record Endpoints (L R : Type 0) : Type 0 where
  pub local_feature : Name → Option L
  pub remote_feature : Name → Option R

abbrev pub or_else : {A : Type 0} → Option A → Option A → Option A
or_else none other = other
or_else (some a) other = some a

-- getLocalAndRemoteFeatures
unfoldable pub get_local_and_remote_features :
    {L R : Type 0} → Endpoints L R → Name → Result (L × R)
get_local_and_remote_features e type =
    elim (or_else (e.local_feature type) (e.local_feature generic)) [
      | none ↦ err (message "local feature not found")
      | some l ↦ elim (e.remote_feature type) [
        | none ↦ err (message "remote feature not found")
        | some r ↦ ok (l, r)
      ]
    ]

-- NewFeature, for entities that may be nil.
unfoldable pub new_client_feature :
    {L R : Type 0} → Bool → Bool → Endpoints L R → Name → Result (L × R)
unfolding get_local_and_remote_features
new_client_feature has_local has_remote e type =
    if not has_local
    then err (message "local entity is nil")
    else if not has_remote
    then err (message "remote entity is nil")
    else get_local_and_remote_features e type

-- requestData; the text of its error also names the function. Selectors are dropped where the remote has no partial reads or no partial writes.
unfoldable pub request_data : ClientFeature → Name → Option Selectors → Result Call
request_data f function selectors = elim (f.operations function) [
  | none ↦ err (message "operation is not supported on function")
  | some op ↦
      if op.read
      then ok (read_data function (if op.read_partial && op.write_partial then selectors else none))
      else err (message "operation is not supported on function")
]

-- `if !f.HasSubscription() { _, err := f.Subscribe(); … }`
abbrev pub subscribe_once : ClientFeature → List Call
subscribe_once f = if f.has_subscription then [] else subscribe_to f.feature_type ∷ []

-- `if !f.HasBinding() { _, err := f.Bind(); … }`
abbrev pub bind_once : ClientFeature → List Call
bind_once f = if f.has_binding then [] else bind_to f.feature_type ∷ []

-- A request whose error is logged.
abbrev pub request_logged : ClientFeature → Name → Option Selectors → List Call
request_logged f function selectors = elim (request_data f function selectors) [
  | ok call ↦ call ∷ []
  | err e ↦ []
  | panic ↦ []
]
