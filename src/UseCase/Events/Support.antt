-- ===== src/UseCase/Events/Support.antt =====
-- Which scenarios of a use case an entity is found to support.
use eebus_go.Prelude.{
  ℕ, ◌==◌, filter, SameItems, count, count-sort, compare_lists-sort, compare_lists-sort_complete,
  Bool-cases, ◌≡◌, ◌≢◌, ◌⊎◌, ◌↔◌, refl, sym, ap, ◌∙◌, inl, inr, Bool, true, false, ◌&&◌, List, [],
  ◌∷◌, arith,
}
use eebus_go.Spine.{Name}
use eebus_go.UseCase.Remote.{RemoteFeature, RemoteEntity}
use eebus_go.UseCase.Base.{UseCaseScenario, contains, required_server_features_for_scenario}
use eebus_go.UseCase.Events.{
  found_server_features, sort_server_features, has_server_features, supported_scenarios,
}

contains_of_count : (a : ℕ) (xs ys : List ℕ) → SameItems xs ys → contains xs a ≡ contains ys a
contains_of_count a xs ys h = ground (arith, h a, positive a xs, positive a ys)
  where
    positive :
        (b : ℕ) (l : List ℕ)
        → ((contains l b ≡ true) × (count b l ≢ 0)) ⊎ ((contains l b ≡ false) × (count b l ≡ 0))
    positive b [] = inr (refl, refl)
    positive b (x ∷ l) = ground (arith, positive b l)

found-SameItems :
    (xs ys : List Name) (features : List RemoteFeature)
    → SameItems xs ys
    → found_server_features xs features ≡ found_server_features ys features
found-SameItems xs ys [] h = refl
found-SameItems xs ys (f ∷ fs) h =
    ground (arith, contains_of_count f.feature_type xs ys h, found-SameItems xs ys fs h)

-- Sorting the features of one scenario in place changes the order of its features alone.
required-sort :
    (n m : ℕ) (scenarios : List UseCaseScenario)
    → SameItems
        (required_server_features_for_scenario (sort_server_features n scenarios) m)
        (required_server_features_for_scenario scenarios m)
unfolding required_server_features_for_scenario sort_server_features
required-sort n m [] a = refl
required-sort n m (s ∷ ss) a =
    ground (arith, count-sort a s.server_features, required-sort n m ss a)

-- The features of the entity, of those that the scenario requires, are exactly the required ones,
-- each as often.
abbrev pub HasRequired : List UseCaseScenario → RemoteEntity → ℕ → Type 0
HasRequired scenarios entity n =
    let required = required_server_features_for_scenario scenarios n in
    SameItems required (found_server_features required entity.features)

has_server_features_iff :
    (scenarios : List UseCaseScenario) (entity : RemoteEntity) (n : ℕ)
    → (has_server_features scenarios entity n ≡ true) ↔ HasRequired scenarios entity n
unfolding has_server_features
has_server_features_iff scenarios entity n =
    (compare_lists-sort _ _, compare_lists-sort_complete _ _)

Bool_ext : (a b : Bool) → (a ≡ true → b ≡ true) → (b ≡ true → a ≡ true) → a ≡ b
Bool_ext true b h k = sym (h refl)
Bool_ext false true h k = k refl
Bool_ext false false h k = refl

has_server_features-sort :
    (n m : ℕ) (scenarios : List UseCaseScenario) (entity : RemoteEntity)
    → has_server_features (sort_server_features n scenarios) entity m
      ≡ has_server_features scenarios entity m
has_server_features-sort n m scenarios entity =
    let same = required-sort n m scenarios in
    let found = found-SameItems _ _ entity.features same in
    let after = has_server_features_iff (sort_server_features n scenarios) entity m in
    let before = has_server_features_iff scenarios entity m in
    Bool_ext _ _ (λ h. before.1 (λ a. sym (same a) ∙ after.0 h a ∙ ap (count a) found))
      (λ h. after.1 (λ a. same a ∙ before.0 h a ∙ ap (count a) (sym found)))

-- The loop keeps the numbers that pass both tests on the scenarios as they were given.
supported-filter :
    (ns support : List ℕ) (entity : RemoteEntity) (given scenarios : List UseCaseScenario)
    → ((m : ℕ) → has_server_features scenarios entity m ≡ has_server_features given entity m)
    → (supported_scenarios ns support entity scenarios).1
      ≡ filter (λ n. contains support n && has_server_features given entity n) ns
unfolding supported_scenarios
supported-filter [] support entity given scenarios h = refl
supported-filter (n ∷ ns) support entity given scenarios h =
    elim (Bool-cases (contains support n)) [
      | inr absent ↦ rw absent (supported-filter ns support entity given scenarios h)
      | inl listed ↦
          let rest =
            supported-filter ns support entity given (sort_server_features n scenarios)
              (λ m. has_server_features-sort n m scenarios entity ∙ h m) in
          ground (arith, listed, h n, rest)
    ]

contains-filter :
    (p : ℕ → Bool) (n : ℕ) (ns : List ℕ) → contains (filter p ns) n ≡ contains ns n && p n
contains-filter p n [] = refl
contains-filter p n (m ∷ ns) = elim (Bool-cases (m == n)) [
  | inl e ↦ let same : m ≡ n = ground arith in rw same (ground (arith, contains-filter p n ns))
  | inr e ↦ ground (arith, e, contains-filter p n ns)
]

-- A scenario is found to be supported by an entity exactly when it is a scenario of the use case,
-- the remote use case lists it, and the entity's server features of the types that the scenario
-- requires are exactly the required ones, each as often. That the check sorts the use case's own
-- lists in place on its way does not change any of its answers.
pub supported_scenarios_iff :
    (ns support : List ℕ) (entity : RemoteEntity) (scenarios : List UseCaseScenario) (n : ℕ)
    → (contains (supported_scenarios ns support entity scenarios).1 n ≡ true)
      ↔ ((contains ns n ≡ true) × (contains support n ≡ true) × HasRequired scenarios entity n)
supported_scenarios_iff ns support entity scenarios n =
    let loop = supported-filter ns support entity scenarios scenarios (λ m. refl) in
    let member =
      contains-filter (λ m. contains support m && has_server_features scenarios entity m) n ns in
    let features = has_server_features_iff scenarios entity n in
    rw (loop, member)
      (
        (λ h. (ground arith, ground arith, features.0 (ground arith))),
        λ h. ground (arith, features.1 h.2),
      )
