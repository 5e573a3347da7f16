-- ===== src/UseCase/Base/Distinct.antt =====
-- Entries with distinct addresses, when the list is updated and when an entry is removed.
use eebus_go.Prelude.{
  ℕ, zero, suc, if◌then◌else◌, compare_lists, filter, any, not, Bool-cases, All, All-append, ◌≡◌,
  refl, sym, ap, ◌∙◌, inl, inr, Bool, true, false, some, List, [], ◌∷◌, ◌++◌, arith,
}
use native.Mathlib.Nat.{zero-add}
use eebus_go.UseCase.Remote.{RemoteDevice, RemoteEntity, same_address}
use eebus_go.UseCase.Base.{
  RemoteEntityScenarios, UseCaseBase, is_entry_of, remove_index, set_scenarios,
  entitiy_scenario_index_of_entity, update_remote_entity_scenarios,
  remove_entity_index_from_available_entity_scenarios,
  remove_entity_from_available_entity_scenarios, remove_device_from_available_entity_scenarios,
}
use eebus_go.UseCase.Base.Entries.{
  Entries, index_from-cases, FoundAt, same_address_sym, same_address_trans,
}
use eebus_go.UseCase.Base.Removal.{remove_device_from_available_entity_scenarios_lem}

abbrev pub Differs : RemoteEntityScenarios → RemoteEntityScenarios → Type 0
Differs x y = same_address x.entity.address y.entity.address ≡ false

abbrev pub IsDistinct : Entries → Type 0
IsDistinct [] = Unit
IsDistinct (x ∷ xs) = All (Differs x) xs × IsDistinct xs

Differs-set_scenarios :
    (x : RemoteEntityScenarios) (i : ℕ) (s : List ℕ) (xs : Entries)
    → All (Differs x) xs
    → All (Differs x) (set_scenarios i s xs)
unfolding set_scenarios
Differs-set_scenarios x i s [] h = tt
Differs-set_scenarios x zero s (y ∷ ys) h = h
Differs-set_scenarios x (suc i) s (y ∷ ys) h = (h.0, Differs-set_scenarios x i s ys h.1)

IsDistinct-set_scenarios :
    (i : ℕ) (s : List ℕ) (xs : Entries) → IsDistinct xs → IsDistinct (set_scenarios i s xs)
unfolding set_scenarios
IsDistinct-set_scenarios i s [] h = tt
IsDistinct-set_scenarios zero s (y ∷ ys) h = h
IsDistinct-set_scenarios (suc i) s (y ∷ ys) h =
    (Differs-set_scenarios y i s ys h.0, IsDistinct-set_scenarios i s ys h.1)

IsDistinct-append :
    (e : RemoteEntity) (s : List ℕ) (xs : Entries)
    → All (λ (x : RemoteEntityScenarios). is_entry_of e x ≡ false) xs
    → IsDistinct xs
    → IsDistinct (xs ++ record { entity = e; scenarios = s } ∷ [])
IsDistinct-append e s [] k h = (tt, tt)
IsDistinct-append e s (x ∷ xs) k h = (
  All-append (Differs x) xs _ h.0 (same_address_sym x.entity.address e.address ∙ k.0, tt),
  IsDistinct-append e s xs k.1 h.1,
)

All-filter :
    (P : RemoteEntityScenarios → Type 0) (p : RemoteEntityScenarios → Bool) (xs : Entries)
    → All P xs
    → All P (filter p xs)
All-filter P p [] h = tt
All-filter P p (x ∷ xs) h = elim (Bool-cases (p x)) [
  | inl e ↦ rw e (h.0, All-filter P p xs h.1)
  | inr e ↦ rw e (All-filter P p xs h.1)
]

IsDistinct-filter :
    (p : RemoteEntityScenarios → Bool) (xs : Entries) → IsDistinct xs → IsDistinct (filter p xs)
IsDistinct-filter p [] h = tt
IsDistinct-filter p (x ∷ xs) h = elim (Bool-cases (p x)) [
  | inl e ↦ rw e (All-filter (Differs x) p xs h.0, IsDistinct-filter p xs h.1)
  | inr e ↦ rw e (IsDistinct-filter p xs h.1)
]

-- Behind an entry of the entity no other entry is one of it.
rest_kept :
    (e : RemoteEntity) (x : RemoteEntityScenarios) (xs : Entries)
    → is_entry_of e x ≡ true
    → All (Differs x) xs
    → filter (λ (y : RemoteEntityScenarios). not (is_entry_of e y)) xs ≡ xs
rest_kept e x [] h k = refl
rest_kept e x (y ∷ ys) h k = ground (
  arith,
  rest_kept e x ys h k.1,
  k.0,
  same_address_trans e.address x.entity.address y.entity.address h,
)

remove_found :
    (i : ℕ) (e : RemoteEntity) (sc : List ℕ) (xs : Entries)
    → FoundAt i e sc xs
    → IsDistinct xs
    → remove_index i xs ≡ filter (λ (y : RemoteEntityScenarios). not (is_entry_of e y)) xs
unfolding remove_index
remove_found i e sc [] f d = absurd f
remove_found zero e sc (x ∷ xs) f d = rw f.0 (sym (rest_kept e x xs f.0 d.0))
remove_found (suc i) e sc (x ∷ xs) f d =
    rw f.0 (ap (λ (l : Entries). x ∷ l) (remove_found i e sc xs f.1 d.1))

none_kept :
    (e : RemoteEntity) (xs : Entries)
    → All (λ (x : RemoteEntityScenarios). is_entry_of e x ≡ false) xs
    → filter (λ (y : RemoteEntityScenarios). not (is_entry_of e y)) xs ≡ xs
none_kept e [] h = refl
none_kept e (x ∷ xs) h = ground (arith, h.0, none_kept e xs h.1)

-- An update keeps the addresses of the entries distinct.
pub update_remote_entity_scenarios-IsDistinct :
    (u : UseCaseBase) (e : RemoteEntity) (s : List ℕ)
    → IsDistinct u.available_entity_scenarios
    → IsDistinct (update_remote_entity_scenarios u e s).0.available_entity_scenarios
unfolding entitiy_scenario_index_of_entity update_remote_entity_scenarios
update_remote_entity_scenarios-IsDistinct u e s h =
    elim (index_from-cases 0 e u.available_entity_scenarios) [
      | inl r ↦
          rw (r.0, update_remote_entity_scenarios)
            (IsDistinct-append e s u.available_entity_scenarios r.1 h)
      | inr r ↦ elim (Bool-cases (compare_lists r.1 s)) [
        | inl same ↦ rw (r.2, update_remote_entity_scenarios, same) h
        | inr differ ↦
            rw (r.2, update_remote_entity_scenarios, differ)
              (IsDistinct-set_scenarios _ s u.available_entity_scenarios h)
      ]
    ]

none-any :
    (e : RemoteEntity) (xs : Entries)
    → All (λ (x : RemoteEntityScenarios). is_entry_of e x ≡ false) xs
    → any (is_entry_of e) xs ≡ false
none-any e [] h = refl
none-any e (x ∷ xs) h = ground (arith, h.0, none-any e xs h.1)

FoundAt-any :
    (i : ℕ) (e : RemoteEntity) (sc : List ℕ) (xs : Entries)
    → FoundAt i e sc xs
    → any (is_entry_of e) xs ≡ true
FoundAt-any i e sc [] f = absurd f
FoundAt-any zero e sc (x ∷ xs) f = rw f.0
FoundAt-any (suc i) e sc (x ∷ xs) f = rw f.0 (FoundAt-any i e sc xs f.1)

-- Where the entries have distinct addresses, removing an entity leaves exactly the entries of
-- other addresses, in their order, and changes nothing else; with a callback set, one event that
-- names the entity is raised if it had an entry, and none otherwise.
pub remove_entity_from_available_entity_scenarios_lem :
    (u : UseCaseBase) (e : RemoteEntity)
    → IsDistinct u.available_entity_scenarios
    → remove_entity_from_available_entity_scenarios u e ≡ (
      record u {
        available_entity_scenarios =
            filter
              (λ (x : RemoteEntityScenarios). not (is_entry_of e x))
              u.available_entity_scenarios;
      },
      if any (is_entry_of e) u.available_entity_scenarios
          then (if u.event_cb then record { device = e.device; entity = some e } ∷ [] else [])
          else [],
    )
unfolding remove_entity_from_available_entity_scenarios entitiy_scenario_index_of_entity
    remove_entity_index_from_available_entity_scenarios
remove_entity_from_available_entity_scenarios_lem u e d =
    elim (index_from-cases 0 e u.available_entity_scenarios) [
      | inl r ↦ rw (
        r.0,
        remove_entity_from_available_entity_scenarios,
        none_kept e u.available_entity_scenarios r.1,
        none-any e u.available_entity_scenarios r.1,
      )
      | inr r ↦ rw (
        r.2,
        remove_entity_from_available_entity_scenarios,
        zero-add,
        remove_found r.0 e r.1 u.available_entity_scenarios r.3 d,
        FoundAt-any r.0 e r.1 u.available_entity_scenarios r.3,
      )
    ]

pub remove_entity_from_available_entity_scenarios-IsDistinct :
    (u : UseCaseBase) (e : RemoteEntity)
    → IsDistinct u.available_entity_scenarios
    → IsDistinct (remove_entity_from_available_entity_scenarios u e).0.available_entity_scenarios
remove_entity_from_available_entity_scenarios-IsDistinct u e d =
    rw (remove_entity_from_available_entity_scenarios_lem u e d) (IsDistinct-filter _ _ d)

pub remove_device_from_available_entity_scenarios-IsDistinct :
    (u : UseCaseBase) (device : RemoteDevice)
    → IsDistinct u.available_entity_scenarios
    → IsDistinct
        (remove_device_from_available_entity_scenarios u device).0.available_entity_scenarios
remove_device_from_available_entity_scenarios-IsDistinct u device d =
    rw (remove_device_from_available_entity_scenarios_lem u device) (IsDistinct-filter _ _ d)
