-- ===== src/UseCase/Base/Entries.antt =====
-- The entry of an entity after an update.
use eebus_go.Prelude.{
  ℕ, zero, suc, ◌+◌, if◌then◌else◌, compare_lists-eq, Bool-cases, All, ◌≡◌, refl, sym, ap, ◌∙◌, inl,
  inr, ◌⊎◌, true, false, Option, none, some, List, [], ◌∷◌, ◌++◌, arith,
}
use eebus_go.UseCase.Remote.{EntityAddress, RemoteEntity, same_address}
use eebus_go.UseCase.Base.{
  RemoteEntityScenarios, UseCaseBase, is_entry_of, index_from, entitiy_scenario_index_of_entity,
  available_scenarios_for_entity, set_scenarios,
}

abbrev pub Entries : Type 0
Entries = List RemoteEntityScenarios

-- Two addresses that agree are equal.
pub same_address-eq : (a b : Option EntityAddress) → same_address a b ≡ true → a ≡ b
unfolding same_address
same_address-eq none b h = cc
same_address-eq (some a) none h = cc
same_address-eq (some a) (some b) h = ground (arith, compare_lists-eq a.entity b.entity)

-- The scenarios of the first entry of an address.
unfoldable pub entry_of : Option EntityAddress → Entries → Option (List ℕ)
entry_of a [] = none
entry_of a (x ∷ xs) = if same_address a x.entity.address then some x.scenarios else entry_of a xs

-- The entry at an index is the first of the entity.
abbrev pub FoundAt : ℕ → RemoteEntity → List ℕ → Entries → Type 0
FoundAt i e sc [] = ⊥
FoundAt zero e sc (x ∷ xs) = (is_entry_of e x ≡ true) × (x.scenarios ≡ sc)
FoundAt (suc i) e sc (x ∷ xs) = (is_entry_of e x ≡ false) × FoundAt i e sc xs

pub index_from-cases :
    (k : ℕ) (e : RemoteEntity) (xs : Entries)
    → ((index_from k e xs ≡ none) × All (λ (x : RemoteEntityScenarios). is_entry_of e x ≡ false) xs)
      ⊎ ((i : ℕ) × (sc : List ℕ) × (index_from k e xs ≡ some (k + i, sc)) × FoundAt i e sc xs)
unfolding index_from
index_from-cases k e [] = inl (refl, tt)
index_from-cases k e (x ∷ xs) = elim (Bool-cases (is_entry_of e x)) [
  | inl h ↦ inr (0, x.scenarios, rw h (ground arith), (h, refl))
  | inr h ↦ elim (index_from-cases (suc k) e xs) [
    | inl r ↦ inl (rw h r.0, (h, r.1))
    | inr r ↦ inr (suc r.0, r.1, rw h (ground (arith, r.2)), (h, r.3))
  ]
]

pub same_address_sym : (a b : Option EntityAddress) → same_address a b ≡ same_address b a
same_address_sym a b = elim (Bool-cases (same_address a b)) [
  | inl h ↦ let e = same_address-eq a b h in rw e
  | inr h ↦ elim (Bool-cases (same_address b a)) [
    | inl k ↦ let e = same_address-eq b a k in rw e
    | inr k ↦ h ∙ sym k
  ]
]

-- An address that agrees with two others makes them agree.
pub same_address_trans :
    (a b c : Option EntityAddress)
    → same_address a b ≡ true
    → same_address a c ≡ true
    → same_address b c ≡ true
same_address_trans a b c h k = rw (sym (same_address-eq a b h)) k

pub entry_of-append :
    (e : RemoteEntity) (s : List ℕ) (a : Option EntityAddress) (xs : Entries)
    → All (λ (x : RemoteEntityScenarios). is_entry_of e x ≡ false) xs
    → entry_of a (xs ++ record { entity = e; scenarios = s } ∷ [])
      ≡ (if same_address e.address a then some s else entry_of a xs)
unfolding entry_of
entry_of-append e s a [] h = rw (same_address_sym a e.address)
entry_of-append e s a (x ∷ xs) h = ground (
  arith,
  h.0,
  entry_of-append e s a xs h.1,
  same_address_sym e.address a,
  same_address_trans a e.address x.entity.address,
)

pub entry_of-set_scenarios :
    (i : ℕ) (e : RemoteEntity) (sc s : List ℕ) (a : Option EntityAddress) (xs : Entries)
    → FoundAt i e sc xs
    → entry_of a (set_scenarios i s xs)
      ≡ (if same_address e.address a then some s else entry_of a xs)
unfolding entry_of set_scenarios
entry_of-set_scenarios i e sc s a [] h = absurd h
entry_of-set_scenarios zero e sc s a (x ∷ xs) h =
    let same = same_address-eq e.address x.entity.address h.0 in
    rw (sym same, same_address_sym a e.address) (ground arith)
entry_of-set_scenarios (suc i) e sc s a (x ∷ xs) h = ground (
  arith,
  h.0,
  entry_of-set_scenarios i e sc s a xs h.1,
  same_address_sym e.address a,
  same_address_trans a e.address x.entity.address,
)

pub FoundAt-entry_of :
    (i : ℕ) (e : RemoteEntity) (sc : List ℕ) (xs : Entries)
    → FoundAt i e sc xs
    → entry_of e.address xs ≡ some sc
unfolding entry_of
FoundAt-entry_of i e sc [] h = absurd h
FoundAt-entry_of zero e sc (x ∷ xs) h = rw h.0 (ap some h.1)
FoundAt-entry_of (suc i) e sc (x ∷ xs) h = rw h.0 (FoundAt-entry_of i e sc xs h.1)

pub none-entry_of :
    (e : RemoteEntity) (xs : Entries)
    → All (λ (x : RemoteEntityScenarios). is_entry_of e x ≡ false) xs
    → entry_of e.address xs ≡ none
unfolding entry_of
none-entry_of e [] h = refl
none-entry_of e (x ∷ xs) h = rw h.0 (none-entry_of e xs h.1)

-- What `AvailableScenariosForEntity` returns is the first entry of the address.
pub available-entry_of :
    (u : UseCaseBase) (e : RemoteEntity)
    → available_scenarios_for_entity u (some e) ≡ entry_of e.address u.available_entity_scenarios
unfolding available_scenarios_for_entity entitiy_scenario_index_of_entity
available-entry_of u e = elim (index_from-cases 0 e u.available_entity_scenarios) [
  | inl r ↦ rw (r.0, available_scenarios_for_entity) (sym (none-entry_of e _ r.1))
  | inr r ↦ rw (r.2, available_scenarios_for_entity) (sym (FoundAt-entry_of r.0 e r.1 _ r.3))
]
