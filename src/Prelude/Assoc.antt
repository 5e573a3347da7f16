-- ===== src/Prelude/Assoc.antt =====
-- Go's `map` with numeric keys, as an association list without order: `m[k]`, `m[k] = v`,
-- `delete(m, k)`.
use eebus_go.Prelude.Lists.{length}
use Prim.Native.Nat.{◌+◌}
use mathlib.Core.Path.{refl, ◌∙◌}
use mathlib.Core.Logic.{inl, inr}
use eebus_go.Prelude.Tests.{Bool-cases, ◌==◌, if◌then◌else◌}
use Prim.Native.Nat.{ℕ}
use mathlib.Core.Path.{◌≡◌}
use mathlib.Core.Option.{Option, none, some}
use mathlib.Core.List.{List, [], ◌∷◌}
use native.Mathlib.Omega.{arith}

abbrev pub Assoc : Type 0 → Type 0
Assoc V = List (ℕ × V)

module _ {V : Type 0} where
  unfoldable pub lookup : ℕ → Assoc V → Option V
  lookup k [] = none
  lookup k ((j, v) ∷ m) = if j == k then some v else lookup k m

  unfoldable pub erase : ℕ → Assoc V → Assoc V
  erase k [] = []
  erase k ((j, v) ∷ m) = let rest = erase k m in if j == k then rest else (j, v) ∷ rest

  unfoldable pub insert : ℕ → V → Assoc V → Assoc V
  unfolding erase
  insert k v m = (k, v) ∷ erase k m

  pub lookup-erase :
      (k j : ℕ) (m : Assoc V) → lookup j (erase k m) ≡ (if k == j then none else lookup j m)
  unfolding lookup erase
  lookup-erase k j [] = ground arith
  lookup-erase k j ((i, v) ∷ m) = ground (arith, lookup-erase k j m)

  pub lookup-insert :
      (k j : ℕ) (v : V) (m : Assoc V)
      → lookup j (insert k v m) ≡ (if k == j then some v else lookup j m)
  unfolding lookup insert
  lookup-insert k j v m = ground (arith, lookup-erase k j m)

-- No key occurs twice.
abbrev pub IsMap : {V : Type 0} → Assoc V → Type 0
IsMap [] = Unit
IsMap ((k, v) ∷ m) = (lookup k m ≡ none) × IsMap m

module _ {V : Type 0} where
  pub erase_absent : (k : ℕ) (m : Assoc V) → lookup k m ≡ none → erase k m ≡ m
  unfolding lookup erase
  erase_absent k [] h = refl
  erase_absent k ((j, v) ∷ m) h = ground (arith, erase_absent k m)

  pub IsMap-erase : (k : ℕ) (m : Assoc V) → IsMap m → IsMap (erase k m)
  unfolding erase
  IsMap-erase k [] h = tt
  IsMap-erase k ((j, v) ∷ m) h = elim (Bool-cases (j == k)) [
    | inl e ↦ rw e (IsMap-erase k m h.1)
    | inr e ↦ rw e ((lookup-erase k j m ∙ ground (arith, h.0)), IsMap-erase k m h.1)
  ]

  pub IsMap-insert : (k : ℕ) (v : V) (m : Assoc V) → IsMap m → IsMap (insert k v m)
  unfolding insert
  IsMap-insert k v m h = ((lookup-erase k k m ∙ ground arith), IsMap-erase k m h)

  -- A key that is there stands in one place.
  pub length-erase :
      (k : ℕ) (m : Assoc V) {v : V}
      → IsMap m
      → lookup k m ≡ some v
      → length (erase k m) + 1 ≡ length m
  unfolding lookup erase
  length-erase k [] h e = cc
  length-erase k ((j, w) ∷ m) h e = elim (Bool-cases (j == k)) [
    | inl same ↦
        let key : j ≡ k = ground arith in rw (same, erase_absent k m (rw key at h.0)) (omega arith)
    | inr differ ↦ rw differ (omega (arith, length-erase k m h.1 (rw differ at e)))
  ]
