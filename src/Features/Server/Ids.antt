-- ===== src/Features/Server/Ids.antt =====
-- The search for the next free id, which the operations that add a description share.
use eebus_go.Prelude.{
  Bool-cases, inl, inr, refl, ℕ, ◌+◌, ◌%◌, ◌^◌, ◌≤◌, ◌<◌, leb, if◌then◌else◌, All, ◌≡◌, Option,
  none, some, List, [], ◌∷◌, arith,
}

-- Identifiers are Go's `uint`, on a 64-bit platform.
abbrev pub uint_mod : ℕ
uint_mod = 2 ^ 64

-- `for _, item := range data { if item.Id != nil && *item.Id >= maxId { maxId = *item.Id + 1 } }`
unfoldable pub max_id : List (Option ℕ) → ℕ → ℕ
max_id [] m = m
max_id (none ∷ ids) m = max_id ids m
max_id (some id ∷ ids) m = max_id ids (if leb m id then (id + 1) % uint_mod else m)

-- No id is the largest `uint`, so that adding 1 does not wrap.
abbrev pub NoLargest : List (Option ℕ) → Type 0
NoLargest = All (λ (o : Option ℕ). (id : ℕ) → o ≡ some id → id + 1 < uint_mod)

abbrev pub AllBelow : ℕ → List (Option ℕ) → Type 0
AllBelow m = All (λ (o : Option ℕ). (id : ℕ) → o ≡ some id → id < m)

pub AllBelow-weaken : (m n : ℕ) (ids : List (Option ℕ)) → m ≤ n → AllBelow m ids → AllBelow n ids
AllBelow-weaken m n [] h k = tt
AllBelow-weaken m n (o ∷ ids) h k =
    ((λ id e. omega (arith, k.0 id e)), AllBelow-weaken m n ids h k.1)

-- One turn of the loop.
max_id-step :
    (id m : ℕ)
    → id + 1 < uint_mod
    → let m' = if leb m id then (id + 1) % uint_mod else m in (m ≤ m') × (id < m')
max_id-step id m h = elim (Bool-cases (leb m id)) [
  | inl e ↦ rw e (ground arith, ground arith)
  | inr e ↦ rw e (ground arith, ground arith)
]

-- The id that is found is at least the start, and above every id in use.
pub max_id-AllBelow :
    (ids : List (Option ℕ)) (m : ℕ)
    → NoLargest ids
    → (m ≤ max_id ids m) × AllBelow (max_id ids m) ids
unfolding max_id
max_id-AllBelow [] m h = (omega arith, tt)
max_id-AllBelow (none ∷ ids) m h =
    let rest = max_id-AllBelow ids m h.1 in (rest.0, ((λ id e. absurd (cc e)), rest.1))
max_id-AllBelow (some id ∷ ids) m h =
    let step = max_id-step id m (h.0 id refl) in
    let rest = max_id-AllBelow ids (if leb m id then (id + 1) % uint_mod else m) h.1 in
    (omega arith, ((λ j e. ground (arith, rest.0, step.1)), rest.1))
