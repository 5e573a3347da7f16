-- ===== src/Service/Addresses.antt =====
-- The local device that Setup makes.
use Prim.Native.String.{len}
use eebus_go.Prelude.{
  ℕ, suc, ◌+◌, ◌≤◌, ltb, length, Bool-cases, Option-cases, ◌≡◌, refl, inl, inr, true, false, some,
  List, [], ◌∷◌, ◌++◌, arith,
}
use eebus_go.Spine.{Name}
use eebus_go.Errors.{ok}
use eebus_go.Service.{Service, Entity, LocalDevice, SetupCalls, device_address, add_entities, setup}

-- The addresses of entities count up from a number.
abbrev pub IsNumbered : ℕ → List Entity → Type 0
IsNumbered n [] = Unit
IsNumbered n (x ∷ xs) = (x.address ≡ n) × IsNumbered (suc n) xs

append-IsNumbered :
    (n : ℕ) (xs : List Entity) (x : Entity)
    → IsNumbered n xs
    → x.address ≡ n + length xs
    → IsNumbered n (xs ++ x ∷ [])
append-IsNumbered n [] x h e = (omega (arith, e), tt)
append-IsNumbered n (y ∷ ys) x h e = (h.0, append-IsNumbered (suc n) ys x h.1 (omega (arith, e)))

length-append_one : (xs : List Entity) (x : Entity) → length (xs ++ x ∷ []) ≡ suc (length xs)
length-append_one [] x = refl
length-append_one (y ∷ ys) x = ground (arith, length-append_one ys x)

add_entities-IsNumbered :
    (types : List Name) (xs : List Entity)
    → IsNumbered 0 xs
    → IsNumbered 0 (add_entities types xs)
      × (length (add_entities types xs) ≡ length xs + length types)
unfolding add_entities
add_entities-IsNumbered [] xs h = (h, omega arith)
add_entities-IsNumbered (type ∷ types) xs h =
    let x : Entity = record { entity_type = type; address = length xs } in
    let rest =
      add_entities-IsNumbered types (xs ++ x ∷ []) (append-IsNumbered 0 xs x h (omega arith)) in
    (rest.0, omega (arith, rest.1, length-append_one xs x))

-- What a Setup with no error returns.
abbrev made : SetupCalls → Service → Service
made calls s = record s {
  has_local_service = true;
  has_hub = true;
  spine_local_device = some (record {
    address = device_address calls.is_number s.configuration;
    entities = add_entities s.configuration.entity_types calls.initial_entities;
  });
}

setup-made :
    (calls : SetupCalls) (s : Service)
    → (setup calls s).1 ≡ ok tt
    → (setup calls s ≡ (made calls s, ok tt))
      × (ltb 256 (len (device_address calls.is_number s.configuration)) ≡ false)
unfolding setup
setup-made calls s h = elim (Bool-cases s.configuration.has_certificate) [
  | inr n ↦ absurd (ground (arith, h, n))
  | inl e1 ↦ elim (Option-cases calls.certificate_error) [
    | inr (x, n) ↦ absurd (ground (arith, h, e1, n))
    | inl e2 ↦ elim (Option-cases calls.details_error) [
      | inr (x, n) ↦ absurd (ground (arith, h, e1, e2, n))
      | inl e3 ↦
          elim (Bool-cases (ltb 256 (len (device_address calls.is_number s.configuration)))) [
            | inl n ↦ absurd (ground (arith, h, e1, e2, e3, n))
            | inr e4 ↦ elim (Option-cases calls.hub_error) [
              | inr (x, n) ↦ absurd (ground (arith, h, e1, e2, e3, e4, n))
              | inl e5 ↦ (ground (arith, e1, e2, e3, e4, e5), e4)
            ]
          ]
    ]
  ]
]

-- A Setup that succeeds leaves a hub and a local device with an address of at most 256 bytes. The
-- device has one entity for each entity type of the configuration besides those that a new device
-- has, and if the addresses of these count up from 0, the addresses of all entities do.
pub setup_lem :
    (calls : SetupCalls) (s : Service)
    → IsNumbered 0 calls.initial_entities
    → let (s', result) = setup calls s in
      result ≡ ok tt
      → (s'.has_hub ≡ true)
        × (s'.has_local_service ≡ true)
        × ((device : LocalDevice) × (s'.spine_local_device ≡ some device)
            × (len device.address ≤ 256)
            × IsNumbered 0 device.entities
            × (length device.entities
                ≡ length calls.initial_entities + length s.configuration.entity_types))
setup_lem calls s numbered success =
    let (e, short) = setup-made calls s success in
    let added =
      add_entities-IsNumbered s.configuration.entity_types calls.initial_entities numbered in
    rw e (
      refl,
      refl,
      (
        record {
          address = device_address calls.is_number s.configuration;
          entities = add_entities s.configuration.entity_types calls.initial_entities;
        },
        refl,
        ground (arith, short),
        added.0,
        added.1,
      ),
    )
