-- ===== src/Examples/Services.antt =====
-- A service that is set up, started twice, shut down and started again.
use eebus_go.Prelude.{◌+◌, ◌≤◌, length, ◌≡◌, refl, true, false, none, some, List, [], ◌∷◌}
use Prim.Native.String.{len}
use eebus_go.Errors.{ok, data_not_available}
use eebus_go.Service.{
  Configuration, LocalDevice, Service, SetupCalls, HubCall, hub_start, hub_shutdown, new_service,
  setup, start, shutdown, device_address,
}
use eebus_go.Service.Running.{
  Reach, here, next, starts, shuts_down, follow, Reach-follow, Reach-start-shutdown,
}
use eebus_go.Service.Addresses.{IsNumbered, setup_lem}

abbrev configuration : Configuration
configuration = record {
  has_certificate = true;
  vendor_code = "";
  device_brand = "Demo";
  device_model = "HEMS";
  device_serial_number = "123456789";
  identifier = "Demo-HEMS-123456789";
  entity_types = 2 ∷ [];
}

abbrev calls : SetupCalls
calls = record {
  certificate_error = none;
  details_error = none;
  is_number = λ text. false;
  initial_entities = record { entity_type = 0; address = 0 } ∷ [];
  hub_error = none;
}

setup_succeeds : (setup calls (new_service configuration)).1 ≡ ok tt
unfolding setup device_address
setup_succeeds = refl

setup_lem_example :
    let (s', result) = setup calls (new_service configuration) in
    (s'.has_hub ≡ true)
    × (s'.has_local_service ≡ true)
    × ((device : LocalDevice) × (s'.spine_local_device ≡ some device)
        × (len device.address ≤ 256)
        × IsNumbered 0 device.entities
        × (length device.entities ≡ 1 + 1))
setup_lem_example = setup_lem calls (new_service configuration) (refl, tt) setup_succeeds

abbrev ready : Service
ready = record (new_service configuration) { has_hub = true; has_local_service = true }

-- The hub refuses the first start.
abbrev history : List HubCall
history = hub_start false ∷ hub_start true ∷ hub_shutdown ∷ hub_start true ∷ []

lived : Reach ready (record ready { is_running = true }) history
unfolding start shutdown
lived =
    next
      (next (next (next (next here (starts (some data_not_available))) (starts none)) (starts none))
        shuts_down)
      (starts none)

Reach-follow_example : (ready.has_hub ≡ true) × (follow false history ≡ some true)
Reach-follow_example = Reach-follow refl lived

Reach-start-shutdown_example :
    let running = record ready { is_running = true } in
    ((start none running).0.is_running ≡ true)
    × ((start none running).2 ≡ ok tt)
    × ((shutdown running).0.is_running ≡ false)
    × ((shutdown running).2 ≡ ok tt)
Reach-start-shutdown_example = Reach-start-shutdown refl lived
