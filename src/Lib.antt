-- ===== src/Lib.antt =====
-- eebus-go: use cases of the EEBUS protocol on top of the SPINE model (spine-go) and the SHIP
-- transport (ship-go).
--
-- A feature is a set of data sets (load control, measurement, device configuration, electrical
-- connection) on a local entity, as a server, or on a remote one. features/internal reads a
-- feature's data by example, features/server writes the data of a local feature, features/client
-- writes to a remote one. A use case (usecases/) embeds a base (usecases/usecase) that keeps the
-- list of remote entities which support it, with their scenarios, and combines features into
-- operations for an application. The use cases here: the limitation of power consumption and
-- production, at the controllable system (usecases/cs/lpc, usecases/cs/lpp) and at the energy guard
-- (usecases/eg); the monitoring of power consumption and of the grid connection point (usecases/ma);
-- the commissioning and the charging of an EV, the readings and the optimization by a heat pump
-- compressor of an energy management system (usecases/cem). An energy
-- guard writes a limit or a failsafe value; spine-go hands the write to a callback of the use case at
-- the controllable system, which asks the application and waits for its decision. A service
-- (service/) sets up the local device and the hub of connections, and starts and stops the hub.
--
-- The modules:
--   Spine          the data sets, events, messages and constants of spine-go that the code names
--   Errors         api/errors.go, and the results of calls: a value, an error or a panic
--   Features       features/internal: Filter (helper.go), LoadControl, Measurement,
--                  DeviceConfiguration, ElectricalConnection, one module per file, and Structs, the
--                  fields of the structs that are searched by reflection
--   Features.Server, Features.Client, Features.Requests
--                  features/server, the writes of features/client, and its feature.go; `add_…` and
--                  `update_…` are AddX and UpdateX
--   UseCase        usecases/usecase: Base (usecase.go), Events (events.go); Remote is what they see
--                  of a remote device; Limits has the limits of usecases/api, Features the loop that
--                  adds the features of a client
--   Internal       usecases/internal: Configuration (deviceconfiguration.go), ElectricalConnection,
--                  LoadControl and Measurement; LocalEntity is the local entity with its features,
--                  Clients what a client sees of a remote entity, Readers what the use cases that read
--                  measurements share
--   Cs             usecases/cs: State, Limit, Failsafe, NominalMax (public.go), Approval and
--                  ConfigurationApproval (the write callbacks of usecase.go and the decisions of
--                  public.go), Events (events.go), AddFeatures; Lpc and Lpp give the operations under
--                  the names of the two packages, whose texts differ in these names alone
--   Eg             usecases/eg: Limit and Failsafe (public.go), Events (events.go), and Lpc and Lpp as
--                  above; Limit.Exchange composes the energy guard with the controllable system
--   Ma             usecases/ma: Mpc and Mgcp, one module per package
--   Cem            usecases/cem: Charging is what opev and oscev share, with Opev and Oscev; Evcem, Evsoc,
--                  Vabd and Vapd, one module per package; Ohpcf, with Info and Commands (public.go) and
--                  Events (events.go); Evcc, with Events and Responses (results.go), and Evsecc, with what
--                  both share in Commissioning
--   Service        service/: service.go, and Callbacks (service_hub.go)
--   Examples       concrete data and the theorems at them
--
-- Operations take the state and return it with their result. Calls to the outside (answers to
-- writes, calls of the application's callback, subscriptions and requests) are lists of effects in their order;
-- the command that a remote write sends is its result. The code guards its maps and lists with
-- locks, so one operation is one step; a call that it starts as a goroutine stands where it is
-- started. Nil pointers are `none`, a nil dereference that the code can reach is the result `panic`.
--
-- Numbers: ids and message counters are natural numbers; the search for the next free id keeps the
-- wrap-around of a 64-bit `uint`. Values that the code only compares and hands on (float64 readings,
-- durations in nanoseconds) are whole numbers in a fixed unit: rounding and NaN are not modelled.
-- All loops are structural recursion on lists, so no fuel is needed.
--
-- spine-go is not modelled: `UpdateData` is a parameter of each operation that writes, and a theorem
-- that relies on it takes one of the laws IsAppending, IsMerging and IsOverwriting, which the
-- functions of Examples.Updates satisfy; `NewScaledNumberType`, `NewDurationType` and the reading of
-- a time period are functions, `HasSubscriptionToRemote` a test. A use case of a client sees a remote
-- entity as Internal.Clients.Remote: the features that its helpers find, with the data that spine-go
-- holds of them; a helper that cannot be made is `none`. Of ship-go, what the hub returns is an argument
-- of the operation that calls it. Also left out are the heartbeat manager, the announcement of a use
-- case, SHIP pairing, the use cases of the other actors (cem/cevc; mu, gcp and ca;
-- the temperatures of ma), and logging.
pub mod Prelude
pub mod Spine
pub mod Errors
pub mod Features
pub mod UseCase
pub mod Internal
pub mod Cs
pub mod Eg
pub mod Ma
pub mod Cem
pub mod Service
pub mod Examples
