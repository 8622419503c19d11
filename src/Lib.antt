-- ===== src/Lib.antt =====
-- A verification library for the Nebularr operator, which brings media services (Radarr, Sonarr,
-- Lidarr, Readarr, Prowlarr) to the state that Kubernetes resources describe.
--
-- The program. A controller (internal/controller) reads a custom resource and resolves its secrets. The
-- compiler (internal/compiler) turns it into an intermediate representation (internal/ir/v1): it
-- expands presets (internal/presets) and prunes what the service does not support. An adapter
-- (internal/adapters) reports the current state of the service as such a representation, compares the
-- two with the shared diffs into a change set, and applies the change set.
--
-- The files:
--   Ir            internal/ir/v1: every struct as a record
--   Changes       internal/adapters/adapter.go and shared/apply.go: ChangeSet, ApplyResult, ApplyChanges
--   Diff          internal/adapters/diff.go, shared/delayprofiles.go and shared/remotepathmappings.go:
--                 one file for a kind of resource; Diff/Keyed is the shape that the diffs by name share
--                 (index both sides in maps, a loop over the desired map, a loop over the current map), and
--                 Diff/Keyed/Service the specification: a service that carries out a change set,
--                 and refuses an update or a delete without the id of its resource where the adapters
--                 send that id
--   Presets       internal/presets: the tables, the overrides, the expansion
--   Compiler      internal/compiler: types.go, resources.go, features.go, prune.go, compiler.go;
--                 Compiler/Convert is radarr.go and prowlarr.go: from a custom resource to the compiler's
--                 input, or for Prowlarr straight to the representation
--   Api           api/v1alpha1: the custom resources as far as the program reads and writes them
--   Prowlarr      internal/prowlarr/registration.go: Register and Unregister; Prowlarr/Server is the
--                 specification, a server that stores applications
--   Adapters      internal/adapters/adapter.go: the interface as a record; registry.go
--   Shared        internal/adapters/shared: applydirect.go, authentication.go, health.go, tags.go, clients.go
--                 and resources.go; Shared/Resources has also the conversions of download clients and indexers in
--                 internal/adapters/sonarr and lidarr (clients.go, indexers.go, apply.go)
--   Controller    internal/controller/reconciler.go: ReconcileConfig, CleanupManagedResources,
--                 ApplyDirectConfig, SetCondition, the resolution of secrets; Controller/Generic is
--                 generic_arr_reconciler.go: one reconciliation of an object, with its deletion, its
--                 registration with Prowlarr and the report of its health;
--                 Controller/Coordinator is prowlarr_coordinator_controller.go: the registration of all
--                 services that refer to a Prowlarr
--   Common        equality, maps, lists, integers, results, texts (strings and strconv), and the orders in
--                 which Go visits a map
--   Tests         the theorems at concrete inputs
--
-- How Go is modelled. A pointer that may be nil is an Option, a slice a List (nil and empty are one;
-- where the program tells them apart, an Option of a List), a map an association list with one entry
-- for a key. `for range` over a map takes an order as a parameter (Common/Range), and the theorems hold
-- for every order. An int is an integer without bound: the program copies and compares these numbers,
-- and counts resources; no length of a list in memory reaches 2^63; `strconv.Atoi` has the range of an
-- int. A text is compared and cut by its characters, and `strings.ToLower` is that of the letters A to
-- Z. A float64 is its bits or an integer, and never computed with. An error is its message. What talks
-- to the outside takes a state of the outside world and returns the next one. A panic is a value
-- (Adapters/Registry); an adapter may return nil without an error where a caller reads it, except for
-- the capabilities and the health. Loops are structural recursion; only the printing of a number (Common/Fallible)
-- runs on fuel, one round more than the number, which has fewer digits than that.
--
-- Parameters: the Kubernetes client, the recorder of events and `controllerutil` (its functions on
-- finalizers do what is documented: add, remove one, keep the others); the digest of the compiler's
-- input (JSON and SHA-256), the clock, the HTTP client, `url.Parse`, and `meta.SetStatusCondition`, of
-- which the theorems on the status assume what is documented: the condition of the given type is set,
-- and the others are kept. The secrets of the cluster are a function, which does not change during a
-- resolution. The theorem on authentication assumes a service that stores the configuration that it is
-- sent, and those on the registration with Prowlarr assume its API as documented (Prowlarr/Server), and
-- the one on the ownership tag a service that stores tags (Shared/Tags/Laws). The conversion of a
-- float64 to an int is a parameter, exact for the integers up to 2^53.
--
-- Not modelled: logs and metrics, which nothing depends on; the controllers of Prowlarr configurations,
-- Bazarr and the download stack; of the adapters of the single services, all but the download clients
-- and indexers of Sonarr and Lidarr; internal/adapters/downloadstack, internal/discovery; generated
-- code (client.gen.go, zz_generated.deepcopy.go).
pub mod Common
pub mod Ir
pub mod Changes
pub mod Diff
pub mod Presets
pub mod Compiler
pub mod Api
pub mod Prowlarr
pub mod Adapters
pub mod Shared
pub mod Controller
pub mod Tests
