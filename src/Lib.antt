-- ===== src/Lib.antt =====
-- Verification of the OVS-DPDK driver for Kubernetes' dynamic resource allocation.
--
-- The kubelet asks the driver to prepare the claims of a pod. For each device allocated to a claim, which
-- is an OVS bridge, the driver creates a socket directory and a vhost-user port on the bridge, and for the
-- claim a CDI spec that mounts the directories; when the pod is gone, it takes them back. Beside that it
-- runs device plugins, which tell the kubelet on which NUMA node the bridges' uplinks are.
--
-- The files and the code that they model:
--   Base            shared types: tests, texts, lists, Go's maps, errors and results, file paths, decimals
--   Api             pkg/api, pkg/consts, pkg/types, and the parts of a ResourceClaim that the driver uses
--   Backend         the interfaces that pkg/devicestate calls, acting on a world of any type
--   Cdi             pkg/cdi/cdi.go: DeviceID, CreateClaimSpecFile, DeleteClaimSpecFile
--   DeviceState     pkg/devicestate: Config is config.go; Names, Policy (New, UpdateConfig,
--                   UpdatePolicyDevices), Prepare (PrepareResourceClaim) and Unprepare (rollback,
--                   UnprepareResourceClaim) are devicestate.go
--   PodManager      pkg/podmanager/podmanager.go: Get, Set, Delete on the map of prepared claims
--   Driver          pkg/driver/server.go: Claims is PrepareResourceClaims and UnprepareResourceClaims,
--                   Status is updateClaimStatus and mergeDeviceStatus; pkg/driver/driver.go: Publish is
--                   New and PublishResources
--   DevicePlugin    pkg/deviceplugin/manager.go: UpdateResources, OnInterfaceChange, StopAll,
--                   reregisterAll; Calls is the event of the kubelet socket and sequences of calls;
--                   Watcher is NewManager and startKubeletWatcher with its goroutine.
--                   pkg/deviceplugin/deviceplugin_server.go: Service is the server, over gRPC and the
--                   file system as a record; what the manager relies on is the record Calls.Runs
--   Controllers     pkg/controllers: Policy and Config are the two reconcilers, Trigger is the channel
--                   and the watches of SetupWithManager. Policy hands its bridges to DeviceState and
--                   DevicePlugin
--   Pci             pkg/pci/pci.go: ParseDevargs, NodeForPCIAddr
--   Ovs             pkg/ovs/client.go: Client is CreatePort, DeletePort and the queries, over the OVSDB
--                   library as a record; Monitor is the callbacks of startMonitor and the channel that
--                   holds 16 events; Connect is New, which connects and starts the monitor; Ovs itself is
--                   the map of NUMA nodes, BridgeNUMANodes and the handling of interface events, whose
--                   answers DevicePlugin uses
--   SocketFs        pkg/socketfs: CreateSocketDir, RemoveSocketDir and the user resolver, over the operating
--                   system as a record; Dirs says which directories they make and remove, Label is
--                   validateSELinuxLabel
--   Wiring          the interfaces of Backend, filled by Cdi, Ovs/Client and SocketFs as main.go
--                   does, and what a failed preparation leaves on such a node
--   Command         cmd/dra-driver-ovsdpdk/main.go: Command itself is run, which starts and ends the parts;
--                   Options is the flags of newApp and of pkg/flags, App is main, newApp's two steps and
--                   pkg/flags/kubeclient.go
--   Examples        the definitions and theorems on concrete inputs, with a backend in memory
--
-- How code becomes definitions. A method is a function that takes the state and returns its result and
-- the new state. A returned error is a value, the text of its format without the arguments, and `%w`
-- keeps the error that it wraps; a run-time panic is a third result. A Go map is an association list, and
-- a loop over a map goes through the list in its order, so that what holds for every list holds for every
-- order; where the order is seen outside (PublishResources), it is an argument. A mutex that is held for a
-- whole operation is taken to make it one step. Logging is left out.
--
-- Most loops are structural recursion and need no fuel. The rounds of a status update are bounded by the
-- steps of the back-off, which are an argument and 5 in the code. Connecting to the OVSDB has no bound in the
-- code: there the fuel is a number of attempts, and one more than the attempts that fail is enough.
--
-- Threads that share a channel are modelled by sequences of their turns, in any order (Ovs/Monitor,
-- Controllers/Trigger, DevicePlugin/Watcher).
--
-- Not modelled: the configuration of logging, registration with the controller runtime, what happens once
-- the context of a device plugin server is done, what a restarting kubelet does to the sockets, generated code
-- and mocks. The OVSDB, gRPC, the Kubernetes libraries, the file system and the operating system are records
-- of operations, with what is relied on of them as hypotheses. Of a transaction of the OVSDB that returns an
-- error nothing is assumed; the theorems on the ports of a node suppose that every transaction is answered.
pub mod Base
pub mod Api
pub mod Backend
pub mod Cdi
pub mod DeviceState
pub mod PodManager
pub mod Driver
pub mod DevicePlugin
pub mod Controllers
pub mod Pci
pub mod Ovs
pub mod SocketFs
pub mod Wiring
pub mod Command
pub mod Examples
