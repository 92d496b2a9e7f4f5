-- ===== src/Examples/FullDisk.antt =====
-- A node on which the CDI spec of a claim cannot be written, on concrete inputs.
use dra_driver_ovsdpdk_upstr.Base.{false, some, List, [], ◌∷◌, Result, err, external}
use dra_driver_ovsdpdk_upstr.Base.FilePath
use dra_driver_ovsdpdk_upstr.Base.Map
use dra_driver_ovsdpdk_upstr.Api.{ResourceClaim, PreparedDevice}
use dra_driver_ovsdpdk_upstr.Backend.{Backend}
use dra_driver_ovsdpdk_upstr.Cdi.{CdiCache}
use dra_driver_ovsdpdk_upstr.SocketFs
use dra_driver_ovsdpdk_upstr.SocketFs.{Caches}
use dra_driver_ovsdpdk_upstr.Ovs.Client
use dra_driver_ovsdpdk_upstr.DeviceState.Prepare.{prepare_resource_claim}
use dra_driver_ovsdpdk_upstr.Wiring.{Node, wired}
use dra_driver_ovsdpdk_upstr.Examples.Memory.{unmarshal, claim, result, state}
use dra_driver_ovsdpdk_upstr.Examples.Nodes.{Files, os, Ports, client, cache, key}

abbrev full_cache : CdiCache (Unit {0})
full_cache = record cache { write_spec = λ spec name w. (err (external "no space"), w) }

abbrev b : Backend (Node Files Ports (Unit {0}))
b = wired os client full_cache key unmarshal (λ status. some status.bridge_name)

abbrev empty : Node Files Ports (Unit {0})
empty = record {
  caches = record { users = []; groups = [] };
  os = λ q. false;
  ovsdb = λ br n. false;
  cdi = tt;
}

abbrev one_device : ResourceClaim
one_device = claim (result "net0" "br-a" ∷ [])

abbrev failed : Result (List PreparedDevice) × (ResourceClaim × Node Files Ports (Unit {0}))
failed = prepare_resource_claim b state (one_device, empty)
