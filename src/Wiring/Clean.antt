-- ===== src/Wiring/Clean.antt =====
-- What is left on the node after a claim that cannot be prepared, with the parts that `run` of
-- cmd/dra-driver-ovsdpdk/main.go hands to the device state.
use dra_driver_ovsdpdk_upstr.Base.{String, ◌≡◌, Option, Result}
use dra_driver_ovsdpdk_upstr.Base.NoPanic.{NoPanic}
use dra_driver_ovsdpdk_upstr.Api.{OvsPortConfig, ResourceClaim}
use dra_driver_ovsdpdk_upstr.Backend.{Backend, DeviceStatusData}
use dra_driver_ovsdpdk_upstr.Cdi.{CdiCache}
use dra_driver_ovsdpdk_upstr.SocketFs.{Os}
use dra_driver_ovsdpdk_upstr.Ovs.Client.{OvsdbClient}
use dra_driver_ovsdpdk_upstr.Ovs.Client.Returns.{Returns}
use dra_driver_ovsdpdk_upstr.DeviceState.Names.{get_socket_dir}
use dra_driver_ovsdpdk_upstr.DeviceState.Policy.{DeviceState}
use dra_driver_ovsdpdk_upstr.Wiring.{Node, wired}

-- The paths that `GetSocketDir` gives, with an annotation key.
abbrev pub IsSocketDir : String → String → Type 0
IsSocketDir annotation path =
    (pod_uid : String) × (claim : ResourceClaim) × (request : String) × (get_socket_dir annotation
        pod_uid claim request
      ≡ path)

-- The calls of the clean-up to the libraries and the operating system end without a panic.
pub record AllReturn {S D C Op Res : Type 0} (os : Os S) (client : OvsdbClient D Op Res)
    (cache : CdiCache C) : Type 0 where
  pub remove_all : (path : String) → NoPanic (os.remove_all path)
  pub ovsdb : Returns client
  pub remove_spec : (name : String) → NoPanic (cache.remove_spec name)

module _ {S D C Op Res : Type 0} (os : Os S) (client : OvsdbClient D Op Res) (cache : CdiCache C)
    (annotation : String) (unmarshal : String → Result OvsPortConfig)
    (marshal : DeviceStatusData → Option String) where
  abbrev b : Backend (Node S D C)
  b = wired os client cache annotation unmarshal marshal
