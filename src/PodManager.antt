-- ===== src/PodManager.antt =====
-- pkg/podmanager/podmanager.go: the cache of prepared claims, keyed by claim UID. Each operation holds
-- the lock throughout, so each is one step. A nil slice, `Delete`'s answer for an unknown claim, is
-- `none`; what `Set` stores is never nil.
pub mod Laws
use dra_driver_ovsdpdk_upstr.Base.{String, Option, none, some, List, []}
use dra_driver_ovsdpdk_upstr.Base.Map
use dra_driver_ovsdpdk_upstr.Base.Map.{Map}
use dra_driver_ovsdpdk_upstr.Api.{PreparedDevice}

abbrev pub PodManager : Type 0
PodManager = Map (List PreparedDevice)

abbrev pub new : PodManager
new = []

unfoldable pub get : PodManager → String → Option (List PreparedDevice)
get pods claim_uid = Map.get pods claim_uid

unfoldable pub set : PodManager → String → List PreparedDevice → PodManager
set pods claim_uid devices = Map.put pods claim_uid devices

take_out :
    Option (List PreparedDevice) → String → PodManager → Option (List PreparedDevice) × PodManager
take_out none claim_uid pods = (none, pods)
take_out (some devices) claim_uid pods = (some devices, Map.delete pods claim_uid)

unfoldable pub delete : PodManager → String → Option (List PreparedDevice) × PodManager
unfolding take_out
delete pods claim_uid = take_out (Map.get pods claim_uid) claim_uid pods
