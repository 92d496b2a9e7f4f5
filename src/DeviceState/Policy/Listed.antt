-- ===== src/DeviceState/Policy/Listed.antt =====
-- The devices of an accepted update, in order.
use mathlib.Core.List.{append-nil, append_assoc}
use dra_driver_ovsdpdk_upstr.Base.{
  ◌≡◌, refl, sym, ap, ◌∙◌, inl, inr, false, none, some, List, [], ◌∷◌, ◌++◌, map, wrap_result, All,
  ◌==◌,
}
use dra_driver_ovsdpdk_upstr.Base.Map
use dra_driver_ovsdpdk_upstr.Base.Map.{get-put, put-new}
use dra_driver_ovsdpdk_upstr.Api.{BridgeSpec}
use dra_driver_ovsdpdk_upstr.DeviceState.Policy.{
  DeviceState, AllocatableDevices, RepublishCallback, bridge_to_device, add_devices,
  compute_allocatable_devices, update_bridges, republish, update_policy_devices,
}
use dra_driver_ovsdpdk_upstr.DeviceState.Policy.Laws.{AreDistinct, AreAcceptable, check_decides}

abbrev pub listed : List BridgeSpec → AllocatableDevices
listed bs = map (λ b. (b.name, bridge_to_device b)) bs

abbrev Absent : AllocatableDevices → List BridgeSpec → Type 0
Absent devices bs = All (λ b. Map.get devices b.name ≡ none) bs

still-Absent :
    (b : BridgeSpec) (devices : AllocatableDevices) (bs : List BridgeSpec)
    → All (λ c. (b.name == c.name) ≡ false) bs
    → Absent devices bs
    → Absent (Map.put devices b.name (bridge_to_device b)) bs
still-Absent b devices [] ne absent = tt
still-Absent b devices (c ∷ cs) ne absent = (
  rw (get-put devices b.name (bridge_to_device b) c.name, ne.0) absent.0,
  still-Absent b devices cs ne.1 absent.1,
)

add_devices-listed :
    (bs : List BridgeSpec) (devices : AllocatableDevices)
    → AreDistinct bs
    → Absent devices bs
    → add_devices devices bs ≡ devices ++ listed bs
unfolding add_devices
add_devices-listed [] devices d absent = sym (append-nil devices)
add_devices-listed (b ∷ bs) devices d absent =
    add_devices-listed bs (Map.put devices b.name (bridge_to_device b)) d.1
      (still-Absent b devices bs d.0 absent.1)
    ∙ ap (λ l. l ++ listed bs) (put-new devices b.name (bridge_to_device b) absent.0)
    ∙ append_assoc devices ((b.name, bridge_to_device b) ∷ []) (listed bs)

all_Absent : (bs : List BridgeSpec) → Absent [] bs
unfolding Map.get
all_Absent [] = tt
all_Absent (b ∷ bs) = (refl, all_Absent bs)

-- An accepted update, with a callback.
pub update_policy_devices-listed :
    {W : Type 0} (callback : RepublishCallback W) (bs : List BridgeSpec) (d : DeviceState) (w : W)
    → AreAcceptable bs
    → update_policy_devices (some callback) bs (d, w) ≡ (
      wrap_result "republish callback: %w" (callback (listed bs) w).0,
      (record d { allocatable = listed bs }, (callback (listed bs) w).1),
    )
unfolding update_policy_devices update_bridges compute_allocatable_devices republish
update_policy_devices-listed callback bs d w a = elim (check_decides bs) [
  | inr (x, e, refused) ↦ absurd (refused a)
  | inl (e, _) ↦ rw (e, update_policy_devices, add_devices-listed bs [] a.0 (all_Absent bs)) refl
]
