-- ===== src/DevicePlugin/Service/Answers.antt =====
-- The devices that the kubelet is told of.
use Prim.Native.Nat.{◌<◌}
use text.Mathlib.TextLemmas.{append_cancel_left}
use dra_driver_ovsdpdk_upstr.Base.{
  ℕ, zero, suc, ◌≡◌, ◌≢◌, refl, ap, List, [], ◌∷◌, concat, length, All, arith,
}
use dra_driver_ovsdpdk_upstr.Base.Decimal.{decimal, decimal_injective}
use dra_driver_ovsdpdk_upstr.DevicePlugin.{Server}
use dra_driver_ovsdpdk_upstr.DevicePlugin.Service.{
  PluginApi, PluginApiDevice, devices_from, devices,
}

-- No two devices have the same ID.
abbrev pub HaveDistinctIds : List PluginApiDevice → Type 0
HaveDistinctIds [] = Unit
HaveDistinctIds (x ∷ xs) = All (λ y. x.id ≢ y.id) xs × HaveDistinctIds xs

-- The devices from number `i` on have IDs of their numbers.
later_ids :
    (plugin : PluginApi) (s : Server) (k i n : ℕ)
    → k < i
    → All (λ y. concat ("device-" ∷ decimal k ∷ []) ≢ y.id) (devices_from plugin s i n)
unfolding devices_from
later_ids plugin s k i zero h = tt
later_ids plugin s k i (suc n) h = (
  λ e. absurd (omega (arith, decimal_injective k i (append_cancel_left "device-" _ _ e))),
  later_ids plugin s k (suc i) n (omega arith),
)

abbrev pub AreDevices : PluginApi → Server → ℕ → List PluginApiDevice → Type 0
AreDevices plugin s n xs =
    (length xs ≡ n)
    × HaveDistinctIds xs
    × All (λ x. (x.nodes ≡ s.numa_node ∷ []) × (x.health ≡ plugin.healthy)) xs

devices_from-AreDevices :
    (plugin : PluginApi) (s : Server) (i n : ℕ) → AreDevices plugin s n (devices_from plugin s i n)
unfolding devices_from
devices_from-AreDevices plugin s i zero = (refl, tt, tt)
devices_from-AreDevices plugin s i (suc n) =
    let (len, distinct, all) = devices_from-AreDevices plugin s (suc i) n in
    (ap suc len, (later_ids plugin s i (suc i) n (omega arith), distinct), ((refl, refl), all))

-- The kubelet is told of as many devices as the server has, healthy, on the server's NUMA node and no
-- other, and no two of them have the same ID.
pub devices-AreDevices :
    (plugin : PluginApi) (s : Server) → AreDevices plugin s s.device_count (devices plugin s)
unfolding devices
devices-AreDevices plugin s = devices_from-AreDevices plugin s 0 s.device_count
