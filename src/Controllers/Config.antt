-- ===== src/Controllers/Config.antt =====
-- pkg/controllers/controller_ovsdpdkconfig.go: `Reconcile` of the one OvsDpdkConfig object.
pub mod Laws
use dra_driver_ovsdpdk_upstr.Base.{
  String, Bool, true, false, none, some, Result, ok, err, panic, Error, Exec, pure, ◌>>◌, ◌==◌,
}
use dra_driver_ovsdpdk_upstr.Api.{OvsDpdkConfigSpec}
use dra_driver_ovsdpdk_upstr.Controllers.{Request, ReconcileResult, done}
use dra_driver_ovsdpdk_upstr.DeviceState.Policy.{DeviceState, update_config}

-- What the reconciler calls of the API server.
pub record ConfigReader (W : Type 0) : Type 0 where
  pub get_config : String → Exec W OvsDpdkConfigSpec
  pub is_not_found : Error → Bool

module _ {W : Type 0} (reader : ConfigReader W) where
  -- `UpdateConfig` acts on the device state.
  abbrev on_devices : {A : Type 0} → Exec DeviceState A → Exec (DeviceState × W) A
  on_devices m (d, w) = let (r, d') = m d in (r, (d', w))

  missing : Error → Bool → Exec (DeviceState × W) ReconcileResult
  missing e true s = (on_devices (update_config none) >> pure done) s
  missing e false s = (err e, s)

  with_config : Result OvsDpdkConfigSpec → Exec (DeviceState × W) ReconcileResult
  unfolding missing
  with_config (ok spec) s = (on_devices (update_config (some spec)) >> pure done) s
  with_config (err e) s = missing e (reader.is_not_found e) s
  with_config panic s = (panic, s)

  -- A request for another object is passed over.
  unfoldable pub reconcile : String → Request → Exec (DeviceState × W) ReconcileResult
  unfolding with_config
  reconcile config_name request (d, w) = elim (request.name == config_name) [
    | false ↦ (ok done, (d, w))
    | true ↦ let (spec, w') = reader.get_config config_name w in with_config spec (d, w')
  ]
