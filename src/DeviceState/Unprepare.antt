-- ===== src/DeviceState/Unprepare.antt =====
-- `unprepareDevice`, `rollback` and `UnprepareResourceClaim` of pkg/devicestate/devicestate.go.
pub mod Laws
use dra_driver_ovsdpdk_upstr.Base.{
  String, Bool, Option, none, some, List, [], ◌∷◌, ◌++◌, Result, Error, Exec, pure, fail, lift,
  wrap, join_errors, join_error, of_error, is_port_not_found, if◌then◌else◌, ◌>>=◌, ◌>>◌,
}
use dra_driver_ovsdpdk_upstr.Api.{PreparedDevice}
use dra_driver_ovsdpdk_upstr.Backend.{Backend, attempt}

-- A port that is gone already is no error.
port_errors : Option Error → List Error
port_errors none = []
port_errors (some e) = if is_port_not_found e then [] else e ∷ []

dir_errors : Option Error → List Error
dir_errors none = []
dir_errors (some e) = e ∷ []

wrapped : String → Option Error → List Error
wrapped text none = []
wrapped text (some e) = wrap text e ∷ []

module _ {W : Type 0} (b : Backend W) where
  -- An error in deleting the CDI spec is logged only.
  pub unprepare_device : PreparedDevice → Exec W (Unit {0})
  unfolding port_errors dir_errors
  unprepare_device pd = do
    spec_err ← attempt (b.delete_claim_spec_file pd.claim.uid)
    port_err ← attempt (b.delete_port pd.bridge_name pd.ovs_port_name)
    dir_err ← attempt (b.remove_socket_dir pd.mount.host_dir)
    lift (of_error (join_errors (port_errors port_err ++ dir_errors dir_err)))

  -- The loop of `rollback` and of `UnprepareResourceClaim`: an error stops nothing.
  pub unprepare_each : String → List PreparedDevice → Exec W (List Error)
  unfolding wrapped
  unprepare_each text [] = pure []
  unprepare_each text (pd ∷ pds) = do
    failed ← attempt (unprepare_device pd)
    later ← unprepare_each text pds
    pure (wrapped text failed ++ later)

  -- Never succeeds: the error given comes first, those of the clean-up follow.
  unfoldable pub rollback : {A : Type 0} → Error → List PreparedDevice → Exec W A
  rollback e devices = do
    errs ← unprepare_each "rollback unprepare failed: %w" devices
    fail (join_error e errs)

  unfoldable pub unprepare_resource_claim : List PreparedDevice → Exec W (Unit {0})
  unfolding unprepare_each unprepare_device
  unprepare_resource_claim devices = do
    errs ← unprepare_each "unprepare failed: %w" devices
    lift (of_error (join_errors errs))
