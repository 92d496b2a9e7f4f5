-- ===== src/DeviceState/Prepare/Leaks.antt =====
-- What a claim that cannot be prepared leaves behind.
mod Device
use dra_driver_ovsdpdk_upstr.Base.{
  Option, none, some, List, [], Result, ok, err, panic, and_then, pure,
}
use dra_driver_ovsdpdk_upstr.Base.FilePath
use dra_driver_ovsdpdk_upstr.Api.{
  PreparedDevice, OvsPortParams, OvsPortConfig, VhostUserSpec, AllocationResult, Allocation,
  vhost_socket_filename,
}
use dra_driver_ovsdpdk_upstr.Backend.{Backend}
use dra_driver_ovsdpdk_upstr.DeviceState.Policy.{DeviceState}
use dra_driver_ovsdpdk_upstr.DeviceState.Names.{ovs_port_name}
use dra_driver_ovsdpdk_upstr.DeviceState.Names.Distinct.{ovs_port_name-ne-err}
use dra_driver_ovsdpdk_upstr.DeviceState.Unprepare.Laws.{attempt_lem, NeverPanics}
use dra_driver_ovsdpdk_upstr.DeviceState.Prepare.{
  create_port_or_remove, prepare_port, prepare_with, prepare_for, prepared_device,
}
use dra_driver_ovsdpdk_upstr.DeviceState.Prepare.Params.{mtu_of, ovs_port_params}
use dra_driver_ovsdpdk_upstr.DeviceState.Prepare.View.{
  DirCanStay, PortCanStay, View, Tracks, DirOf-append, PortOf-append, or_right,
}
use dra_driver_ovsdpdk_upstr.DeviceState.Prepare.Steps.{
  create_dir_ok, create_dir_err, create_port_ok, create_port_err, remove_dir,
}
use dra_driver_ovsdpdk_upstr.DeviceState.Prepare.Leaks.Device.{Holds}

abbrev pub results_of : Option Allocation → List AllocationResult
results_of none = []
results_of (some a) = a.results

module _ {W : Type 0} (b : Backend W) (v : View W) (t : Tracks b v) (safe : NeverPanics b)
    (start : W) where
  abbrev AfterAll : Result (List PreparedDevice) → W → Type 0
  AfterAll (ok pds) w = Holds b v t safe start pds w
  AfterAll (err e) w = Holds b v t safe start [] w
  AfterAll panic w = Unit
