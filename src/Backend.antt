-- ===== src/Backend.antt =====
-- What pkg/devicestate calls: the interfaces `SocketFS` and `ovs.Client`, the CDI handler, JSON, and
-- two names of third parties. A call acts on a world of type `W`. SocketFs, Cdi and Ovs implement the
-- parts that the repository implements.
use dra_driver_ovsdpdk_upstr.Base.{
  String, Option, none, some, List, Result, ok, err, panic, Bool, true, false, err_port_not_found,
  Error, Exec,
}
use dra_driver_ovsdpdk_upstr.Api.{
  OvsPortConfig, OvsPortParams, VhostUserSpec, PreparedDevice, MountInfo, SocketInfo,
}

-- `deviceStatusData` of pkg/devicestate/devicestate.go
pub record DeviceStatusData : Type 0 where
  pub mount : MountInfo
  pub socket : SocketInfo
  pub bridge_name : String
  pub cdi_device_ids : List String
  pub config : OvsPortConfig

pub record Backend (W : Type 0) : Type 0 where
  -- `PodResourceClaimAnnotation` of the Kubernetes API
  pub annotation : String
  -- `QualifiedName` of the CDI parser
  pub qualified_name : String → String → String → String
  pub unmarshal : String → Result OvsPortConfig
  -- `none` where encoding fails
  pub marshal : DeviceStatusData → Option String
  pub create_socket_dir : String → Option VhostUserSpec → Exec W (Unit {0})
  pub remove_socket_dir : String → Exec W (Unit {0})
  pub create_port : String → String → String → OvsPortParams → Exec W (Unit {0})
  pub delete_port : String → String → Exec W (Unit {0})
  pub create_claim_spec_file : List PreparedDevice → Exec W (Unit {0})
  pub delete_claim_spec_file : String → Exec W (Unit {0})

-- A deletion of a port leaves no port if it succeeds or finds none.
abbrev pub is_deleted : Result (Unit {0}) → Bool
is_deleted (ok _) = true
is_deleted (err err_port_not_found) = true
is_deleted _ = false

-- `if err := m; err != nil { … }`: the error of a call as a value.
abbrev caught {ℓ} : {A : Type ℓ} → Result A → Result (Option Error)
caught (ok _) = ok none
caught (err e) = ok (some e)
caught panic = panic

unfoldable pub attempt : {W : Type 0} → Exec W (Unit {0}) → Exec W (Option Error)
attempt m w = let (r, w') = m w in (caught r, w')
