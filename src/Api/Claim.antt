-- ===== src/Api/Claim.antt =====
-- What the driver reads and writes of a ResourceClaim (the Kubernetes API, parts the driver uses), and
-- the prepared device of pkg/types/types.go. Shared pointers are values: nothing changes them after
-- they are stored.
use dra_driver_ovsdpdk_upstr.Base.{String, Option, List, ℤ}
use dra_driver_ovsdpdk_upstr.Base.Map.{Map}
use dra_driver_ovsdpdk_upstr.Api.Port.{OvsPortConfig}

pub data ConfigSource : Type 0 where
  from_class from_claim : ConfigSource
  other_source : String → ConfigSource

pub record OpaqueConfig : Type 0 where
  pub driver : String
  pub parameters : String

pub record DeviceAllocationConfiguration : Type 0 where
  pub source : ConfigSource
  pub requests : List String
  pub opaque : Option OpaqueConfig

pub record AllocationResult : Type 0 where
  pub request : String
  pub driver : String
  pub pool : String
  pub device : String
  pub share_id : Option String

pub record Allocation : Type 0 where
  pub results : List AllocationResult
  pub config : List DeviceAllocationConfiguration

pub record ConsumerReference : Type 0 where
  pub name : String
  pub uid : String

-- The payload is the JSON text of the status data.
pub record AllocatedDeviceStatus : Type 0 where
  pub driver : String
  pub pool : String
  pub device : String
  pub share_id : Option String
  pub payload : String

pub record ResourceClaim : Type 0 where
  pub name : String
  pub namespace : String
  pub uid : String
  pub annotations : Map String
  pub allocation : Option Allocation
  pub reserved_for : List ConsumerReference
  pub devices : List AllocatedDeviceStatus

pub data DeviceAttribute : Type 0 where
  string_value : String → DeviceAttribute
  int_value : ℤ → DeviceAttribute

-- `kubeletplugin.Device`
pub record PluginDevice : Type 0 where
  pub requests : List String
  pub pool_name : String
  pub device_name : String
  pub cdi_device_ids : List String
  pub attributes : Map DeviceAttribute

-- `kubeletplugin.NamespacedObject`
pub record NamespacedObject : Type 0 where
  pub name : String
  pub namespace : String
  pub uid : String

pub record MountInfo : Type 0 where
  pub host_dir : String
  pub container_dir : String

pub record SocketInfo : Type 0 where
  pub host_path : String
  pub container_path : String

pub record PreparedDevice : Type 0 where
  pub device : PluginDevice
  pub claim : NamespacedObject
  pub bridge_name : String
  pub ovs_port_name : String
  pub mount : MountInfo
  pub socket : SocketInfo
  pub port_config : OvsPortConfig
