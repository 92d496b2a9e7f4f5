-- ===== src/Api/Port.antt =====
-- pkg/api/ovsport/v1alpha1/types.go, and the port parameters of pkg/ovs/client.go. A `uint32` is a
-- natural number; where a bound matters a statement says it.
use dra_driver_ovsdpdk_upstr.Base.{ℕ, String, Option, none, ℤ}
use dra_driver_ovsdpdk_upstr.Base.Map.{Map}

abbrev pub kind_ovs_port_config : String
kind_ovs_port_config = "OvsPortConfig"

abbrev pub api_version : String
api_version = "ovsdpdk.k8snetworkplumbingwg.io/v1alpha1"

pub record OvsPolicing : Type 0 where
  pub max_rate : Option ℕ
  pub burst : Option ℕ

pub record OvsPortConfig : Type 0 where
  pub kind : String
  pub api_version : String
  pub vlan : Option ℤ
  pub policing : Option OvsPolicing

abbrev pub default_ovs_port_config : OvsPortConfig
default_ovs_port_config = record { kind = ""; api_version = ""; vlan = none; policing = none }

-- `OvsPortParams` of pkg/ovs/client.go
pub record OvsPortParams : Type 0 where
  pub external_ids : Map String
  pub vlan : Option ℤ
  pub ingress_rate : ℤ
  pub ingress_burst : ℤ
  pub mtu : Option ℤ
