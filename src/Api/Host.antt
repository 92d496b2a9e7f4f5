-- ===== src/Api/Host.antt =====
-- pkg/api/ovsdpdkdra/v1alpha1: the vhost-user settings, users and groups, and bridges.
use dra_driver_ovsdpdk_upstr.Base.{
  String, Bool, true, false, Option, List, ℤ, pos, Result, ok, panic,
}

-- `UserGroupID` is an `intstr.IntOrString`: a kind and both values, of which the kind selects one.
pub data IdKind : Type 0 where
  int string : IdKind

pub record UserGroupId : Type 0 where
  pub kind : IdKind
  pub int_val : ℤ
  pub str_val : String

-- The value that a field left out of the configuration has: the number 0.
abbrev pub zero_user_group_id : UserGroupId
zero_user_group_id = record { kind = int; int_val = pos 0; str_val = "" }

abbrev kind_is_name : IdKind → Bool
kind_is_name string = true
kind_is_name int = false

unfoldable pub is_name : UserGroupId → Bool
is_name u = kind_is_name u.kind

-- Panics if the value is no name.
unfoldable pub get_name : UserGroupId → Result String
get_name u = elim u.kind [ string ↦ ok u.str_val | int ↦ panic ]

-- Panics if the value is a name.
unfoldable pub get_id : UserGroupId → Result ℤ
get_id u = elim u.kind [ int ↦ ok u.int_val | string ↦ panic ]

pub record VhostUserSpec : Type 0 where
  pub container_root_path : String
  pub user : UserGroupId
  pub group : UserGroupId
  pub selinux_label : Option String
  pub acl_users : List String

pub record OvsDpdkConfigSpec : Type 0 where
  pub vhost_user : Option VhostUserSpec

pub record BridgeSpec : Type 0 where
  pub name : String
  pub topology_resource : String
  pub mtu : Option ℤ
