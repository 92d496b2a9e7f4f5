-- ===== src/Ovs/Client.antt =====
-- pkg/ovs/client.go: queries and transactions on the OVSDB, and pkg/ovs/models.go: its rows.
pub mod Ports
pub mod Returns
use dra_driver_ovsdpdk_upstr.Base.{
  String, Bool, true, false, Option, none, some, List, [], ◌∷◌, ◌++◌, ℤ, Result, ok, err, panic,
  Error, wrap, msg, not_found, err_port_not_found, err_bridge_not_found, Exec, pure, fail, lift,
  wrapping, join_errors, ◌==◌, ◌>>=◌,
}
use dra_driver_ovsdpdk_upstr.Base.Map.{Map}
use dra_driver_ovsdpdk_upstr.Api.{OvsPortParams}

pub record Bridge : Type 0 where
  pub uuid : String
  pub name : String
  pub ports : List String

pub record Port : Type 0 where
  pub uuid : String
  pub name : String
  pub tag : Option ℤ
  pub interfaces : List String
  pub external_ids : Map String

pub record Interface : Type 0 where
  pub uuid : String
  pub name : String
  pub iface_type : String
  pub options : Map String
  pub ingress_policing_rate : ℤ
  pub ingress_policing_burst : ℤ
  pub mtu_request : Option ℤ

pub data Mutator : Type 0 where
  insert delete : Mutator

-- What the code calls of the OVSDB library. `operation_errors` is `CheckOperationResults`: none if every
-- operation succeeded. `get_bridge` and `bridges_with_port` read the cache.
pub record OvsdbClient (S Op Res : Type 0) : Type 0 where
  pub create_interface : Interface → Result (List Op)
  pub create_port : Port → Result (List Op)
  pub mutate_ports : String → Mutator → List String → Result (List Op)
  pub select_port_named : String → Result (List Op)
  pub select_ports_with_iface : String → Result (List Op)
  pub transact : List Op → Exec S (List Res)
  pub operation_errors : List Res → List Op → Option (List Error)
  pub select_results : List Op → List Res → Result (List Port)
  pub get_bridge : String → Exec S Bridge
  pub bridges_with_port : String → Exec S (List Bridge)

checked : String → Option (List Error) → Result (Unit {0})
checked text none = ok tt
checked text (some errs) = err (wrap_joined text (join_errors errs))
  where
    -- Wrapping a nil error.
    wrap_joined : String → Option Error → Error
    wrap_joined text none = msg text
    wrap_joined text (some e) = wrap text e

exists : Result Bridge → Result Bool
exists (ok _) = ok true
exists (err not_found) = ok false
exists (err e) = err e
exists panic = panic

unfoldable pub first_uuid : List Port → String
first_uuid [] = ""
first_uuid (port ∷ _) = port.uuid

one_port : List Port → Result Port
one_port [] = err err_port_not_found
one_port (port ∷ []) = ok port
one_port (_ ∷ _ ∷ _) = err (msg "more than one port with interface %q")

one_bridge : List Bridge → Result Bridge
one_bridge [] = err err_bridge_not_found
one_bridge (bridge ∷ []) = ok bridge
one_bridge (_ ∷ _ ∷ _) = err (msg "more than one bridge with port %s")

abbrev pub new_interface : String → String → OvsPortParams → Interface
new_interface port_name socket_path params = record {
  uuid = "newiface";
  name = port_name;
  iface_type = "dpdkvhostuserclient";
  options = ("vhost-server-path", socket_path) ∷ [];
  ingress_policing_rate = params.ingress_rate;
  ingress_policing_burst = params.ingress_burst;
  mtu_request = params.mtu;
}

abbrev pub new_port : String → OvsPortParams → Port
new_port port_name params = record {
  uuid = "newport";
  name = port_name;
  tag = params.vlan;
  interfaces = "newiface" ∷ [];
  external_ids = params.external_ids;
}

module _ {S Op Res : Type 0} (client : OvsdbClient S Op Res) where
  unfoldable pub bridge_exists : String → Exec S Bool
  unfolding exists
  bridge_exists name s = let (found, s') = client.get_bridge name s in (exists found, s')

  -- The interface, the port and its place in the bridge are one transaction.
  unfoldable pub create_port : String → String → String → OvsPortParams → Exec S (Unit {0})
  unfolding checked
  create_port bridge_name port_name socket_path params = do
    iface_ops ←
        wrapping "build interface create op: %w"
          (lift (client.create_interface (new_interface port_name socket_path params)))
    port_ops ←
        wrapping "build port create op: %w" (lift (client.create_port (new_port port_name params)))
    mutate_ops ←
        wrapping "build bridge mutate op: %w"
          (lift (client.mutate_ports bridge_name insert ("newport" ∷ [])))
    let ops = (iface_ops ++ port_ops) ++ mutate_ops
    results ← wrapping "create port transaction: %w" (client.transact ops)
    lift (checked "create port %q on bridge %q: %w" (client.operation_errors results ops))

  -- "" if there is no port of that name.
  unfoldable pub find_port_uuid : String → Exec S String
  unfolding first_uuid
  find_port_uuid port_name = do
    ops ← wrapping "build select for port %q: %w" (lift (client.select_port_named port_name))
    results ← wrapping "select port %q: %w" (client.transact ops)
    ports ←
        wrapping "parse select results for port %q: %w" (lift (client.select_results ops results))
    pure (first_uuid ports)

  delete_found : String → String → Exec S (Unit {0})
  unfolding checked
  delete_found bridge_name port_uuid = do
    ops ←
        wrapping "build bridge mutate op: %w"
          (lift (client.mutate_ports bridge_name delete (port_uuid ∷ [])))
    results ← wrapping "delete port transaction: %w" (client.transact ops)
    lift (checked "delete port %q from bridge %q: %w" (client.operation_errors results ops))

  unfoldable pub delete_port : String → String → Exec S (Unit {0})
  unfolding find_port_uuid delete_found
  delete_port bridge_name port_name = do
    port_uuid ← find_port_uuid port_name
    elim (port_uuid == "") [
      | true ↦ fail err_port_not_found
      | false ↦ delete_found bridge_name port_uuid
    ]

  unfoldable pub find_bridge_with_port : Port → Exec S Bridge
  unfolding one_bridge
  find_bridge_with_port port = do
    bridges ← client.bridges_with_port port.uuid
    lift (one_bridge bridges)

  unfoldable pub find_port_with_iface : String → Exec S Port
  unfolding one_port
  find_port_with_iface iface_uuid = do
    ops ←
        wrapping "build select for port with interface %q: %w"
          (lift (client.select_ports_with_iface iface_uuid))
    results ← wrapping "select port with interface %q: %w" (client.transact ops)
    ports ←
        wrapping "parse select results for port with interface %q: %w"
          (lift (client.select_results ops results))
    lift (one_port ports)
