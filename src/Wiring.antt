-- ===== src/Wiring.antt =====
-- cmd/dra-driver-ovsdpdk/main.go, where `run` hands the CDI handler, the socket directories and the OVS
-- client to the device state: the parts as pkg/cdi, pkg/socketfs and pkg/ovs implement them, each on its
-- own state.
pub mod Tracked
pub mod Clean
use dra_driver_ovsdpdk_upstr.Base.{String, Option, Result, Exec}
use dra_driver_ovsdpdk_upstr.Api.{OvsPortConfig}
use dra_driver_ovsdpdk_upstr.Backend.{Backend, DeviceStatusData}
use dra_driver_ovsdpdk_upstr.Cdi
use dra_driver_ovsdpdk_upstr.Cdi.{CdiCache}
use dra_driver_ovsdpdk_upstr.SocketFs
use dra_driver_ovsdpdk_upstr.SocketFs.{Os, Caches}
use dra_driver_ovsdpdk_upstr.Ovs.Client
use dra_driver_ovsdpdk_upstr.Ovs.Client.{OvsdbClient}

-- The state of the resolver, of the operating system, of the OVSDB and of the CDI cache.
pub record Node (S D C : Type 0) : Type 0 where
  pub caches : Caches
  pub os : S
  pub ovsdb : D
  pub cdi : C

module _ {S D C : Type 0} where
  abbrev pub on_sockets : {A : Type 0} → Exec (Caches × S) A → Exec (Node S D C) A
  on_sockets m n =
      let (r, (caches, os)) = m (n.caches, n.os) in (r, record n { caches = caches; os = os })

  abbrev pub on_ovsdb : {A : Type 0} → Exec D A → Exec (Node S D C) A
  on_ovsdb m n = let (r, ovsdb) = m n.ovsdb in (r, record n { ovsdb = ovsdb })

  abbrev pub on_cdi : {A : Type 0} → Exec C A → Exec (Node S D C) A
  on_cdi m n = let (r, cdi) = m n.cdi in (r, record n { cdi = cdi })

-- Removing a directory does not use the resolver.
abbrev remove_dir : {S : Type 0} → Os S → String → Exec (Caches × S) (Unit {0})
remove_dir os path (caches, s) =
    let (r, s') = SocketFs.remove_socket_dir os path s in (r, (caches, s'))

-- `annotation`, `unmarshal` and `marshal` are of Kubernetes and JSON.
unfoldable pub wired :
    {S D C Op Res : Type 0}
    → Os S
    → OvsdbClient D Op Res
    → CdiCache C
    → String
    → (String → Result OvsPortConfig)
    → (DeviceStatusData → Option String)
    → Backend (Node S D C)
wired os client cache annotation unmarshal marshal = record {
  annotation = annotation;
  qualified_name = cache.qualified_name;
  unmarshal = unmarshal;
  marshal = marshal;
  create_socket_dir = λ path spec. on_sockets (SocketFs.create_socket_dir os path spec);
  remove_socket_dir = λ path. on_sockets (remove_dir os path);
  create_port =
      λ bridge port socket params. on_ovsdb (Client.create_port client bridge port socket params);
  delete_port = λ bridge port. on_ovsdb (Client.delete_port client bridge port);
  create_claim_spec_file = λ pds. on_cdi (Cdi.create_claim_spec_file cache pds);
  delete_claim_spec_file = λ uid. on_cdi (Cdi.delete_claim_spec_file cache uid);
}
