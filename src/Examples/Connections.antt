-- ===== src/Examples/Connections.antt =====
-- An OVSDB that can be connected to after some attempts, and labels of socket directories, on concrete
-- inputs.
use dra_driver_ovsdpdk_upstr.Base.{
  ℕ, zero, suc, ◌≡◌, refl, ◌↔◌, Bool, true, false, none, some, ok, err, Error, external, Exec,
  arith,
}
use dra_driver_ovsdpdk_upstr.Ovs.Connect.{Library, new_ovs_client, new}
use dra_driver_ovsdpdk_upstr.Ovs.Connect.Opened.{KeepsTrack, Ended, new_connects, new-Ended}
use dra_driver_ovsdpdk_upstr.SocketFs.{validate_selinux_label}
use dra_driver_ovsdpdk_upstr.SocketFs.Label.{HasForm, validate_selinux_label_iff}

-- How many attempts will still fail, and whether the client is open.
abbrev Server : Type 0
Server = ℕ × Bool

abbrev connect : Exec Server (Unit {0})
connect (zero, open_) = (ok tt, (0, true))
connect (suc k, open_) = (err (external "no such file or directory"), (k, open_))

abbrev lib : Library Server
lib = record {
  new_client_db_model = λ w. (ok tt, w);
  new_ovsdb_client = λ endpoint w. (ok tt, w);
  connect = connect;
  disconnect = λ w. (w.0, false);
  pause = λ w. (none, w);
  start_events = λ c w. w;
  current = λ w. new_ovs_client;
  add_event_handler = λ w. w;
  monitor = λ cs w. (ok tt, w);
}

new_connects_example :
    new lib 5 "/var/run/openvswitch" (2, false) ≡ (some (ok new_ovs_client), (0, true))
new_connects_example =
    new_connects lib 2 5 "/var/run/openvswitch" (2, false) (2, false) (2, false) (0, true) (0, true)
      (omega arith) refl refl
      (
        external "no such file or directory",
        refl,
        refl,
        (external "no such file or directory", refl, refl, refl),
      )
      refl

abbrev opened : Server → Bool
opened w = w.1

connect_ok : (w : Server) → (connect w).0 ≡ ok tt → opened (connect w).1 ≡ true
connect_ok (zero, o) e = refl
connect_ok (suc k, o) e = cc

connect_err : (w : Server) (e : Error) → (connect w).0 ≡ err e → opened (connect w).1 ≡ opened w
connect_err (zero, o) x e = cc
connect_err (suc k, o) x e = refl

lib-KeepsTrack : KeepsTrack lib opened
lib-KeepsTrack = record {
  connect_ok = connect_ok;
  connect_err = connect_err;
  disconnect = λ w. refl;
  pause = λ w. refl;
  start_events = λ c w. refl;
  add_event_handler = λ w. refl;
  monitor = λ cs w. refl;
  new_client_db_model = λ w. refl;
  new_ovsdb_client = λ endpoint w. refl;
}

new-Ended_example :
    let s = new lib 5 "/var/run/openvswitch" (2, false) in Ended lib opened lib-KeepsTrack s.0 s.1
new-Ended_example = new-Ended lib opened lib-KeepsTrack 5 "/var/run/openvswitch" (2, false) refl

-- A level with two categories.
validate_selinux_label_iff_example :
    (validate_selinux_label "system_u:object_r:container_file_t:s0:c1,c2" ≡ ok tt)
    ↔ HasForm "system_u:object_r:container_file_t:s0:c1,c2"
validate_selinux_label_iff_example =
    validate_selinux_label_iff "system_u:object_r:container_file_t:s0:c1,c2"
