-- ===== src/Wiring/Tracked.antt =====
-- The parts that `run` of cmd/dra-driver-ovsdpdk/main.go hands to the device state keep what the device
-- state relies on.
use dra_driver_ovsdpdk_upstr.Base.{
  String, ◌≡◌, refl, sym, ◌∙◌, inl, inr, Bool, Option, Result, ok, err, panic, is_ok, wrap_result,
}
use dra_driver_ovsdpdk_upstr.Api.{OvsPortConfig}
use dra_driver_ovsdpdk_upstr.Backend.{Backend, DeviceStatusData}
use dra_driver_ovsdpdk_upstr.Cdi.{CdiCache}
use dra_driver_ovsdpdk_upstr.SocketFs.{Os, remove_socket_dir}
use dra_driver_ovsdpdk_upstr.SocketFs.Dirs.{OsRuns}
use dra_driver_ovsdpdk_upstr.SocketFs.Dirs.Created.{Stays, create_socket_dir_lem}
use dra_driver_ovsdpdk_upstr.Ovs.Client.{OvsdbClient}
use dra_driver_ovsdpdk_upstr.Ovs.Client.Ports.{Answers, OvsdbRuns, create_port_lem}
use dra_driver_ovsdpdk_upstr.Ovs.Client.Ports.Deleted.{delete_port_gone, delete_port_adds_none}
use dra_driver_ovsdpdk_upstr.DeviceState.Prepare.View.{View, Tracks, DirCanStay}
use dra_driver_ovsdpdk_upstr.Wiring.{Node, wired}

pub is_ok-wrap_result {ℓ} :
    {A : Type ℓ} (text : String) (r : Result A) → is_ok (wrap_result text r) ≡ is_ok r
is_ok-wrap_result text (ok a) = refl
is_ok-wrap_result text (err e) = refl
is_ok-wrap_result text panic = refl

-- What a node shows: the directories of the operating system and the ports of the OVSDB.
abbrev pub node_view :
    {S D C : Type 0}
    → (String → Type 0)
    → (S → String → Bool)
    → (D → String → String → Bool)
    → View (Node S D C)
node_view IsDir has_dir has_port = record {
  IsDir = IsDir;
  has_dir = λ n. has_dir n.os;
  has_port = λ n. has_port n.ovsdb;
}

module _ {S D C Op Res : Type 0} (os : Os S) (client : OvsdbClient D Op Res) (cache : CdiCache C)
    (annotation : String) (unmarshal : String → Result OvsPortConfig)
    (marshal : DeviceStatusData → Option String) (IsDir : String → Type 0)
    (has_dir : S → String → Bool) (has_port : D → String → String → Bool)
    (uuid_of : D → String → String) (files : OsRuns os IsDir has_dir)
    (runs : OvsdbRuns client has_port uuid_of) (answers : Answers client) where
  abbrev b : Backend (Node S D C)
  b = wired os client cache annotation unmarshal marshal

  stays : (p : String) (n : Node S D C) → Stays os IsDir has_dir files p → DirCanStay b p
  unfolding wired remove_socket_dir
  stays p n (s, left) = (
    record n { os = s },
    is_ok-wrap_result "remove socket directory %q: %w" (os.remove_all p s).0 ∙ left,
  )

  -- If the operating system and the OVSDB keep their promises and every transaction is answered, the
  -- parts that `run` hands to the device state do what the device state relies on: a call adds at most
  -- the directory or the port that it is asked for, and nothing where it returns an error, unless it is a
  -- directory that the operating system cannot always remove; a removal that returns no error removes;
  -- and no part touches what another one shows.
  pub wired-Tracks : Tracks b (node_view IsDir has_dir has_port)
  unfolding wired remove_socket_dir
  wired-Tracks = record {
    create_dir = λ p spec n q dir is h.
        elim (create_socket_dir_lem os IsDir has_dir files p spec n.caches n.os q dir is h) [
          | inl old ↦ inl old
          | inr (same, inl fine) ↦ inr (same, inl fine)
          | inr (same, inr left) ↦ inr (same, inr (stays p n left))
        ];
    create_dir-port = λ p spec n br k. refl;
    remove_dir_gone = λ p n done.
        files.remove_gone p n.os (
          sym (is_ok-wrap_result "remove socket directory %q: %w" (os.remove_all p n.os).0) ∙ done);
    remove_dir = λ p n q h. files.remove_all p n.os q h;
    remove_dir-port = λ p n br k. refl;
    create_port = λ bridge port socket params n br k h.
        create_port_lem client runs answers bridge port socket params n.ovsdb br k h;
    create_port-dir = λ bridge port socket params n q. refl;
    delete_port_gone = λ bridge port n done. delete_port_gone client runs bridge port n.ovsdb done;
    delete_port =
        λ bridge port n br k h. delete_port_adds_none client runs bridge port n.ovsdb br k h;
    delete_port-dir = λ bridge port n q. refl;
    create_spec-dir = λ pds n q. refl;
    create_spec-port = λ pds n br k. refl;
    delete_spec-dir = λ uid n q. refl;
    delete_spec-port = λ uid n br k. refl;
  }
