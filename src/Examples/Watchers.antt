-- ===== src/Examples/Watchers.antt =====
-- A device plugin manager whose watcher cannot be made, on concrete inputs.
use dra_driver_ovsdpdk_upstr.Base.{String, refl, Bool, true, false, ok, err, external}
use dra_driver_ovsdpdk_upstr.DevicePlugin.Watcher.{Fsnotify, create_manager}
use dra_driver_ovsdpdk_upstr.DevicePlugin.Watcher.Started.{Shows, Made, create_manager-Made}

abbrev socket : String
socket = "/var/lib/kubelet/device-plugins/kubelet.sock"

-- Whether a watcher is open, and whether the notifier is set. The directory cannot be watched.
abbrev Seen : Type 0
Seen = Bool × Bool

abbrev fs : Fsnotify Seen
fs = record {
  new_watcher = λ w. (ok tt, (true, w.1));
  add = λ d w. (err (external "no such file or directory"), w);
  close = λ w. (false, w.1);
  spawn = λ w. w;
  set_interface_notifier = λ w. (w.0, true);
  clear_interface_notifier = λ w. (w.0, false);
}

abbrev is_open : Seen → Bool
is_open w = w.0

abbrev notifies : Seen → Bool
notifies w = w.1

fs-Shows : Shows fs is_open notifies
fs-Shows = record {
  new_ok = λ w e. refl;
  new_err = λ w x e. absurd (cc e);
  new-notifies = λ w. refl;
  add = λ d w. refl;
  add-notifies = λ d w. refl;
  close = λ w. refl;
  close-notifies = λ w. refl;
  spawn = λ w. refl;
  spawn-notifies = λ w. refl;
  set = λ w. refl;
  set-notifies = λ w. refl;
  clear = λ w. refl;
  clear-notifies = λ w. refl;
}

create_manager-Made_example :
    let s = create_manager fs socket (false, false) in
    Made fs socket is_open notifies fs-Shows s.0 s.1
create_manager-Made_example =
    create_manager-Made fs socket is_open notifies fs-Shows (false, false) refl
