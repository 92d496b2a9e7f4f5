-- ===== src/DevicePlugin/Watcher.antt =====
-- `NewManager` and `startKubeletWatcher` of pkg/deviceplugin/manager.go: the goroutine that waits for the
-- kubelet to restart. The fsnotify library, and setting the client's notifier, are the record Fsnotify.
pub mod Started
use dra_driver_ovsdpdk_upstr.Base.{
  String, Bool, true, false, List, [], ◌∷◌, Result, ok, err, panic, wrap, Exec, wrapping, ◌>>◌,
}
use dra_driver_ovsdpdk_upstr.Base.FilePath
use dra_driver_ovsdpdk_upstr.DevicePlugin.{ServerApi, Manager}
use dra_driver_ovsdpdk_upstr.DevicePlugin.Calls.{
  WatchEvent, ManagerCall, new_manager, on_watch_event, call,
}

-- `spawn` starts the goroutine.
pub record Fsnotify (W : Type 0) : Type 0 where
  pub new_watcher : Exec W (Unit {0})
  pub add : String → Exec W (Unit {0})
  pub close : W → W
  pub spawn : W → W
  pub set_interface_notifier : W → W
  pub clear_interface_notifier : W → W

module _ {W : Type 0} (fs : Fsnotify W) (kubelet_socket : String) where
  -- `if err := watcher.Add(socketDir); err != nil { _ = watcher.Close(); return … }`
  added : Result (Unit {0}) → W → Result (Unit {0}) × W
  added (ok a) w = (ok a, fs.spawn w)
  added (err e) w = (err (wrap "watch kubelet socket directory %q: %w" e), fs.close w)
  added panic w = (panic, w)

  add_or_close : Exec W (Unit {0})
  unfolding added
  add_or_close w = let (r, w') = fs.add (FilePath.dir kubelet_socket) w in added r w'

  unfoldable pub start_kubelet_watcher : Exec W (Unit {0})
  unfolding add_or_close
  start_kubelet_watcher = wrapping "create fsnotify watcher: %w" fs.new_watcher >> add_or_close

  watched : Result (Unit {0}) → W → Result Manager × W
  watched (ok _) w = (ok new_manager, w)
  watched (err e) w = (err (wrap "start kubelet watcher: %w" e), fs.clear_interface_notifier w)
  watched panic w = (panic, w)

  unfoldable pub create_manager : Exec W Manager
  unfolding start_kubelet_watcher watched
  create_manager w =
      let (r, w') = start_kubelet_watcher (fs.set_interface_notifier w) in watched r w'

-- What the goroutine receives: the context is done, or one of the two channels has an event or an error,
-- or is closed.
pub data Received : Type 0 where
  context_done events_closed errors_closed watch_error : Received
  event : WatchEvent → Received

-- A turn of the goroutine, or of a thread that calls the manager.
pub data Step : Type 0 where
  receive : Received → Step
  other : ManagerCall → Step

-- The manager, the world, and whether the goroutine still runs, its watcher open.
pub record Watching (W : Type 0) : Type 0 where
  pub manager : Manager
  pub world : W
  pub is_running : Bool

module _ {W : Type 0} (api : ServerApi W) (kubelet_socket : String) where
  -- The goroutine ends, and closes its watcher.
  ended : Watching W → Watching W
  ended s = record s { is_running = false }

  on_received : Received → Watching W → Watching W
  unfolding ended
  on_received context_done s = ended s
  on_received events_closed s = ended s
  on_received errors_closed s = ended s
  on_received watch_error s = s
  on_received (event e) s = record s {
    world = on_watch_event api kubelet_socket e s.manager s.world;
  }

  call_other : ManagerCall → Watching W → Watching W
  call_other c s =
      let (m, w) = call api kubelet_socket c s.manager s.world in
      record s { manager = m; world = w }

  unfoldable pub step : Step → Watching W → Watching W
  unfolding on_received call_other
  step (receive r) s = elim s.is_running [ true ↦ on_received r s | false ↦ s ]
  step (other c) s = call_other c s

  pub steps : List Step → Watching W → Watching W
  unfolding step
  steps [] s = s
  steps (x ∷ xs) s = steps xs (step x s)
