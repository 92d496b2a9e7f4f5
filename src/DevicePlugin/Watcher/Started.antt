-- ===== src/DevicePlugin/Watcher/Started.antt =====
-- What `NewManager` of pkg/deviceplugin/manager.go leaves, whether it fails or not.
use dra_driver_ovsdpdk_upstr.Base.{
  String, ◌≡◌, refl, ◌∙◌, inl, inr, Bool, true, false, Result, ok, err, panic, Error, Result-cases,
}
use dra_driver_ovsdpdk_upstr.Base.FilePath
use dra_driver_ovsdpdk_upstr.DevicePlugin.{Manager}
use dra_driver_ovsdpdk_upstr.DevicePlugin.Calls.{new_manager}
use dra_driver_ovsdpdk_upstr.DevicePlugin.Watcher.{
  Fsnotify, added, add_or_close, start_kubelet_watcher, watched, create_manager,
}

module _ {W : Type 0} (fs : Fsnotify W) where
  -- What is seen of a world: whether a watcher is open, and whether the client's notifier is set. What
  -- the calls promise of it.
  pub record Shows (is_open notifies : W → Bool) : Type 0 where
    pub new_ok : (w : W) → (fs.new_watcher w).0 ≡ ok tt → is_open (fs.new_watcher w).1 ≡ true
    pub new_err :
        (w : W) (e : Error)
        → (fs.new_watcher w).0 ≡ err e
        → is_open (fs.new_watcher w).1 ≡ is_open w
    pub new-notifies : (w : W) → notifies (fs.new_watcher w).1 ≡ notifies w
    pub add : (d : String) (w : W) → is_open (fs.add d w).1 ≡ is_open w
    pub add-notifies : (d : String) (w : W) → notifies (fs.add d w).1 ≡ notifies w
    pub close : (w : W) → is_open (fs.close w) ≡ false
    pub close-notifies : (w : W) → notifies (fs.close w) ≡ notifies w
    pub spawn : (w : W) → is_open (fs.spawn w) ≡ is_open w
    pub spawn-notifies : (w : W) → notifies (fs.spawn w) ≡ notifies w
    pub set : (w : W) → is_open (fs.set_interface_notifier w) ≡ is_open w
    pub set-notifies : (w : W) → notifies (fs.set_interface_notifier w) ≡ true
    pub clear : (w : W) → is_open (fs.clear_interface_notifier w) ≡ is_open w
    pub clear-notifies : (w : W) → notifies (fs.clear_interface_notifier w) ≡ false

  module _ (kubelet_socket : String) (is_open notifies : W → Bool)
      (p : Shows is_open notifies) where
    abbrev pub Made : Result Manager → W → Type 0
    Made (ok m) w = (m ≡ new_manager) × (is_open w ≡ true) × (notifies w ≡ true)
    Made (err e) w = (is_open w ≡ false) × (notifies w ≡ false)
    Made panic w = Unit

    abbrev Watches : Result (Unit {0}) → W → Type 0
    Watches (ok _) w = (is_open w ≡ true) × (notifies w ≡ true)
    Watches (err e) w = is_open w ≡ false
    Watches panic w = Unit

    added-Watches :
        (r : Result (Unit {0})) (w : W)
        → is_open w ≡ true
        → notifies w ≡ true
        → let s = added fs kubelet_socket r w in Watches s.0 s.1
    unfolding added
    added-Watches (ok a) w h n = (p.spawn w ∙ h, p.spawn-notifies w ∙ n)
    added-Watches (err e) w h n = p.close w
    added-Watches panic w h n = tt

    watcher-Watches :
        (w : W)
        → is_open w ≡ false
        → notifies w ≡ true
        → let s = start_kubelet_watcher fs kubelet_socket w in Watches s.0 s.1
    unfolding start_kubelet_watcher add_or_close
    watcher-Watches w h n =
        let w' = (fs.new_watcher w).1 in
        let d = FilePath.dir kubelet_socket in
        elim (Result-cases (fs.new_watcher w).0) [
          | inl (tt, e) ↦ rw e (
              added-Watches (fs.add d w').0 (fs.add d w').1 (p.add d w' ∙ p.new_ok w e)
                (p.add-notifies d w' ∙ p.new-notifies w ∙ n))
          | inr (inl (x, e)) ↦ rw e (p.new_err w x e ∙ h)
          | inr (inr e) ↦ rw e tt
        ]

    watched-Made :
        (r : Result (Unit {0})) (w : W)
        → Watches r w
        → let s = watched fs kubelet_socket r w in Made s.0 s.1
    unfolding watched
    watched-Made (ok _) w h = (refl, h.0, h.1)
    watched-Made (err e) w h = (p.clear w ∙ h, p.clear-notifies w)
    watched-Made panic w h = tt

    -- If `NewManager` returns a manager, it has no servers, a watcher is open and the client's notifier
    -- is set; if it fails, at whatever step, no watcher is open and no notifier is set.
    pub create_manager-Made :
        (w : W) → is_open w ≡ false → let s = create_manager fs kubelet_socket w in Made s.0 s.1
    unfolding create_manager
    create_manager-Made w h =
        let start = fs.set_interface_notifier w in
        let s = start_kubelet_watcher fs kubelet_socket start in
        watched-Made s.0 s.1 (watcher-Watches start (p.set w ∙ h) (p.set-notifies w))
