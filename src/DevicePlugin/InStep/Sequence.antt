-- ===== src/DevicePlugin/InStep/Sequence.antt =====
-- Sequences of calls of the manager, and the servers that run.
use dra_driver_ovsdpdk_upstr.Base.{
  String, ◌≡◌, refl, ◌∙◌, inl, inr, Bool, false, ◌&&◌, Option, none, some, List, [], ◌∷◌,
  Bool-cases, All, if◌then◌else◌, ◌==◌, arith,
}
use dra_driver_ovsdpdk_upstr.Base.FilePath
use dra_driver_ovsdpdk_upstr.Base.Map
use dra_driver_ovsdpdk_upstr.Base.Map.{Map, get-delete}
use dra_driver_ovsdpdk_upstr.DevicePlugin.{
  Server, ServerApi, Manager, resource_of, stop_loop, stop_all, reregister_all,
}
use dra_driver_ovsdpdk_upstr.DevicePlugin.Calls.{
  ManagerCall, update, interface_change, watch_event, stop, new_manager, on_watch_event, call,
  calls, Runs,
}
use dra_driver_ovsdpdk_upstr.DevicePlugin.InStep.{
  has, InStep, update-InStep, change-InStep, stop_loop-ServersRun, register_each-ServersRun,
}

-- The bridges of an update ask for named resources.
abbrev pub IsAllowed : (String → Type 0) → ManagerCall → Type 0
IsAllowed Named (update nodes bridges) = All (λ b. Named (resource_of b)) bridges
IsAllowed Named (interface_change nodes bridge) = Unit
IsAllowed Named (watch_event event) = Unit
IsAllowed Named stop = Unit

module _ {W : Type 0} (api : ServerApi W) (kubelet_socket : String) (Named : String → Type 0)
    (running : W → String → Bool) (runs : Runs api Named running) where
  call-InStep :
      (c : ManagerCall) (m : Manager) (w : W)
      → IsAllowed Named c
      → InStep api Named running m w
      → let s = call api kubelet_socket c m w in InStep api Named running s.0 s.1
  unfolding call on_watch_event stop_all reregister_all
  call-InStep (update nodes bridges) m w allowed is =
      update-InStep api Named running runs nodes bridges m w allowed is
  call-InStep (interface_change nodes bridge) m w allowed is =
      change-InStep api Named running runs nodes bridge m w is
  call-InStep (watch_event event) m w allowed is =
      elim (Bool-cases
        (event.is_create && FilePath.base event.path == FilePath.base kubelet_socket)) [
          | inl e ↦ rw e (
            is.0,
            register_each-ServersRun api Named running runs m.servers m.servers w is.1.0 is.1,
          )
          | inr e ↦ rw e is
        ]
  call-InStep stop m w allowed is =
      (is.0, stop_loop-ServersRun api Named running runs m.servers m.servers w is.1.0 is.1)

  calls-InStep :
      (cs : List ManagerCall) (m : Manager) (w : W)
      → All (IsAllowed Named) cs
      → InStep api Named running m w
      → let s = calls api kubelet_socket cs m w in InStep api Named running s.0 s.1
  unfolding calls
  calls-InStep [] m w allowed is = is
  calls-InStep (c ∷ cs) m w allowed is =
      calls-InStep cs _ _ allowed.1 (call-InStep c m w allowed.0 is)

  -- From a manager without servers, in a world where none runs, whatever updates, interface changes,
  -- restarts of the kubelet and stops come in whatever order, and whatever servers fail to start: of the
  -- named resources, those whose server runs are those that the manager has a server for.
  pub calls_run :
      (cs : List ManagerCall) (w : W)
      → All (IsAllowed Named) cs
      → ((r : String) → Named r → running w r ≡ false)
      → let s = calls api kubelet_socket cs new_manager w in
        (r : String) → Named r → running s.1 r ≡ has (Map.get s.0.servers r)
  unfolding Map.get
  calls_run cs w allowed idle = (calls-InStep cs new_manager w allowed (tt, (tt, idle))).1.1

  get-stop_loop :
      (loop servers : Map Server) (w : W) (r : String)
      → Map.get (stop_loop api loop servers w).0 r
        ≡ (if has (Map.get loop r) then none else Map.get servers r)
  unfolding stop_loop Map.get
  get-stop_loop [] servers w r = refl
  get-stop_loop ((resource, srv) ∷ rest) servers w r =
      get-stop_loop rest _ _ r ∙ ground (arith, get-delete servers resource r)

  -- After a stop no server of a named resource runs.
  pub stop_runs_none :
      (cs : List ManagerCall) (w : W)
      → All (IsAllowed Named) cs
      → ((r : String) → Named r → running w r ≡ false)
      → let s = calls api kubelet_socket cs new_manager w in
        (r : String) → Named r → running (stop_all api s.0 s.1).1 r ≡ false
  unfolding Map.get stop_all
  stop_runs_none cs w allowed idle r named =
      let s = calls api kubelet_socket cs new_manager w in
      let is = calls-InStep cs new_manager w allowed (tt, (tt, idle)) in
      let after =
        stop_loop-ServersRun api Named running runs s.0.servers s.0.servers s.1 is.1.0 is.1 in
      after.1 r named
      ∙ rw (get-stop_loop s.0.servers s.0.servers s.1 r) (none_left (Map.get s.0.servers r))
    where
      none_left : (o : Option Server) → has (if has o then none else o) ≡ false
      none_left none = refl
      none_left (some srv) = refl
