-- ===== src/DevicePlugin/InStep.antt =====
-- The manager's servers and those that run, call by call.
pub mod Asked
pub mod Sequence
use dra_driver_ovsdpdk_upstr.Base.{
  ℕ, String, ◌≡◌, refl, sym, ap, ◌∙◌, subst, inl, inr, Bool, true, false, not, ◌&&◌, ◌||◌, Option,
  none, some, List, [], ◌∷◌, ◌++◌, ℤ, pos, negsuc, eq_ℤ, Error, Result, ok, err, panic,
  Result-cases, Bool-cases, Option-cases, All, if◌then◌else◌, ◌==◌, eq_iff, eq_refl, arith,
}
use dra_driver_ovsdpdk_upstr.Base.Map
use dra_driver_ovsdpdk_upstr.Base.Map.{Map, get-put, get-delete, All-put, All-delete, All-get}
use dra_driver_ovsdpdk_upstr.Api.{BridgeSpec}
use dra_driver_ovsdpdk_upstr.DevicePlugin.{
  Server, ServerApi, Manager, Groups, resource_of, or_nil, add_bridge, group_bridges, start_server,
  start_if_valid, ensure_at, ensure_server, stop_unwanted, ensure_all, reconcile, update_resources,
  on_interface_change, stop_loop, stop_all, register_each, reregister_all, new_server,
  get_consistent_numa,
}
use dra_driver_ovsdpdk_upstr.DevicePlugin.Grouping.{fresh_groups}
use dra_driver_ovsdpdk_upstr.DevicePlugin.InStep.Asked.{group_bridges-AreNamed}
use dra_driver_ovsdpdk_upstr.DevicePlugin.Calls.{
  ManagerCall, update, interface_change, watch_event, stop, WatchEvent, on_watch_event, call, calls,
  Runs,
}

abbrev pub has {ℓ} : {A : Type ℓ} → Option A → Bool
has none = false
has (some _) = true

module _ {W : Type 0} (api : ServerApi W) (Named : String → Type 0)
    (running : W → String → Bool) where
  -- Each server stands under its resource, which is named, and the servers that run are these.
  abbrev pub ServersRun : Map Server → W → Type 0
  ServersRun servers w =
      All (λ e. (e.1.resource_name ≡ e.0) × Named e.0) servers
      × ((r : String) → Named r → running w r ≡ has (Map.get servers r))

  abbrev pub InStep : Manager → W → Type 0
  InStep m w = All (λ e. Named e.1) m.topology × ServersRun m.servers w

  module _ (runs : Runs api Named running) where
    deleted-has :
        (servers : Map Server) (resource r : String)
        → has (Map.get (Map.delete servers resource) r)
          ≡ (not (resource == r) && has (Map.get servers r))
    deleted-has servers resource r = ground (arith, get-delete servers resource r)

    -- A server that is stopped and taken from the map.
    stop-ServersRun :
        (servers : Map Server) (w : W) (resource : String) (srv : Server)
        → srv.resource_name ≡ resource
        → Named resource
        → ServersRun servers w
        → ServersRun (Map.delete servers resource) (api.stop srv w)
    stop-ServersRun servers w resource srv is named (entries, run) = (
      All-delete _ servers resource entries,
      λ r nr.
          runs.stopped srv w r (subst Named (sym is) named) nr
          ∙ rw (is, run r nr) (sym (deleted-has servers resource r)),
    )

    start-ServersRun :
        (resource : String) (numa : ℕ) (servers : Map Server) (w : W)
        → Named resource
        → Map.get servers resource ≡ none
        → ServersRun servers w
        → let s = start_server api resource numa servers w in ServersRun s.1.0 s.1.1
    unfolding start_server
    start-ServersRun resource numa servers w named free (entries, run) =
        let srv = new_server resource numa in
        elim (Option-cases (api.start srv w).0) [
          | inl e ↦
              rw (e, start_server)
                (
                  All-put _ servers resource srv entries (refl, named),
                  λ r nr.
                      runs.started srv w r named nr e
                      ∙ rw (run r nr) (ground (arith, get-put servers resource srv r)),
                )
          | inr (x, e) ↦
              rw (e, start_server)
                (
                  entries,
                  λ r nr.
                      runs.failed srv w r x named nr (run resource named ∙ ap has free) e
                      ∙ run r nr,
                )
        ]

    start_if_valid-ServersRun :
        (resource : String) (numa : ℤ) (servers : Map Server) (w : W)
        → Named resource
        → Map.get servers resource ≡ none
        → ServersRun servers w
        → let s = start_if_valid api resource numa servers w in ServersRun s.1.0 s.1.1
    unfolding start_if_valid
    start_if_valid-ServersRun resource (negsuc n) servers w named free run = run
    start_if_valid-ServersRun resource (pos n) servers w named free run =
        start-ServersRun resource n servers w named free run

    ensure-ServersRun :
        (resource : String) (numa : ℤ) (servers : Map Server) (w : W)
        → Named resource
        → ServersRun servers w
        → let s = ensure_at api resource numa servers w in ServersRun s.1.0 s.1.1
    unfolding ensure_at
    ensure-ServersRun resource numa servers w named run =
        elim (Option-cases (Map.get servers resource)) [
          | inl e ↦
              rw (e, ensure_at) (start_if_valid-ServersRun resource numa servers w named e run)
          | inr (srv, e) ↦ elim (Bool-cases (eq_ℤ srv.numa_node numa)) [
            | inl same ↦ rw (e, same, ensure_at) run
            | inr other ↦
                let entry = All-get _ servers resource srv run.0 e in
                rw (e, other, ensure_at)
                  (start_if_valid-ServersRun resource numa (Map.delete servers resource)
                    (api.stop srv w) named
                    (rw (get-delete servers resource resource, eq_refl resource) refl)
                    (stop-ServersRun servers w resource srv entry.0 named run))
          ]
        ]

    ensure_all-ServersRun :
        (nodes : String → List ℤ) (groups : Map (List String)) (servers : Map Server) (w : W)
        → All (λ e. Named e.0) groups
        → ServersRun servers w
        → let s = ensure_all api nodes groups servers w in ServersRun s.1.0 s.1.1
    unfolding ensure_all ensure_server
    ensure_all-ServersRun nodes [] servers w named run = run
    ensure_all-ServersRun nodes ((resource, bridges) ∷ rest) servers w named run =
        ensure_all-ServersRun nodes rest _ _ named.1
          (ensure-ServersRun resource (get_consistent_numa nodes bridges) servers w named.0 run)

    stop_unwanted-ServersRun :
        (loop : Map Server) (groups : Map (List String)) (servers : Map Server) (w : W)
        → All (λ e. (e.1.resource_name ≡ e.0) × Named e.0) loop
        → ServersRun servers w
        → let s = stop_unwanted api loop groups servers w in ServersRun s.0 s.1
    unfolding stop_unwanted
    stop_unwanted-ServersRun [] groups servers w entries run = run
    stop_unwanted-ServersRun ((resource, srv) ∷ rest) groups servers w entries run =
        elim (Option-cases (Map.get groups resource)) [
          | inr (bridges, e) ↦
              rw (e, stop_unwanted) (stop_unwanted-ServersRun rest groups servers w entries.1 run)
          | inl e ↦
              rw (e, stop_unwanted)
                (stop_unwanted-ServersRun rest groups _ _ entries.1
                  (stop-ServersRun servers w resource srv entries.0.0 entries.0.1 run))
        ]

    update-InStep :
        (nodes : String → List ℤ) (bs : List BridgeSpec) (m : Manager) (w : W)
        → All (λ b. Named (resource_of b)) bs
        → InStep m w
        → let s = update_resources api nodes bs m w in InStep s.1.0 s.1.1
    unfolding update_resources reconcile
    update-InStep nodes bs m w named (topology, run) =
        elim (Result-cases (group_bridges bs ([], []))) [
          | inl (g, e) ↦
              let are = group_bridges-AreNamed Named bs ([], []) g named (tt, tt) e in
              rw (e, update_resources)
                (
                  are.0,
                  ensure_all-ServersRun nodes g.1 _ _ are.1
                      (stop_unwanted-ServersRun m.servers g.1 m.servers w run.0 run),
                )
          | inr (inl (x, e)) ↦ rw (e, update_resources) (topology, run)
          | inr (inr e) ↦ rw (e, update_resources) (topology, run)
        ]

    change-InStep :
        (nodes : String → List ℤ) (bridge : String) (m : Manager) (w : W)
        → InStep m w
        → let s = on_interface_change api nodes bridge m w in InStep s.0 s.1
    unfolding on_interface_change ensure_server
    change-InStep nodes bridge m w (topology, run) =
        elim (Option-cases (Map.get m.topology bridge)) [
          | inl e ↦ rw (e, on_interface_change) (topology, run)
          | inr (resource, e) ↦
              rw (e, on_interface_change)
                (
                  topology,
                  ensure-ServersRun resource _ m.servers w
                      (All-get _ m.topology bridge resource topology e) run,
                )
        ]

    stop_loop-ServersRun :
        (loop servers : Map Server) (w : W)
        → All (λ e. (e.1.resource_name ≡ e.0) × Named e.0) loop
        → ServersRun servers w
        → let s = stop_loop api loop servers w in ServersRun s.0 s.1
    unfolding stop_loop
    stop_loop-ServersRun [] servers w entries run = run
    stop_loop-ServersRun ((resource, srv) ∷ rest) servers w entries run =
        stop_loop-ServersRun rest _ _ entries.1
          (stop-ServersRun servers w resource srv entries.0.0 entries.0.1 run)

    register_each-ServersRun :
        (loop servers : Map Server) (w : W)
        → All (λ e. (e.1.resource_name ≡ e.0) × Named e.0) loop
        → ServersRun servers w
        → ServersRun servers (register_each api loop w)
    unfolding register_each
    register_each-ServersRun [] servers w entries run = run
    register_each-ServersRun ((resource, srv) ∷ rest) servers w entries run =
        register_each-ServersRun rest servers _ entries.1 (
          run.0,
          λ r nr.
              runs.registered srv w r (subst Named (sym entries.0.0) entries.0.1) nr ∙ run.1 r nr,
        )
