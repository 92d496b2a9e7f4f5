-- ===== src/DevicePlugin/Service/Running.antt =====
-- The servers as the manager sees them, over what gRPC documents.
use dra_driver_ovsdpdk_upstr.Base.{
  String, ◌≡◌, refl, sym, ap, ◌∙◌, ◌⊎◌, inl, inr, Bool, true, false, not, ◌&&◌, ◌||◌, Option, none,
  some, List, Error, Option-cases, Bool-cases, All, ◌==◌, eq_iff, arith,
}
use dra_driver_ovsdpdk_upstr.Base.Map
use dra_driver_ovsdpdk_upstr.DevicePlugin.{Server}
use dra_driver_ovsdpdk_upstr.DevicePlugin.Calls.{ManagerCall, new_manager, calls, Runs}
use dra_driver_ovsdpdk_upstr.DevicePlugin.InStep.{has}
use dra_driver_ovsdpdk_upstr.DevicePlugin.InStep.Sequence.{IsAllowed, calls_run}
use dra_driver_ovsdpdk_upstr.DevicePlugin.Service.{
  PluginApi, RegisterRequest, Net, target, request, socket_path, register, but_not_exist, take_back,
  start, stop_grpc, stop, server_api,
}
use dra_driver_ovsdpdk_upstr.DevicePlugin.Service.SocketPath.{
  IsTopologyResource, documented_path, socket_path_injective,
}

-- `serving` says whether a gRPC server serves a path. Only making one, stopping one, and a graceful stop
-- that ends change it, while the context is not done.
pub record Serves {W : Type 0} (net : Net W) (serving : W → String → Bool) : Type 0 where
  pub removing : (p q : String) (w : W) → serving (net.remove p w).1 q ≡ serving w q
  pub listening : (p q : String) (w : W) → serving (net.listen p w).1 q ≡ serving w q
  pub dialling : (p q : String) (w : W) → serving (net.new_client p w).1 q ≡ serving w q
  pub closing : (p q : String) (w : W) → serving (net.close_client p w) q ≡ serving w q
  pub registering :
      (p q : String) (w : W) (r : RegisterRequest)
      → serving (net.call_register p r w).1 q ≡ serving w q
  pub making :
      (p q : String) (s : Server) (w : W) → serving (net.serve p s w) q ≡ (p == q || serving w q)
  pub watching : (p q : String) (w : W) → serving (net.watch_context p w) q ≡ serving w q
  pub stopping : (p q : String) (w : W) → serving (net.stop p w) q ≡ (not (p == q) && serving w q)
  pub ending :
      (p q : String) (w : W)
      → (net.graceful_stop p w).0 ≡ true
      → serving (net.graceful_stop p w).1 q ≡ (not (p == q) && serving w q)
  pub hanging :
      (p q : String) (w : W)
      → (net.graceful_stop p w).0 ≡ false
      → serving (net.graceful_stop p w).1 q ≡ serving w q

module _ {W : Type 0} (plugin : PluginApi) (net : Net W) (serving : W → String → Bool)
    (serves : Serves net serving) where
  register-serving :
      (s : Server) (q : String) (w : W) → serving (register plugin net s w).1 q ≡ serving w q
  unfolding register
  register-serving s q w = elim (Option-cases (net.new_client (target plugin net) w).0) [
    | inr (e, f) ↦ rw (f, register) (serves.dialling (target plugin net) q w)
    | inl f ↦
        let w₁ = (net.new_client (target plugin net) w).1 in
        let w₂ = (net.call_register (target plugin net) (request plugin net s) w₁).1 in
        rw (f, register)
          (serves.closing (target plugin net) q w₂
            ∙ serves.registering (target plugin net) q w₁ (request plugin net s)
            ∙ serves.dialling (target plugin net) q w)
  ]

  taken_back :
      (path q : String) (w : W) (now : Bool)
      → serving w path ≡ false
      → now ≡ (path == q || serving w q)
      → (not (path == q) && now) ≡ serving w q
  taken_back path q w now idle e = elim (Bool-cases (path == q)) [
    | inl same ↦ rw same (sym (ap (serving w) (sym ((eq_iff path q).0 same)) ∙ idle))
    | inr other ↦ rw other (e ∙ rw other refl)
  ]

  -- A server that starts serves its path; one that does not leaves a path that nothing served as it was.
  Started : String → W → Option Error × W → Type 0
  Started path w r =
      ((r.0 ≡ none) × ((q : String) → serving r.1 q ≡ (path == q || serving w q)))
      ⊎ ((e : Error) × (r.0 ≡ some e)
          × ((q : String) → serving w path ≡ false → serving r.1 q ≡ serving w q))

  start-Started :
      (s : Server) (w : W) → Started (socket_path plugin s.resource_name) w (start plugin net s w)
  unfolding start take_back Started
  start-Started s w =
      let path = socket_path plugin s.resource_name in
      let w₁ = (net.remove path w).1 in
      let w₂ = (net.listen path w₁).1 in
      let served = net.serve path s w₂ in
      let w₃ = net.watch_context path served in
      let r = register plugin net s w₃ in
      let before = λ (q : String). serves.listening path q w₁ ∙ serves.removing path q w in
      let after = λ (q : String).
        register-serving s q w₃
        ∙ serves.watching path q served
        ∙ serves.making path q s w₂
        ∙ ap (λ b. path == q || b) (before q) in
      elim (Option-cases (but_not_exist plugin net (net.remove path w).0)) [
        | inr (e, f) ↦ rw (f, start) (inr (_, refl, λ q idle. serves.removing path q w))
        | inl f ↦ elim (Option-cases (net.listen path w₁).0) [
          | inr (e, g) ↦ rw (f, start, g) (inr (_, refl, λ q idle. before q))
          | inl g ↦ elim (Option-cases r.0) [
            | inl h ↦ rw (f, start, g, h, take_back) (inl (refl, after))
            | inr (e, h) ↦
                rw (f, start, g, h, take_back)
                  (inr (
                    _,
                    refl,
                    λ q idle.
                        serves.removing path q (net.stop path r.1)
                        ∙ serves.stopping path q r.1
                        ∙ taken_back path q w (serving r.1 q) idle (after q),
                  ))
          ]
        ]
      ]

  stop-serving :
      (s : Server) (q : String) (w : W)
      → let path = socket_path plugin s.resource_name in
        serving (stop plugin net true s w) q ≡ (not (path == q) && serving w q)
  unfolding stop stop_grpc
  stop-serving s q w =
      let path = socket_path plugin s.resource_name in
      let w₁ = (net.graceful_stop path w).1 in
      elim (Bool-cases (net.graceful_stop path w).0) [
        | inl e ↦ rw (e, stop, stop_grpc) (serves.removing path q w₁ ∙ serves.ending path q w e)
        | inr e ↦
            rw (e, stop, stop_grpc)
              (serves.removing path q (net.stop path w₁)
                ∙ serves.stopping path q w₁
                ∙ ap (λ b. not (path == q) && b) (serves.hanging path q w e))
      ]

  module _ (documented : plugin.device_plugin_path ≡ documented_path) where
    path_eq :
        (r r' : String)
        → IsTopologyResource r
        → IsTopologyResource r'
        → (socket_path plugin r == socket_path plugin r') ≡ (r == r')
    path_eq r r' is is' = elim (Bool-cases (r == r')) [
      | inl same ↦ rw same ((eq_iff _ _).1 (ap (socket_path plugin) ((eq_iff r r').0 same)))
      | inr other ↦ elim (Bool-cases (socket_path plugin r == socket_path plugin r')) [
        | inr ne ↦ rw (other, ne) refl
        | inl e ↦
            let it = socket_path_injective plugin r r' documented is is' ((eq_iff _ _).0 e) in
            absurd (ground (arith, other, it, eq_iff r r'))
      ]
    ]

    pub server_api-Runs :
        Runs (server_api plugin net) IsTopologyResource (λ w r. serving w (socket_path plugin r))
    unfolding server_api Started
    server_api-Runs = record {
      started = λ s w r is is' e. elim (start-Started s w) [
        | inl (f, all) ↦
            all (socket_path plugin r)
            ∙ ap (λ b. b || serving w (socket_path plugin r)) (path_eq s.resource_name r is is')
        | inr (x, f, all) ↦ absurd (cc (sym e ∙ f))
      ];
      failed = λ s w r x is is' idle e. elim (start-Started s w) [
        | inl (f, all) ↦ absurd (cc (sym e ∙ f))
        | inr (y, f, all) ↦ all (socket_path plugin r) idle
      ];
      stopped = λ s w r is is'.
          stop-serving s (socket_path plugin r) w
          ∙ ap (λ b. not b && serving w (socket_path plugin r)) (path_eq s.resource_name r is is');
      registered = λ s w r is is'. register-serving s (socket_path plugin r) w;
    }

    -- Where gRPC does what it documents, the kubelet's directory is the documented one and the context is
    -- not done: from a manager without servers, whatever updates, interface changes, registrations anew
    -- and stops come, and whatever servers cannot listen, register or stop in time, the topology
    -- resources for whose socket path a gRPC server runs are exactly those that the manager has a server
    -- for. (Whether the socket is still in the file system is not said: a kubelet that restarts deletes
    -- the sockets, and registering anew does not make them again.)
    pub sockets_served :
        (cs : List ManagerCall) (w : W)
        → All (IsAllowed IsTopologyResource) cs
        → ((r : String) → IsTopologyResource r → serving w (socket_path plugin r) ≡ false)
        → let s = calls (server_api plugin net) plugin.kubelet_socket cs new_manager w in
          (r : String)
          → IsTopologyResource r
          → serving s.1 (socket_path plugin r) ≡ has (Map.get s.0.servers r)
    sockets_served cs w allowed idle =
        calls_run (server_api plugin net) plugin.kubelet_socket IsTopologyResource
          (λ v r. serving v (socket_path plugin r)) server_api-Runs cs w allowed idle
