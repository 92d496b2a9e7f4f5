-- ===== src/Command/App.antt =====
-- cmd/dra-driver-ovsdpdk/main.go: `main` and `newApp`, and the clients of pkg/flags/kubeclient.go. The library
-- of the command line and the libraries of Kubernetes are parameters.
pub mod Ended
use dra_driver_ovsdpdk_upstr.Base.{
  ℕ, String, Bool, true, false, Option, none, some, List, [], ◌∷◌, ℤ, Error, msg, ◌⊎◌, inl, inr,
}
use dra_driver_ovsdpdk_upstr.Command.{Flags, Parts, run}
use dra_driver_ovsdpdk_upstr.Command.Options.{Flag, PFlag, cli_flags}

pub record KubeClientConfig (F : Type 0) : Type 0 where
  pub kube_api_qps : F
  pub kube_api_burst : ℤ

-- What the flags store. `types.Flags` has the other fields that `run` uses.
pub record Settings (F : Type 0) : Type 0 where
  pub flags : Flags
  pub kubelet_registrar_directory_path : String
  pub kube_client_config : KubeClientConfig F

-- `rest.Config`, its fields that the program sets
pub record RestConfig (G H : Type 0) : Type 0 where
  pub qps : G
  pub burst : ℤ
  pub others : H

-- `ctrl.Options`
pub record ManagerOptions : Type 0 where
  pub metrics_bind_address : String
  pub health_probe_bind_address : String
  pub leader_election : Bool
  pub default_namespaces : List String

-- What the program calls before `run`. Floating-point numbers of 64 and of 32 bits are of the types `F`
-- and `G`; `K` is a client and `M` a controller manager. `report` writes the error to stderr.
pub record Libraries (W F G H K M : Type 0) : Type 0 where
  pub float32 : F → G
  pub apply_logging : W → Option Error × W
  pub set_logger : W → W
  pub in_cluster_config : W → (Error ⊎ RestConfig G H) × W
  pub new_for_config : RestConfig G H → W → (Error ⊎ K) × W
  pub new_manager : RestConfig G H → ManagerOptions → W → (Error ⊎ M) × W
  pub report : Error → W → W

-- `cli.App`
pub record App (W F V : Type 0) : Type 0 where
  pub name : String
  pub usage : String
  pub args_usage : String
  pub hide_help_command : Bool
  pub flags : List (Flag F V)
  pub before : List String → W → Option Error × W
  pub action : Settings F → W → Option Error × W

-- `x, err := m; if err != nil { return fmt.Errorf("text: %v", err) }`, and the rest of the function.
abbrev or_report :
    {W A : Type 0}
    → String
    → (W → (Error ⊎ A) × W)
    → (A → W → Option Error × W)
    → W
    → Option Error × W
or_report text m rest w =
    let (r, w') = m w in elim r [ inl e ↦ (some (msg text), w') | inr a ↦ rest a w' ]

manager_options : String → ManagerOptions
manager_options namespace = record {
  metrics_bind_address = "0";
  health_probe_bind_address = "0";
  leader_election = false;
  default_namespaces = namespace ∷ [];
}

module _ {W F G H K M : Type 0} (libs : Libraries W F G H K M) where
  configured : KubeClientConfig F → Error ⊎ RestConfig G H → Error ⊎ RestConfig G H
  configured k (inl e) = inl (msg "create in-cluster client configuration: %v")
  configured k (inr cfg) =
      inr (record cfg { qps = libs.float32 k.kube_api_qps; burst = k.kube_api_burst })

  -- `RestConfig`
  rest_config : KubeClientConfig F → W → (Error ⊎ RestConfig G H) × W
  unfolding configured
  rest_config k w = let (r, w') = libs.in_cluster_config w in (configured k r, w')

  created : Error ⊎ K → Error ⊎ K
  created (inl e) = inl (msg "create core client: %v")
  created (inr client) = inr client

  -- `NewCoreClient`
  new_core_client : KubeClientConfig F → W → (Error ⊎ K) × W
  unfolding rest_config created
  new_core_client k w =
      let (r, w₁) = rest_config k w in
      elim r [
        | inl e ↦ (inl e, w₁)
        | inr cfg ↦ let (client, w₂) = libs.new_for_config cfg w₁ in (created client, w₂)
      ]

  -- `app.Before`, with the arguments that are no flags
  before : List String → W → Option Error × W
  before (_ ∷ _) w = (some (msg "arguments not supported: %v"), w)
  before [] w =
      let (failed, w') = libs.apply_logging w in
      elim failed [ some e ↦ (some e, w') | none ↦ (none, libs.set_logger w') ]

  with_client : (K → M → Parts W) → Settings F → RestConfig G H → K → W → Option Error × W
  unfolding manager_options
  with_client parts settings cfg client =
      or_report "create controller manager: %v"
        (libs.new_manager cfg (manager_options settings.flags.namespace))
        (λ mgr. run (parts client mgr) settings.flags)

  with_config : (K → M → Parts W) → Settings F → RestConfig G H → W → Option Error × W
  unfolding new_core_client with_client
  with_config parts settings cfg =
      or_report "create client: %v" (new_core_client settings.kube_client_config)
        (with_client parts settings cfg)

  -- `app.Action`; `run` gets the client and the controller manager.
  action : (K → M → Parts W) → Settings F → W → Option Error × W
  unfolding rest_config with_config
  action parts settings =
      or_report "create REST config: %v" (rest_config settings.kube_client_config)
        (with_config parts settings)

  -- `newApp`; `added`, `gates` and `known` are of Kubernetes' logging.
  pub new_app : {V : Type 0} → (K → M → Parts W) → F → List (PFlag V) → V → List String → App W F V
  unfolding before action
  new_app parts five added gates known = record {
    name = "dra-driver-ovsdpdk";
    usage = "dra-driver-ovsdpdk implements a DRA driver for OVS-DPDK vhost-user ports.";
    args_usage = " ";
    hide_help_command = true;
    flags = cli_flags five added gates known;
    before = before;
    action = action parts;
  }

  exit_with : Option Error → W → ℕ × W
  exit_with none w = (0, w)
  exit_with (some e) w = (1, libs.report e w)

  -- `main`, with the exit status; `run_app` is `Run` of the library of the command line.
  pub main :
      {V : Type 0}
      → (App W F V → List String → W → Option Error × W)
      → App W F V
      → List String
      → W
      → ℕ × W
  unfolding exit_with
  main run_app app args w = let (r, w') = run_app app args w in exit_with r w'
