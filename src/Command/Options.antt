-- ===== src/Command/Options.antt =====
-- The declaration of the command-line flags: `newApp` of cmd/dra-driver-ovsdpdk/main.go, and `Flags` of
-- pkg/flags/kubeclient.go and pkg/flags/logging.go. The floating-point numbers, and the flags of Kubernetes'
-- logging with the values that they write to, are parameters.
use Prim.Native.Char.{Char, code}
use dra_driver_ovsdpdk_upstr.Base.{
  String, Bool, true, false, List, [], ◌∷◌, ◌++◌, map, ℤ, pos, concat, join_with, nat_eq,
  if◌then◌else◌,
}
use dra_driver_ovsdpdk_upstr.Api.Consts.{default_namespace}
use dra_driver_ovsdpdk_upstr.Ovs.Connect.{default_ovs_run_dir}

abbrev pub default_kubelet_registrar_dir : String
default_kubelet_registrar_dir = "/var/lib/kubelet/plugins_registry"

abbrev pub default_kubelet_plugins_dir : String
default_kubelet_plugins_dir = "/var/lib/kubelet/plugins"

-- Where a flag stores its value: a field of `types.Flags` or of `KubeClientConfig`, or a value of pflag.
pub data Destination (V : Type 0) : Type 0 where
  to_node_name to_namespace to_config_name to_cdi_root to_kubelet_registrar_directory_path :
      Destination V
  to_kubelet_plugins_directory_path to_ovs_run_dir to_enable_device_metadata : Destination V
  to_kube_api_qps to_kube_api_burst : Destination V
  to_value : V → Destination V

-- The default of a flag.
pub data Default (F V : Type 0) : Type 0 where
  no_default : Default F V
  string_default : String → Default F V
  bool_default : Bool → Default F V
  float64_default : F → Default F V
  int_default : ℤ → Default F V
  generic_default : V → Default F V

-- `cli.Flag`, the fields that the program sets
pub record Flag (F V : Type 0) : Type 0 where
  pub category : String
  pub name : String
  pub usage : String
  pub required : Bool
  pub value : Default F V
  pub destination : Destination V
  pub env_vars : List String

-- `pflag.Flag`
pub record PFlag (V : Type 0) : Type 0 where
  pub name : String
  pub usage : String
  pub value : V

map_text : (Char → Char) → String → String
map_text f String.[] = String.[]
map_text f (String.◌∷◌ c s) = String.◌∷◌ (f c) (map_text f s)

-- The character of the second text at the place where the first one has `c`.
exchange : String → String → Char → Char
exchange String.[] _ c = c
exchange (String.◌∷◌ _ _) String.[] c = c
exchange (String.◌∷◌ from more) (String.◌∷◌ to others) c =
    let rest = exchange more others c in if nat_eq (code c) (code from) then to else rest

-- `strings.ToUpper(strings.ReplaceAll(name, "-", "_"))`, for a name in ASCII
pub env_name : String → String
unfolding map_text exchange
env_name name =
    map_text (exchange "abcdefghijklmnopqrstuvwxyz" "ABCDEFGHIJKLMNOPQRSTUVWXYZ")
      (map_text (exchange "-" "_") name)

module _ {F V : Type 0} where
  string_flag : String → String → String → Destination V → String → Flag F V
  string_flag name usage value destination env_var = record {
    category = "";
    name = name;
    usage = usage;
    required = false;
    value = string_default value;
    destination = destination;
    env_vars = env_var ∷ [];
  }

  -- The flags of `newApp` itself.
  driver_flags : List (Flag F V)
  unfolding string_flag
  driver_flags =
      record {
        category = "";
        name = "node-name";
        usage = "The name of the node on which the driver is running.";
        required = true;
        value = no_default;
        destination = to_node_name;
        env_vars = "NODE_NAME" ∷ [];
      }
      ∷ string_flag "namespace"
          "Namespace where the driver watches for OvsDpdkResourcePolicy resources."
          default_namespace to_namespace "NAMESPACE"
      ∷ string_flag "config-name" "Name of the OvsDpdkConfig cluster-scoped object to watch."
          "default" to_config_name "CONFIG_NAME"
      ∷ string_flag "cdi-root" "Absolute path to the directory where CDI files will be generated."
          "/var/run/cdi" to_cdi_root "CDI_ROOT"
      ∷ string_flag "kubelet-registrar-directory-path"
          "Absolute path to the directory where kubelet stores plugin registrations."
          default_kubelet_registrar_dir to_kubelet_registrar_directory_path
          "KUBELET_REGISTRAR_DIRECTORY_PATH"
      ∷ string_flag "kubelet-plugins-directory-path"
          "Absolute path to the directory where kubelet stores plugin data."
          default_kubelet_plugins_dir to_kubelet_plugins_directory_path
          "KUBELET_PLUGINS_DIRECTORY_PATH"
      ∷ string_flag "ovs-rundir" "Absolute path to the OVS run directory containing db.sock."
          default_ovs_run_dir to_ovs_run_dir "OVS_RUNDIR"
      ∷ record {
        category = "";
        name = "enable-device-metadata";
        usage = concat (
            "Enable DRA DownwardAPI device metadata (KEP-5304). When enabled, a JSON metadata file is "
            ∷ "bind-mounted into each container with device attributes such as the vhost-user socket path."
            ∷ []);
        required = false;
        value = bool_default false;
        destination = to_enable_device_metadata;
        env_vars = "ENABLE_DEVICE_METADATA" ∷ [];
      }
      ∷ []

  -- `KubeClientConfig.Flags`; `five` is 5 as a float64.
  kube_client_flags : F → List (Flag F V)
  kube_client_flags five =
      record {
        category = "Kubernetes client:";
        name = "kube-api-qps";
        usage = "`QPS` to use while communicating with the Kubernetes apiserver.";
        required = false;
        value = float64_default five;
        destination = to_kube_api_qps;
        env_vars = "KUBE_API_QPS" ∷ [];
      }
      ∷ record {
        category = "Kubernetes client:";
        name = "kube-api-burst";
        usage = "`Burst` to use while communicating with the Kubernetes apiserver.";
        required = false;
        value = int_default (pos 10);
        destination = to_kube_api_burst;
        env_vars = "KUBE_API_BURST" ∷ [];
      }
      ∷ []

  pflag_to_cli : String → PFlag V → Flag F V
  pflag_to_cli category flag = record {
    category = category;
    name = flag.name;
    usage = flag.usage;
    required = false;
    value = generic_default flag.value;
    destination = to_value flag.value;
    env_vars = env_name flag.name ∷ [];
  }

-- The flag set that has the flags of Kubernetes' logging, with the flag of the feature gates.
logging_flag_set : {V : Type 0} → List (PFlag V) → V → List String → List (PFlag V)
logging_flag_set added gates known =
    added
    ++ record {
      name = "feature-gates";
      usage = concat (
          "A set of key=value pairs that describe feature gates for alpha/experimental features. "
          ∷ "Options are:\n     "
          ∷ join_with "\n     " known
          ∷ []);
      value = gates;
    }
      ∷ []

-- `LoggingConfig.Flags`. The zero flag set is visited in the order of its declarations.
logging_flags : {F V : Type 0} → List (PFlag V) → V → List String → List (Flag F V)
unfolding logging_flag_set
logging_flags added gates known = map (pflag_to_cli "Logging:") (logging_flag_set added gates known)

-- `cliFlags` of `newApp`
pub cli_flags : {F V : Type 0} → F → List (PFlag V) → V → List String → List (Flag F V)
cli_flags five added gates known =
    (driver_flags ++ kube_client_flags five) ++ logging_flags added gates known
