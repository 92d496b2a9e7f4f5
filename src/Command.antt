-- ===== src/Command.antt =====
-- cmd/dra-driver-ovsdpdk/main.go: `run`, which starts the parts, waits, and ends what it started by its
-- `defer` lines. What the parts and the libraries do when they are started and ended is a parameter.
pub mod Cleanup
pub mod Options
pub mod App
use dra_driver_ovsdpdk_upstr.Base.{
  String, Bool, true, false, Option, none, some, List, [], ◌∷◌, Error, wrap, concat, if◌then◌else◌,
}
use dra_driver_ovsdpdk_upstr.Api.{driver_name}
use dra_driver_ovsdpdk_upstr.Driver.Publish.{Config}

-- `types.Flags`, the fields that `run` uses
pub record Flags : Type 0 where
  pub node_name : String
  pub namespace : String
  pub config_name : String
  pub cdi_root : String
  pub kubelet_plugins_directory_path : String
  pub ovs_run_dir : String
  pub enable_device_metadata : Bool

-- `DriverPluginPath`
unfoldable pub driver_plugin_path : Flags → String
driver_plugin_path flags = concat (flags.kubelet_plugins_directory_path ∷ "/" ∷ driver_name ∷ [])

-- How the wait ends: the context is done, by a signal or by its caller, or the controller manager ends,
-- with or without an error.
pub data Ending : Type 0 where
  context_done : Ending
  manager_exited : Option Error → Ending

-- What `run` calls. An error that is returned is `none` for nil. `cause` is `context.Cause` after the wait.
pub record Parts (W : Type 0) : Type 0 where
  pub notify_context : W → W
  pub stop_notify : W → W
  pub mkdir_all : String → W → Option Error × W
  pub new_ovs_client : String → W → Option Error × W
  pub close_ovs_client : W → W
  pub new_cdi : String → W → Option Error × W
  pub new_manager : W → Option Error × W
  pub stop_all : W → W
  pub new_device_state : W → W
  pub new_driver : Config → W → Option Error × W
  pub stop_driver : W → W
  pub setup_policy_controller : String → String → W → Option Error × W
  pub setup_config_controller : String → W → Option Error × W
  pub wait : W → Ending × W
  pub cancel : Error → W → W
  pub cause : W → Option Error × W
  pub is_canceled : Error → Bool

module _ {W : Type 0} where
  -- `if err := m; err != nil { return fmt.Errorf("text: %w", err) }`, and the rest of the function.
  abbrev or_return : String → (W → Option Error × W) → (W → Option Error × W) → W → Option Error × W
  or_return text m rest w =
      let (failed, w') = m w in elim failed [ some e ↦ (some (wrap text e), w') | none ↦ rest w' ]

  -- `defer cleanup()`, and the rest of the function.
  abbrev deferring : (W → W) → (W → Option Error × W) → W → Option Error × W
  deferring cleanup rest w = let (r, w') = rest w in (r, cleanup w')

module _ {W : Type 0} (parts : Parts W) (flags : Flags) where
  driver_config : Config
  driver_config = record {
    node_name = flags.node_name;
    enable_device_metadata = flags.enable_device_metadata;
    plugin_data_dir = driver_plugin_path flags;
    cdi_dir = flags.cdi_root;
  }

  -- `err != nil && !errors.Is(err, context.Canceled)`
  fatal : Option Error → Option Error
  fatal none = none
  fatal (some e) = if parts.is_canceled e then none else some e

  cancel_on : Ending → W → W
  cancel_on (manager_exited (some e)) w = parts.cancel (wrap "controller manager exited: %w" e) w
  cancel_on _ w = w

  -- From the wait on.
  wait_for_end : W → Option Error × W
  unfolding cancel_on fatal
  wait_for_end w =
      let (ending, w₁) = parts.wait w in
      let (cause, w₂) = parts.cause (parts.stop_notify (cancel_on ending w₁)) in (fatal cause, w₂)

  with_policy_controller : W → Option Error × W
  unfolding wait_for_end
  with_policy_controller =
      or_return "setup config controller: %w" (parts.setup_config_controller flags.config_name)
        wait_for_end

  with_driver : W → Option Error × W
  unfolding with_policy_controller
  with_driver =
      or_return "setup controller: %w"
        (parts.setup_policy_controller flags.node_name flags.namespace) with_policy_controller

  with_manager : W → Option Error × W
  unfolding with_driver driver_config
  with_manager w =
      or_return "create DRA driver: %w" (parts.new_driver driver_config)
        (deferring parts.stop_driver with_driver) (parts.new_device_state w)

  with_cdi : W → Option Error × W
  unfolding with_manager
  with_cdi =
      or_return "create device plugin manager: %w" parts.new_manager
        (deferring parts.stop_all with_manager)

  with_ovs : W → Option Error × W
  unfolding with_cdi
  with_ovs = or_return "create DRI Handler: %w" (parts.new_cdi flags.cdi_root) with_cdi

  with_directories : W → Option Error × W
  unfolding with_ovs
  with_directories =
      or_return "create OVS client: %w" (parts.new_ovs_client flags.ovs_run_dir)
        (deferring parts.close_ovs_client with_ovs)

  with_plugin_path : W → Option Error × W
  unfolding with_directories
  with_plugin_path =
      or_return "create CDI root %q: %w" (parts.mkdir_all flags.cdi_root) with_directories

  with_signals : W → Option Error × W
  unfolding with_plugin_path driver_plugin_path
  with_signals =
      or_return "create driver plugin path %q: %w" (parts.mkdir_all (driver_plugin_path flags))
        with_plugin_path

  unfoldable pub run : W → Option Error × W
  unfolding with_signals
  run w = deferring parts.stop_notify with_signals (parts.notify_context w)
