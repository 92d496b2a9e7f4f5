-- ===== src/Driver/Publish.antt =====
-- pkg/driver/driver.go: `New` and `PublishResources`. The plugin helper of Kubernetes is a parameter.
pub mod Offered
use dra_driver_ovsdpdk_upstr.Base.{
  String, Bool, Option, none, some, List, [], ◌∷◌, ◌++◌, map, Result, ok, err, panic, Exec, wrap,
  if◌then◌else◌,
}
use dra_driver_ovsdpdk_upstr.Base.Map.{Map}
use dra_driver_ovsdpdk_upstr.Api.{driver_name}
use dra_driver_ovsdpdk_upstr.DeviceState.Policy.{Device, AllocatableDevices, RepublishCallback}

pub record Slice : Type 0 where
  pub devices : List Device

pub record Pool : Type 0 where
  pub slices : List Slice

-- `resourceslice.DriverResources`
pub record DriverResources : Type 0 where
  pub pools : Map Pool

-- `driver.Config`
pub record Config : Type 0 where
  pub node_name : String
  pub enable_device_metadata : Bool
  pub plugin_data_dir : String
  pub cdi_dir : String

-- The options that the driver hands to the plugin helper.
pub data PluginOption : Type 0 where
  driver_name_option node_name_option plugin_data_directory_path cdi_directory :
      String → PluginOption
  kube_client enable_device_metadata_option metadata_versions : PluginOption

-- The plugin helper: `start` registers the driver with the kubelet.
pub record Helper (W : Type 0) : Type 0 where
  pub start : List PluginOption → Exec W (Unit {0})
  pub publish_resources : DriverResources → Exec W (Unit {0})

unfoldable pub options : Config → List PluginOption
options config =
    driver_name_option driver_name
    ∷ node_name_option config.node_name
    ∷ kube_client
    ∷ plugin_data_directory_path config.plugin_data_dir
    ∷ (if config.enable_device_metadata
        then enable_device_metadata_option ∷ metadata_versions ∷ cdi_directory config.cdi_dir ∷ []
        else [])

-- One pool, named after the node, of one slice with all devices. The loop over the Go map meets its
-- entries in the order that `order` gives them.
unfoldable pub driver_resources :
    (AllocatableDevices → AllocatableDevices) → String → AllocatableDevices → DriverResources
driver_resources order node_name allocatable = record {
  pools =
      (
        node_name,
        record {
          slices = record { devices = map (λ entry. entry.1.device) (order allocatable) } ∷ [];
        },
      )
      ∷ [];
}

module _ {W : Type 0} (helper : Helper W) (order : AllocatableDevices → AllocatableDevices) where
  unfoldable pub publish_resources : String → RepublishCallback W
  unfolding driver_resources
  publish_resources node_name allocatable =
      helper.publish_resources (driver_resources order node_name allocatable)

  -- The callback that is set: none where the helper does not start.
  started : String → Result (Unit {0}) → Result (RepublishCallback W)
  unfolding publish_resources
  started node_name (ok _) = ok (publish_resources node_name)
  started node_name (err e) = err (wrap "start kubelet plugin: %w" e)
  started node_name panic = panic

  unfoldable pub new : Config → Exec W (RepublishCallback W)
  unfolding options started
  new config w = let (r, w') = helper.start (options config) w in (started config.node_name r, w')
