-- ===== src/Ovs/Monitor.antt =====
-- The callbacks that `startMonitor` of pkg/ovs/client.go hands to the cache of the OVSDB library, and the
-- channel of interface events between them and the goroutine that handles these events.
pub mod Channel
use dra_driver_ovsdpdk_upstr.Base.{
  ℕ, String, Bool, true, false, Option, none, some, List, [], ◌∷◌, ◌++◌, ℤ, Exec, length, ltb,
  if◌then◌else◌,
}
use dra_driver_ovsdpdk_upstr.Base.Map
use dra_driver_ovsdpdk_upstr.Ovs.Client.{OvsdbClient, Bridge, Interface}
use dra_driver_ovsdpdk_upstr.Ovs.{
  NumaMap, IfaceEvent, Notifier, handle_interface_add, handle_interface_delete,
}

-- `make(chan ifaceEvent, 16)`
abbrev pub channel_capacity : ℕ
channel_capacity = 16

pub data BridgeEventType : Type 0 where
  bridge_added bridge_deleted : BridgeEventType

pub record BridgeEvent : Type 0 where
  pub name : String
  pub event_type : BridgeEventType

-- What the cache reports; rows of other tables are passed over.
pub data CacheEvent : Type 0 where
  add_bridge delete_bridge : Bridge → CacheEvent
  add_interface delete_interface : Interface → CacheEvent
  other_table : CacheEvent

-- The fields of `ovsClient` that change after start-up, but for the notifiers.
pub record OvsClient : Type 0 where
  pub numa_map : NumaMap
  pub iface_ch : List IfaceEvent

-- `select { case ch <- ev: default: }`: a full channel drops the event.
pub send : IfaceEvent → List IfaceEvent → List IfaceEvent
send ev ch = if ltb (length ch) channel_capacity then ch ++ ev ∷ [] else ch

-- A missing key of a map of texts reads as the empty text.
devargs_of : Option String → String
devargs_of none = ""
devargs_of (some text) = text

-- The event that a row makes for the channel.
pub iface_event : CacheEvent → Option IfaceEvent
unfolding devargs_of
iface_event (add_interface iface) = some (record {
  uuid = iface.uuid;
  name = iface.name;
  devargs = devargs_of (Map.get iface.options "dpdk-devargs");
  added = true;
})
iface_event (delete_interface iface) =
    some (record { uuid = iface.uuid; name = iface.name; devargs = ""; added = false })
iface_event _ = none

pub send_some : Option IfaceEvent → List IfaceEvent → List IfaceEvent
unfolding send
send_some none ch = ch
send_some (some ev) ch = send ev ch

call_notifier : {S : Type 0} → Option (BridgeEvent → S → S) → BridgeEvent → S → S
call_notifier none ev s = s
call_notifier (some f) ev s = f ev s

-- The callbacks, on a row of each table. The notifier is called before the entries of a deleted bridge
-- leave the map.
unfoldable pub handle_cache_event :
    {S : Type 0} → Option (BridgeEvent → S → S) → CacheEvent → OvsClient → S → OvsClient × S
unfolding send_some iface_event call_notifier
handle_cache_event notifier (add_bridge br) c s =
    (c, call_notifier notifier (record { name = br.name; event_type = bridge_added }) s)
handle_cache_event notifier (delete_bridge br) c s = (
  record c { numa_map = Map.delete c.numa_map br.name },
  call_notifier notifier (record { name = br.name; event_type = bridge_deleted }) s,
)
handle_cache_event notifier (add_interface iface) c s =
    (record c { iface_ch = send_some (iface_event (add_interface iface)) c.iface_ch }, s)
handle_cache_event notifier (delete_interface iface) c s =
    (record c { iface_ch = send_some (iface_event (delete_interface iface)) c.iface_ch }, s)
handle_cache_event notifier other_table c s = (c, s)

module _ {S Op Res : Type 0} (client : OvsdbClient S Op Res) (notifier : Option (Notifier S))
    (numa : String → Exec S ℤ) where
  handle_event : Bool → IfaceEvent → NumaMap → S → NumaMap × S
  handle_event true ev m s = handle_interface_add client notifier numa ev m s
  handle_event false ev m s = handle_interface_delete client notifier ev m s

  receive_from : List IfaceEvent → OvsClient → S → OvsClient × S
  unfolding handle_event
  receive_from [] c s = (c, s)
  receive_from (ev ∷ ch) c s =
      let (m, s') = handle_event ev.added ev c.numa_map s in
      (record { numa_map = m; iface_ch = ch }, s')

  -- One turn of the goroutine: it takes the oldest event, or waits.
  unfoldable pub receive : OvsClient → S → OvsClient × S
  unfolding receive_from
  receive c s = receive_from c.iface_ch c s

-- The threads: the cache calls back, or the goroutine takes its turn.
pub data Action : Type 0 where
  report : CacheEvent → Action
  handle : Action

module _ {S Op Res : Type 0} (client : OvsdbClient S Op Res)
    (bridge_notifier : Option (BridgeEvent → S → S)) (notifier : Option (Notifier S))
    (numa : String → Exec S ℤ) where
  -- An order in which the threads take their turns.
  unfoldable pub run : List Action → OvsClient → S → OvsClient × S
  unfolding handle_cache_event receive
  run [] c s = (c, s)
  run (report e ∷ rest) c s =
      let (c', s') = handle_cache_event bridge_notifier e c s in run rest c' s'
  run (handle ∷ rest) c s = let (c', s') = receive client notifier numa c s in run rest c' s'
