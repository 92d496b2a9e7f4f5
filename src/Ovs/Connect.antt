-- ===== src/Ovs/Connect.antt =====
-- `New` of pkg/ovs/client.go, which connects to the OVSDB and starts the monitor, and the notifiers of the
-- client. The OVSDB library, the context and the clock are the record Library.
pub mod Opened
use dra_driver_ovsdpdk_upstr.Base.{
  ℕ, zero, suc, String, Option, none, some, List, [], ◌∷◌, Result, ok, err, panic, Error, wrap,
  Exec, concat, wrapping, ◌>>◌,
}
use dra_driver_ovsdpdk_upstr.Base.FilePath
use dra_driver_ovsdpdk_upstr.Ovs.{Notifier}
use dra_driver_ovsdpdk_upstr.Ovs.Monitor.{BridgeEvent, OvsClient}

abbrev pub default_ovs_run_dir : String
default_ovs_run_dir = "/var/run/openvswitch"

-- A condition of a monitor: the rows of a table whose field has a value.
pub record Condition : Type 0 where
  pub table : String
  pub field : String
  pub value : String

-- What `New` calls. `pause` is the `select` on the context and a timer of 5 seconds: the context's error
-- if it is done. `start_events` starts the goroutine that handles the events of interfaces, and returns
-- when it runs; `add_event_handler` hands the callbacks of Monitor to the cache. `current` is the client as
-- the events that were reported so far, and that goroutine, have left it.
pub record Library (W : Type 0) : Type 0 where
  pub new_client_db_model : Exec W (Unit {0})
  pub new_ovsdb_client : String → Exec W (Unit {0})
  pub connect : Exec W (Unit {0})
  pub disconnect : W → W
  pub pause : W → Option Error × W
  pub start_events : OvsClient → W → W
  pub add_event_handler : W → W
  pub monitor : List Condition → Exec W (Unit {0})
  pub current : W → OvsClient

-- Only DPDK bridges and physical DPDK uplinks are reported.
abbrev pub conditions : List Condition
conditions =
    record { table = "Bridge"; field = "datapath_type"; value = "netdev" }
    ∷ record { table = "Interface"; field = "type"; value = "dpdk" }
    ∷ []

abbrev pub new_ovs_client : OvsClient
new_ovs_client = record { numa_map = []; iface_ch = [] }

module _ {W : Type 0} (lib : Library W) where
  paused : Option Error → W → Option (Result (Unit {0})) × W
  paused none w = (none, w)
  paused (some e) w =
      (some (err (wrap "context cancelled while waiting for OVSDB at %q: %w" e)), lib.disconnect w)

  connected : Result (Unit {0}) → W → Option (Result (Unit {0})) × W
  unfolding paused
  connected (ok a) w = (some (ok a), w)
  connected (err e) w = let (done, w') = lib.pause w in paused done w'
  connected panic w = (some panic, w)

  -- One round of the loop of `New`: how it ends the loop, if it does.
  unfoldable pub round : W → Option (Result (Unit {0})) × W
  unfolding connected
  round w = let (r, w') = lib.connect w in connected r w'

  -- The loop, for at most as many rounds as the fuel says; `none` where it goes on.
  pub connect_loop : ℕ → W → Option (Result (Unit {0})) × W
  unfolding round
  connect_loop zero w = (none, w)
  connect_loop (suc fuel) w =
      let (ended, w') = round w in
      elim ended [ some r ↦ (some r, w') | none ↦ connect_loop fuel w' ]

  unfoldable pub start_monitor : Exec W (Unit {0})
  start_monitor w =
      wrapping "monitor Bridge/Interface tables: %w" (lib.monitor conditions)
        (lib.add_event_handler w)

  monitored : Result (Unit {0}) → W → Result OvsClient × W
  monitored (ok _) w = (ok (lib.current w), w)
  monitored (err e) w = (err (wrap "start bridge monitor: %w" e), lib.disconnect w)
  monitored panic w = (panic, w)

  -- After the loop.
  pub after_loop : Result (Unit {0}) → W → Result OvsClient × W
  unfolding start_monitor monitored
  after_loop (ok _) w =
      let (r, w') = start_monitor (lib.start_events new_ovs_client w) in monitored r w'
  after_loop (err e) w = (err e, w)
  after_loop panic w = (panic, w)

  connect_and_start : ℕ → W → Option (Result OvsClient) × W
  unfolding connect_loop after_loop
  connect_and_start fuel w =
      let (ended, w') = connect_loop fuel w in
      elim ended [ none ↦ (none, w') | some r ↦ let (c, w'') = after_loop r w' in (some c, w'') ]

  -- The model and the client library, before anything is connected.
  unfoldable pub prepare_client : String → Exec W (Unit {0})
  prepare_client run_dir =
      wrapping "build OVSDB client model: %w" lib.new_client_db_model
      >> wrapping "create OVSDB client: %w"
          (lib.new_ovsdb_client (concat ("unix:" ∷ FilePath.join (run_dir ∷ "db.sock" ∷ []) ∷ [])))

  unfoldable pub new : ℕ → String → W → Option (Result OvsClient) × W
  unfolding prepare_client connect_and_start
  new fuel run_dir w =
      let (r, w') = prepare_client run_dir w in
      elim r [
        | ok _ ↦ connect_and_start fuel w'
        | err e ↦ (some (err e), w')
        | panic ↦ (some panic, w')
      ]

-- The notifiers; a lock makes each access one step.
pub record Notifiers (S : Type 0) : Type 0 where
  pub bridge_notifier : Option (BridgeEvent → S → S)
  pub iface_notifier : Option (Notifier S)

module _ {S : Type 0} where
  unfoldable pub set_bridge_notifier : Option (BridgeEvent → S → S) → Notifiers S → Notifiers S
  set_bridge_notifier f n = record n { bridge_notifier = f }

  unfoldable pub set_interface_notifier : Option (Notifier S) → Notifiers S → Notifiers S
  set_interface_notifier f n = record n { iface_notifier = f }
